-- ===== src/Pebr/NmTree/Answers.antt =====
-- pebr/natarajan_mittal_tree.rs against ebr/natarajan_mittal_tree.rs: what a lookup and a removal
-- answer, unless the thread is ejected.
use Prim.Native.Nat.{Ordering}
use Prim.Native.Nat.Ordering.{lt, eq, gt}
use pebr_benchmark.Base.{
  ℕ, zero, suc, ◌≡◌, refl, ap, ◌∙◌, sym, Bool, Bool-cases, true, false, inl, inr, Option, none,
  some, if◌then◌else◌, not, arith,
}
use pebr_benchmark.Ord.{Ord, by_order}
use pebr_benchmark.Shared.{Shared, with_tag, ◌=ₚ◌}
use pebr_benchmark.World.{World, Run, ok, fault, out_of_fuel, Cmd, and_then, pure, crash}
use pebr_benchmark.Ebr.NmTree.Node.{marks, key_cmp, Heap, deref, compare_and_set}
use pebr_benchmark.Ebr.NmTree.Seek
use pebr_benchmark.Ebr.NmTree.Seek.{unmarked}
use pebr_benchmark.Ebr.NmTree.Map
use pebr_benchmark.Pebr.ShieldPool.{ShieldApi}
use pebr_benchmark.Pebr.Result.{Result, done, err, on_result}
use pebr_benchmark.Pebr.NmTree.Record.{Local, pointers, get_pointers}
use pebr_benchmark.Pebr.NmTree.Seek.{seek}
use pebr_benchmark.Pebr.NmTree.Map.{cleanup, help, get_inner, cleanup_phase, flagged, remove_inner}
use pebr_benchmark.Pebr.NmTree.Follows.{
  put, Follows, returned, left, faulted, ran_out, Blind-Follows, bind-Follows,
}
use pebr_benchmark.Pebr.NmTree.Mirror.{
  found_by, answer_of, deref-Blind, compare_and_set-Blind, cleanup-Blind, seek-Follows,
}

some_injective : {A : Type 0} {x y : A} → some x ≡ some y → x ≡ y
some_injective {A = A} {y = y} e =
    ap {A = Option A} (λ found. elim found [ none ↦ y | some z ↦ z ]) e

ignore_result :
    {H L A B : Type 0} (r : Run H L A) (k : Cmd H L B)
    → and_then (and_then r λ _. pure tt) (λ _. k) ≡ and_then r λ _. k
ignore_result (ok a w) k = refl
ignore_result fault k = refl
ignore_result out_of_fuel k = refl

module _ {H L A B : Type 0} {view : B → L → Option A} {l : L} where
  value-Follows :
      {V : Type 0} (value : Option V) (k : V → Cmd H L B) (k' : V → Cmd H L A) (w : World H L)
      → ((v : V) → Follows l view (k v w) (k' v (put l w)))
      → Follows l view
          ((elim value as (λ _. Cmd H L B) [ none ↦ crash | some v ↦ k v ]) w)
          ((elim value as (λ _. Cmd H L A) [ none ↦ crash | some v ↦ k' v ]) (put l w))
  value-Follows none k k' w next = faulted
  value-Follows (some v) k k' w next = next v

  failed-Follows :
      {C : Type 0} (failed : Option C) (x : Cmd H L B) (k : C → Cmd H L B) (x' : Cmd H L A)
      → (k' : C → Cmd H L A) (w : World H L) → Follows l view (x w) (x' (put l w))
      → ((c : C) → Follows l view (k c w) (k' c (put l w)))
      → Follows l view
          ((elim failed as (λ _. Cmd H L B) [ none ↦ x | some c ↦ k c ]) w)
          ((elim failed as (λ _. Cmd H L A) [ none ↦ x' | some c ↦ k' c ]) (put l w))
  failed-Follows none x k x' k' w f g = f
  failed-Follows (some c) x k x' k' w f g = g c

  order-Follows :
      (c : Ordering) (x y z : Cmd H L B) (x' y' z' : Cmd H L A) (w : World H L)
      → Follows l view (x w) (x' (put l w))
      → Follows l view (y w) (y' (put l w))
      → Follows l view (z w) (z' (put l w))
      → Follows l view
          (by_order c x y z w)
          ((elim c as (λ _. Cmd H L A) [ lt ↦ x' | eq ↦ y' | gt ↦ z' ]) (put l w))
  unfolding by_order
  order-Follows lt x y z x' y' z' w f g h = f
  order-Follows eq x y z x' y' z' w f g h = g
  order-Follows gt x y z x' y' z' w f g h = h

  if-Follows :
      (b : Bool) (x y : Cmd H L B) (x' y' : Cmd H L A) (w : World H L)
      → Follows l view (x w) (x' (put l w))
      → Follows l view (y w) (y' (put l w))
      → Follows l view ((if b then x else y) w) ((if b then x' else y') (put l w))
  if-Follows true x y x' y' w f g = f
  if-Follows false x y x' y' w f g = g

module _ (api : ShieldApi) {K V : Type 0} ⦃o : Ord K⦄ where
  open api use {Shield, Guard, defend_shield, deref_shield, fake_shield}

  module _
      (held : (s : Shield) (p : Shared) (g : Guard)
        → (defend_shield s p g).1 ≡ true
        → deref_shield (defend_shield s p g).0 ≡ p)
      (faked : (s : Shield) (p : Shared) → deref_shield (fake_shield s p) ≡ p) where
    -- After a walk: what is done with the record, and with an ejection.
    seek_then-Follows :
        {B : Type 0} (fuel : ℕ) (r : Shared) (key : K)
        → (k : Cmd (Heap K V) (Local Shield Guard) (Result B))
        → (k' : Seek.SeekRecord → Cmd (Heap K V) (Local Shield Guard) B)
        → (w : World (Heap K V) (Local Shield Guard)) (l : Local Shield Guard)
        → ((v : World (Heap K V) (Local Shield Guard))
            → Follows l answer_of (k v) (k' (pointers api v.own.rec) (put l v)))
        → Follows l answer_of
            (and_then (seek api fuel r key w) λ result. on_result result (λ _. k) (pure err))
            (and_then (Seek.seek fuel r key (put l w)) k')
    unfolding on_result
    seek_then-Follows {B = B} fuel r key k k' w l next =
        bind-Follows _ _ _ k' (seek-Follows api held faked fuel r key w l) after stop
      where
        after :
            (result : Result (Unit {0})) (v : World (Heap K V) (Local Shield Guard))
            → (rec : Seek.SeekRecord) → found_by api result v.own ≡ some rec
            → Follows l answer_of (on_result result (λ _. k) (pure err) v) (k' rec (put l v))
        after (done a) v rec e = rw (sym (some_injective e)) (next v)
        after err v rec e = grind arith

        stop :
            (result : Result (Unit {0})) (v : World (Heap K V) (Local Shield Guard))
            → (s : Run (Heap K V) (Local Shield Guard) B) → found_by api result v.own ≡ none
            → Follows l answer_of (on_result result (λ _. k) (pure err) v) s
        stop (done a) v s e = grind arith
        stop err v s e = left refl

    pub get_inner-Follows :
        (depth : ℕ) (r : Shared) (key : K) (w : World (Heap K V) (Local Shield Guard))
        → (l : Local Shield Guard)
        → Follows l answer_of (get_inner api depth r key w) (Map.get depth r key (put l w))
    unfolding get_inner Map.get get_pointers by_order
    get_inner-Follows depth r key w l = seek_then-Follows depth r key _ _ w l λ v.
        Blind-Follows (deref (deref_shield v.own.rec.leaf)) _ _ v (deref-Blind _) λ node v' same.
          order-Follows (key_cmp node.key key) _ _ _ _ _ _ v' (returned refl)
            (value-Follows node.value _ _ v' λ x. returned refl) (returned refl)

    -- `pointers` of the record are read from the state.
    cleanup-Follows :
        {B : Type 0} (depth : ℕ) (rec : Seek.SeekRecord)
        → (k : Bool → Cmd (Heap K V) (Local Shield Guard) (Result B))
        → (k' : Bool → Cmd (Heap K V) (Local Shield Guard) B)
        → (w : World (Heap K V) (Local Shield Guard)) (l : Local Shield Guard)
        → pointers api w.own.rec ≡ rec
        → ((b : Bool) (v : World (Heap K V) (Local Shield Guard))
            → v.own ≡ w.own
            → Follows l answer_of (k b v) (k' b (put l v)))
        → Follows l answer_of
            (and_then (cleanup api depth w) k)
            (and_then (Map.cleanup depth rec (put l w)) k')
    unfolding cleanup get_pointers
    cleanup-Follows depth rec k k' w l e next =
        rw e (Blind-Follows (Map.cleanup depth rec) k k' w (cleanup-Blind depth rec) next)

    pub cleanup_phase-Follows :
        (rounds depth : ℕ) (r : Shared) (key : K) (leaf : Shared) (value : V)
        → (w : World (Heap K V) (Local Shield Guard)) (l : Local Shield Guard)
        → Follows l answer_of
            (cleanup_phase api rounds depth r key leaf value w)
            (Map.cleanup_phase rounds depth r key leaf value (put l w))
    unfolding cleanup_phase Map.cleanup_phase get_pointers
    cleanup_phase-Follows zero depth r key leaf value w l = ran_out
    cleanup_phase-Follows (suc rounds) depth r key leaf value w l =
        seek_then-Follows depth r key _ _ w l λ v.
          if-Follows (not (deref_shield v.own.rec.leaf =ₚ leaf)) _ _ _ _ v (returned refl) (
            cleanup-Follows depth _ _ _ v l refl λ b v' same.
              if-Follows b _ _ _ _ v' (returned refl)
                (cleanup_phase-Follows rounds depth r key leaf value v' l))

    pub flagged-Follows :
        (rounds depth : ℕ) (r : Shared) (key : K) (leaf : Shared) (value : V)
        → (rec : Seek.SeekRecord)
        → (w : World (Heap K V) (Local Shield Guard)) (l : Local Shield Guard)
        → pointers api w.own.rec ≡ rec
        → rec.leaf ≡ leaf
        → Follows l answer_of
            (flagged api rounds depth r key leaf value w)
            (Map.flagged rounds depth r key rec value (put l w))
    unfolding flagged Map.flagged
    flagged-Follows rounds depth r key leaf value rec w l e f = rw f (
        cleanup-Follows depth rec _ _ w l e λ b v same.
          if-Follows b _ _ _ _ v (returned refl)
            (cleanup_phase-Follows rounds depth r key leaf value v l))

    help_then-Follows :
        {B : Type 0} (depth : ℕ) (rec : Seek.SeekRecord) (leaf current : Shared)
        → (k : Cmd (Heap K V) (Local Shield Guard) (Result B))
        → (k' : Cmd (Heap K V) (Local Shield Guard) B)
        → (w : World (Heap K V) (Local Shield Guard)) (l : Local Shield Guard)
        → pointers api w.own.rec ≡ rec
        → rec.leaf ≡ leaf
        → ((v : World (Heap K V) (Local Shield Guard)) → Follows l answer_of (k v) (k' (put l v)))
        → Follows l answer_of
            (and_then (help api depth leaf current w) λ _. k)
            (and_then (Map.help depth rec current (put l w)) λ _. k')
    unfolding help Map.help
    help_then-Follows depth rec leaf current k k' w l e f next =
        elim (Bool-cases (unmarked current =ₚ leaf)) [
          | inl same ↦
              rw (f, same)
                (rw
                  (
                    ignore_result (cleanup api depth w) k,
                    ignore_result (Map.cleanup depth rec (put l w)) k',
                  )
                  (cleanup-Follows depth rec (λ _. k) (λ _. k') w l e λ b v same'. next v))
          | inr other ↦ rw (f, other) (next w)
        ]

    pub remove_inner-Follows :
        (rounds depth : ℕ) (r : Shared) (key : K) (w : World (Heap K V) (Local Shield Guard))
        → (l : Local Shield Guard)
        → Follows l answer_of
            (remove_inner api rounds depth r key w)
            (Map.remove rounds depth r key (put l w))
    unfolding remove_inner Map.remove get_pointers
    remove_inner-Follows zero depth r key w l = ran_out
    remove_inner-Follows (suc rounds) depth r key w l = seek_then-Follows depth r key _ _ w l λ v.
        let rec = pointers api v.own.rec in
        Blind-Follows (deref rec.leaf) _ _ v (deref-Blind _) λ node v1 same1.
          order-Follows (key_cmp node.key key) _ _ _ _ _ _ v1 (returned refl)
            (value-Follows node.value _ _ v1 λ x.
              Blind-Follows
                (compare_and_set rec.parent rec.leaf_dir rec.leaf
                  (with_tag rec.leaf (marks true false)))
                _ _ v1 (compare_and_set-Blind _ _ _ _)
                λ failed v2 same2.
                  failed-Follows failed _ _ _ _ v2
                    (flagged-Follows rounds depth r key _ x rec v2 l
                      (ap {A = Local Shield Guard} (λ own. pointers api own.rec) (same2 ∙ same1))
                      refl)
                    λ current.
                      help_then-Follows depth rec _ current _ _ v2 l
                        (ap {A = Local Shield Guard} (λ own. pointers api own.rec) (same2 ∙ same1))
                        refl λ v3. remove_inner-Follows rounds depth r key v3 l)
            (returned refl)
