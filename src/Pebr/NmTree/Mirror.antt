-- ===== src/Pebr/NmTree/Mirror.antt =====
-- pebr/natarajan_mittal_tree.rs against ebr/natarajan_mittal_tree.rs: an operation that is not
-- ejected does what the operation without shields does, whatever the other threads do.
use pebr_benchmark.Base.{
  List, [], ◌∷◌, ℕ, zero, suc, ◌≡◌, refl, ap, ◌∙◌, Bool, Bool-cases, true, inl, inr, Option, none,
  some,
}
use pebr_benchmark.Ord.{Ord}
use pebr_benchmark.Shared.{Shared, is_null}
use pebr_benchmark.World.{World}
use pebr_benchmark.Ebr.NmTree.Node.{
  Direction, to_left, Heap, deref, load, compare_and_set, tag_edge, defer_destroy,
}
use pebr_benchmark.Ebr.NmTree.Seek
use pebr_benchmark.Ebr.NmTree.Seek.{advance, unmarked}
use pebr_benchmark.Ebr.NmTree.Map
use pebr_benchmark.Ebr.NmTree.Map.{destroy}
use pebr_benchmark.Pebr.ShieldPool.{ShieldApi}
use pebr_benchmark.Pebr.Result.{Result, done, err}
use pebr_benchmark.Pebr.NmTree.Record.{Local, pointers, get_pointers}
use pebr_benchmark.Pebr.NmTree.Seek.{seek_loop, seek}
use pebr_benchmark.Pebr.NmTree.Follows.{
  put, Follows, returned, left, ran_out, Blind, lift-Follows, blind,
}
use pebr_benchmark.Pebr.NmTree.Moves.{
  Moved-Follows, advance_ancestor-Moved, advance_leaf-Moved, defend_leaf-Moved,
}

module _ {K V S : Type 0} where
  pub deref-Blind : (p : Shared) → Blind (deref {K = K} {V = V} {S = S} p)
  unfolding deref
  deref-Blind p = search blind depth 24

  pub load-Blind : (p : Shared) (dir : Direction) → Blind (load {K = K} {V = V} {S = S} p dir)
  unfolding load
  load-Blind p dir = search blind depth 24

  pub compare_and_set-Blind :
      (p : Shared) (dir : Direction) (old new : Shared)
      → Blind (compare_and_set {K = K} {V = V} {S = S} p dir old new)
  unfolding compare_and_set
  compare_and_set-Blind p dir old new = search blind depth 24

  pub tag_edge-Blind :
      (p : Shared) (dir : Direction) → Blind (tag_edge {K = K} {V = V} {S = S} p dir)
  unfolding tag_edge
  tag_edge-Blind p dir = search blind depth 24

  pub defer_destroy-Blind : (p : Shared) → Blind (defer_destroy {K = K} {V = V} {S = S} p)
  unfolding defer_destroy
  defer_destroy-Blind p = search blind depth 24

  pub destroy-Blind :
      (fuel : ℕ) (sibling : Shared) (stack : List Shared)
      → Blind (destroy {K = K} {V = V} {S = S} fuel sibling stack)
  unfolding destroy
  destroy-Blind zero sibling stack = search blind
  destroy-Blind (suc fuel) sibling [] = search blind
  destroy-Blind (suc fuel) sibling (node ∷ stack) =
      search (blind, load-Blind, defer_destroy-Blind, destroy-Blind fuel) depth 24

  pub cleanup-Blind :
      (depth : ℕ) (rec : Seek.SeekRecord) → Blind (Map.cleanup {K = K} {V = V} {S = S} depth rec)
  unfolding Map.cleanup
  cleanup-Blind depth rec =
      search (blind, load-Blind, tag_edge-Blind, compare_and_set-Blind, destroy-Blind) depth 32

-- What a walk without shields returns.
abbrev pub found_by :
    (api : ShieldApi) → Result (Unit {0}) → Local api.Shield api.Guard → Option Seek.SeekRecord
found_by api (done _) own = some (pointers api own.rec)
found_by api err own = none

abbrev pub answer_of : {L A : Type 0} → Result A → L → Option A
answer_of (done a) own = some a
answer_of err own = none

module _ (api : ShieldApi) {K V : Type 0} ⦃o : Ord K⦄ where
  open api use {Shield, Guard, defend_shield, deref_shield, fake_shield}

  -- What crossbeam documents of a shield: it holds the pointer that it was given, unless it
  -- answers that the thread was ejected.
  module _
      (held : (s : Shield) (p : Shared) (g : Guard)
        → (defend_shield s p g).1 ≡ true
        → deref_shield (defend_shield s p g).0 ≡ p) where
    pub seek_loop-Follows :
        (fuel : ℕ) (key : K) (prev_tag : Bool) (curr : Shared) (dir : Direction)
        → (w : World (Heap K V) (Local Shield Guard)) (l : Local Shield Guard)
        → (rec : Seek.SeekRecord) → pointers api w.own.rec ≡ rec
        → Follows l
            (found_by api)
            (seek_loop api fuel key prev_tag curr dir w)
            (Seek.seek_loop fuel key rec prev_tag curr dir (put l w))
    unfolding seek_loop Seek.seek_loop advance get_pointers deref load
    seek_loop-Follows zero key prev_tag curr dir w l rec e = ran_out
    seek_loop-Follows (suc fuel) key prev_tag curr dir w l rec e =
        elim (Bool-cases (is_null curr)) [
          | inl here ↦ rw here (returned (ap some e))
          | inr there ↦ rw there (
              Moved-Follows api _ _ (advance_ancestor-Moved api held prev_tag w)
                (λ own1 e1.
                  Moved-Follows api _ _ (advance_leaf-Moved api held curr dir (put own1 w))
                    (λ own2 e2. rw (ap {A = Seek.SeekRecord} (λ q. q.leaf) e2) (
                      lift-Follows (deref curr) _ _ (put own2 w) (deref-Blind curr) λ node v same.
                        rw (ap {A = Seek.SeekRecord} (λ q. q.leaf) e2) (
                          lift-Follows (load curr _) _ _ v (load-Blind curr _) λ next v' same'.
                            seek_loop-Follows fuel key _ next _ v' l _ (
                              ap {A = Local Shield Guard} (λ o. pointers api o.rec) (same' ∙ same)
                              ∙ e2
                              ∙ ap {A = Seek.SeekRecord}
                                  (λ q. record q {
                                    parent = q.leaf;
                                    leaf = unmarked curr;
                                    leaf_dir = dir;
                                  })
                                  e1
                              ∙ ap (λ q. advance q prev_tag curr dir) e))))
                    (λ own2. left refl))
                (λ own1. left refl))
        ]

    module _ (faked : (s : Shield) (p : Shared) → deref_shield (fake_shield s p) ≡ p) where
      pub seek-Follows :
          (fuel : ℕ) (r : Shared) (key : K) (w : World (Heap K V) (Local Shield Guard))
          → (l : Local Shield Guard)
          → Follows l (found_by api) (seek api fuel r key w) (Seek.seek fuel r key (put l w))
      unfolding seek Seek.seek get_pointers
      seek-Follows fuel r key w l =
          lift-Follows (load r to_left) _ _ w (load-Blind r to_left) λ s v same.
            let own1 : Local Shield Guard = record v.own {
              rec = record v.own.rec {
                ancestor = fake_shield v.own.rec.ancestor r;
                successor = fake_shield v.own.rec.successor s;
                successor_dir = to_left;
              };
            } in
            lift-Follows (load s to_left) _ _ (put own1 v) (load-Blind s to_left) λ marked v2 same2.
              let faked_parent : Local Shield Guard → Local Shield Guard =
                λ o. record o { rec = record o.rec { parent = fake_shield o.rec.parent s } } in
              Moved-Follows api _ _
                (defend_leaf-Moved api held (unmarked marked) (put (faked_parent v2.own) v2))
                (λ own3 e3. rw (ap {A = Seek.SeekRecord} (λ q. q.leaf) e3) (
                  lift-Follows (load (unmarked marked) to_left) _ _ _ (load-Blind _ to_left)
                    λ curr v4 same4. seek_loop-Follows fuel key _ curr to_left v4 l _ (
                      ap {A = Local Shield Guard} (λ o. pointers api o.rec) same4
                      ∙ ap {A = Seek.SeekRecord} (λ q. record q { leaf_dir = to_left }) e3
                      ∙ ap {A = Local Shield Guard}
                          (λ o. record (pointers api (faked_parent o).rec) {
                            leaf = unmarked marked;
                            leaf_dir = to_left;
                          })
                          same2
                      ∙ rw
                          (
                            faked v.own.rec.ancestor r,
                            faked v.own.rec.successor s,
                            faked v.own.rec.parent s,
                          )
                          refl)))
                (λ own3. left refl)
