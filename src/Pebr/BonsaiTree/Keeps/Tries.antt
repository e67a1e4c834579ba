-- ===== src/Pebr/BonsaiTree/Keeps/Tries.antt =====
-- The shields of pebr/bonsai_tree.rs: a command that an ejection may end, which loses at most one
-- shield then, and none otherwise.
use Prim.Native.Nat.{Ordering}
use Prim.Native.Nat.Ordering.{lt, eq, gt}
use pebr_benchmark.Base.{
  ℕ, ◌≡◌, some, Bool, true, false, Bool-cases, List, ◌∷◌, inl, inr, if◌then◌else◌,
}
use pebr_benchmark.Ord.{by_order}
use pebr_benchmark.Shared.{Shared}
use pebr_benchmark.World.{World, Run, ok, fault, out_of_fuel, pure, crash, stop, and_then}
use pebr_benchmark.Pebr.ShieldPool.{
  ShieldApi, ShieldPool, Defended, handle, ejected, undefined, drop_handle,
}
use pebr_benchmark.Pebr.ShieldPool.Full.{
  IsFull, LosesOne, Answered, IsFull-swap, defend-Answered, drop_handle-IsFull,
}
use pebr_benchmark.Pebr.BonsaiTree.Node.{Heap}
use pebr_benchmark.Pebr.BonsaiTree.State.{Local, C}
use pebr_benchmark.Pebr.BonsaiTree.Shields.{
  Result, done, err, E, lift, ◌afterwards◌, defend_ptr, release_ptr, shielded, defend_root,
  ◌>>=◌ as try_bind,
}
use pebr_benchmark.Pebr.BonsaiTree.Keeps.{IsKept, Keeps}

module _ (api : ShieldApi) {K V : Type 0} where
  open api use {Shield, Guard}

  abbrev pub IsTried :
      {A : Type 0} → List ℕ → Run (Heap K V) (Local Shield Guard) (Result A) → Type 0
  IsTried held (ok (done a) w) = IsFull w.own.state.shields held
  IsTried held (ok err w) = LosesOne w.own.state.shields held
  IsTried held _ = Unit

  -- From a full pool to a full one, or, if the thread is ejected, to one that lost a shield.
  pub record Tries {A : Type 0} (m : E api K V A) : Type 0 where
    pub tried :
        (held : List ℕ) (w : World (Heap K V) (Local Shield Guard))
        → IsFull w.own.state.shields held
        → IsTried held (m w)

  pub Tries-give : {A : Type 0} (a : A) → Tries (pure (done a))
  Tries-give a = record { tried = λ held w f. f }

  pub Tries-stop : {A : Type 0} → Tries (stop {A = Result A})
  Tries-stop = record { tried = λ held w f. tt }

  pub Tries-if :
      {A : Type 0} (b : Bool) (m n : E api K V A) → Tries m → Tries n → Tries (if b then m else n)
  Tries-if true m n p q = p
  Tries-if false m n p q = q

  pub Tries-by_order :
      {A : Type 0} (c : Ordering) (l e g : E api K V A)
      → Tries l
      → Tries e
      → Tries g
      → Tries (by_order c l e g)
  unfolding by_order
  Tries-by_order lt l e g p q r = p
  Tries-by_order eq l e g p q r = q
  Tries-by_order gt l e g p q r = r

  lifted :
      {A : Type 0} (held : List ℕ) (r : Run (Heap K V) (Local Shield Guard) A)
      → IsKept api held r
      → IsTried held (and_then r λ a. pure (done a))
  lifted held (ok a w) f = f
  lifted held fault f = tt
  lifted held out_of_fuel f = tt

  pub Tries-lift : {A : Type 0} (m : C api K V A) → Keeps api m → Tries (lift m)
  Tries-lift m first = record { tried = λ held w f. lifted held (m w) (first.kept held w f) }

  resumed :
      {A B : Type 0} (held : List ℕ) (r : Run (Heap K V) (Local Shield Guard) (Result A))
      (k : A → E api K V B)
      → IsTried held r
      → ((a : A) → Tries (k a))
      → IsTried held
          (and_then r λ x. elim x as (λ _. E api K V B) [ done a ↦ k a | err ↦ pure err ])
  resumed held (ok (done a) w) k f next = (next a).tried held w f
  resumed held (ok err w) k f next = f
  resumed held fault k f next = tt
  resumed held out_of_fuel k f next = tt

  -- `?`
  pub Tries-bind :
      {A B : Type 0} (m : E api K V A) (k : A → E api K V B)
      → Tries m
      → ((a : A) → Tries (k a))
      → Tries (try_bind m k)
  Tries-bind m k first next = record {
    tried = λ held w f. resumed held (m w) k (first.tried held w f) next;
  }

  after_done :
      {A : Type 0} (held : List ℕ) (a : A) (r : Run (Heap K V) (Local Shield Guard) (Unit {0}))
      → IsKept api held r
      → IsTried held (and_then r λ _. pure (done a))
  after_done held a (ok u w) f = f
  after_done held a fault f = tt
  after_done held a out_of_fuel f = tt

  after_err :
      (A : Type 0) (held : List ℕ) (r : Run (Heap K V) (Local Shield Guard) (Unit {0}))
      → IsKept api held r
      → IsTried held (and_then {B = Result A} r λ _. pure err)
  after_err A held (ok u w) f = inl f
  after_err A held fault f = tt
  after_err A held out_of_fuel f = tt

  after_loss :
      (A : Type 0) (held : List ℕ) (i : ℕ) (r : Run (Heap K V) (Local Shield Guard) (Unit {0}))
      → IsKept api (i ∷ held) r
      → IsTried held (and_then {B = Result A} r λ _. pure err)
  after_loss A held i (ok u w) f = inr (i, f)
  after_loss A held i fault f = tt
  after_loss A held i out_of_fuel f = tt

  finish :
      {A : Type 0} (held : List ℕ) (r : Run (Heap K V) (Local Shield Guard) (Result A))
      (k : C api K V (Unit {0}))
      → IsTried held r
      → Keeps api k
      → IsTried held (and_then r λ x v. and_then (k v) λ _. pure x)
  finish held (ok (done a) w) k f next = after_done held a (k w) (next.kept held w f)
  finish {A} held (ok err w) k (inl f) next = after_err A held (k w) (next.kept held w f)
  finish {A} held (ok err w) k (inr (i, f)) next =
      after_loss A held i (k w) (next.kept (i ∷ held) w f)
  finish held fault k f next = tt
  finish held out_of_fuel k f next = tt

  pub Tries-afterwards :
      {A : Type 0} (m : E api K V A) (k : C api K V (Unit {0}))
      → Tries m
      → Keeps api k
      → Tries (m afterwards k)
  Tries-afterwards m k first next = record {
    tried = λ held w f. finish held (m w) k (first.tried held w f) next;
  }

  pub Tries-defend_root : (ptr : Shared) → Tries (defend_root api ptr)
  unfolding defend_root
  Tries-defend_root ptr = record {
    tried = λ held w f.
        let gone = (api.defend_shield w.own.state.root_shield ptr w.own.guard).1 in
        elim (Bool-cases gone) [ inl e ↦ rw e f | inr e ↦ rw e (inl f) ];
  }

  release_ptr-ok :
      (i : ℕ) (w : World (Heap K V) (Local Shield Guard)) (pool : ShieldPool Shield)
      → drop_handle api w.own.state.shields i ≡ some pool
      → release_ptr api i w
        ≡ ok tt (record w { own = record w.own { state = record w.own.state { shields = pool } } })
  unfolding release_ptr
  release_ptr-ok i w pool e = rw (e, release_ptr)

  -- The end of a scope.
  released :
      {A : Type 0} (i : ℕ) (held : List ℕ) (r : Run (Heap K V) (Local Shield Guard) (Result A))
      → IsTried (i ∷ held) r
      → IsTried held (and_then r λ a v. and_then (release_ptr api i v) λ _. pure a)
  released i held (ok (done a) w) f =
      let (after, found, full) = drop_handle-IsFull api w.own.state.shields i held f in
      rw (release_ptr-ok i w after found) full
  released i held (ok err w) (inl f) =
      let (after, found, full) = drop_handle-IsFull api w.own.state.shields i held f in
      rw (release_ptr-ok i w after found) (inl full)
  released i held (ok err w) (inr (j, f)) =
      let swapped = IsFull-swap w.own.state.shields j i held f in
      let (after, found, full) = drop_handle-IsFull api w.own.state.shields i (j ∷ held) swapped in
      rw (release_ptr-ok i w after found) (inr (j, full))
  released i held fault f = tt
  released i held out_of_fuel f = tt

  scoped :
      {A : Type 0} (body : E api K V A)
      → Tries body
      → (d : Defended) (held : List ℕ) (w : World (Heap K V) (Local Shield Guard))
      → Answered d w.own.state.shields held
      → IsTried held (
          (elim d as (λ _. E api K V A) [
            | handle index ↦ body afterwards release_ptr api index
            | ejected ↦ pure err
            | undefined ↦ crash
          ])
            w)
  scoped body inner (handle i) held w f = released i held (body w) (inner.tried (i ∷ held) w f)
  scoped body inner ejected held w f = f
  scoped body inner undefined held w f = tt

  -- A scope releases its shield on every way out of it.
  pub Tries-shielded :
      {A : Type 0} (ptr : Shared) (body : E api K V A) → Tries body → Tries (shielded api ptr body)
  unfolding shielded defend_ptr
  Tries-shielded ptr body inner = record {
    tried = λ held w f.
        scoped body inner _ held _ (defend-Answered api w.own.state.shields held ptr w.own.guard f);
  }

pub ruleset tries = (
  Tries-bind, Tries-lift, Tries-afterwards, Tries-shielded, Tries-if, Tries-give, Tries-stop,
  Tries-defend_root, Tries-by_order,
)
