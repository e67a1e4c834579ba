-- ===== src/Pebr/BonsaiTree/Keeps.antt =====
-- The shields of pebr/bonsai_tree.rs, whatever the other threads do meanwhile: a command that loses no
-- shield, and one that loses at most one, if it is ejected.
pub mod Tries
pub mod Balance
pub mod Edit
pub mod Map
use Prim.Native.Nat.{Ordering}
use Prim.Native.Nat.Ordering.{lt, eq, gt}
use pebr_benchmark.Base.{
  ℕ, ◌≡◌, refl, Bool, true, false, Option, none, some, List, [], ◌∷◌, inl, inr, if◌then◌else◌,
}
use pebr_benchmark.Ord.{by_order}
use pebr_benchmark.Shared.{Shared}
use pebr_benchmark.World.{
  World, Run, Cmd, ok, fault, out_of_fuel, pure, crash, stop, and_then, ◌>>=◌, interfere, access,
  atomic, modify_own,
}
use pebr_benchmark.Pebr.ShieldPool.{
  ShieldApi, ShieldPool, Defended, handle, ejected, undefined, defend, drop_handle,
}
use pebr_benchmark.Pebr.ShieldPool.Full.{
  IsFull, LosesOne, Answered, IsFull-swap, defend-Answered, drop_handle-IsFull,
}
use pebr_benchmark.Pebr.BonsaiTree.Node.{Heap}
use pebr_benchmark.Pebr.BonsaiTree.State.{State, Local, C, modify_state}
use pebr_benchmark.Pebr.BonsaiTree.Shields.{
  Result, done, err, on_result, E, lift, ◌afterwards◌, defend_ptr, release_ptr, shielded,
  defend_root, release_root, repin, ◌>>=◌ as try_bind,
}

module _ (api : ShieldApi) {K V : Type 0} where
  open api use {Shield, Guard}

  abbrev pub IsKept : {A : Type 0} → List ℕ → Run (Heap K V) (Local Shield Guard) A → Type 0
  IsKept held (ok a w) = IsFull w.own.state.shields held
  IsKept held _ = Unit

  -- Every shield of the pool is available or among the handles `held`, before and after.
  pub record Keeps {A : Type 0} (m : C api K V A) : Type 0 where
    pub kept :
        (held : List ℕ) (w : World (Heap K V) (Local Shield Guard))
        → IsFull w.own.state.shields held
        → IsKept held (m w)

  IsKept-then :
      {A B : Type 0} (held : List ℕ) (r : Run (Heap K V) (Local Shield Guard) A)
      (k : A → C api K V B)
      → IsKept held r
      → ((a : A) → Keeps (k a))
      → IsKept held (and_then r k)
  IsKept-then held (ok a w) k v next = (next a).kept held w v
  IsKept-then held fault k v next = tt
  IsKept-then held out_of_fuel k v next = tt

  pub Keeps-bind :
      {A B : Type 0} (m : C api K V A) (k : A → C api K V B)
      → Keeps m
      → ((a : A) → Keeps (k a))
      → Keeps (m >>= k)
  Keeps-bind m k first next = record {
    kept = λ held w v. IsKept-then held (m w) k (first.kept held w v) next;
  }

  pub Keeps-pure : {A : Type 0} (a : A) → Keeps (pure a)
  Keeps-pure a = record { kept = λ held w v. v }

  pub Keeps-crash : {A : Type 0} → Keeps (crash {A = A})
  Keeps-crash = record { kept = λ held w v. tt }

  pub Keeps-stop : {A : Type 0} → Keeps (stop {A = A})
  Keeps-stop = record { kept = λ held w v. tt }

  pub Keeps-if :
      {A : Type 0} (b : Bool) (m n : C api K V A) → Keeps m → Keeps n → Keeps (if b then m else n)
  Keeps-if true m n p q = p
  Keeps-if false m n p q = q

  IsKept-answer :
      {A : Type 0} (r : Option (A × Heap K V)) (held : List ℕ)
      (w : World (Heap K V) (Local Shield Guard))
      → IsFull w.own.state.shields held
      → IsKept held (elim r [ none ↦ fault | some (a, h) ↦ ok a (record w { heap = h }) ])
  IsKept-answer none held w v = tt
  IsKept-answer (some (a, h)) held w v = v

  pub Keeps-access : {A : Type 0} (f : Heap K V → Option (A × Heap K V)) → Keeps (access f)
  Keeps-access f = record { kept = λ held w v. IsKept-answer (f w.heap) held w v }

  IsFull-interfere :
      (heap : Heap K V) (env : List (Heap K V → Heap K V)) (own : Local Shield Guard)
      (held : List ℕ)
      → IsFull own.state.shields held
      → IsFull (interfere (record { heap = heap; env = env; own = own })).own.state.shields held
  IsFull-interfere heap [] own held v = v
  IsFull-interfere heap (f ∷ fs) own held v = v

  pub Keeps-atomic : {A : Type 0} (f : Heap K V → Option (A × Heap K V)) → Keeps (atomic f)
  Keeps-atomic f = record {
    kept = λ held w v.
        (Keeps-access f).kept held (interfere w) (IsFull-interfere w.heap w.env w.own held v);
  }

  pub Keeps-modify_state :
      (f : State Shield → State Shield)
      → ((s : State Shield) → (f s).shields ≡ s.shields)
      → Keeps (modify_state api f)
  unfolding modify_state
  Keeps-modify_state f same = record { kept = λ held w v. rw (same w.own.state) v }

  pub Keeps-repin : Keeps (repin api)
  unfolding repin
  Keeps-repin = record { kept = λ held w v. v }

pub ruleset keeps =
    (Keeps-bind, Keeps-if, Keeps-pure, Keeps-crash, Keeps-stop, Keeps-access, Keeps-atomic)
