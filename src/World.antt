-- ===== src/World.antt =====
-- Commands of one thread on a shared heap. Between two atomic accesses of the thread the other
-- threads may change the heap: `env` lists what they do, one entry before each atomic access.
pub mod Returns
pub mod Then
use pebr_benchmark.Base.{Bool, true, if◌then◌else◌, List, [], ◌∷◌, Option, none, some}

-- `heap` is shared, `own` is what only this thread writes (`&mut self` of a handler).
pub record World (H S : Type 0) : Type 0 where
  pub heap : H
  pub env : List (H → H)
  pub own : S

-- Nobody else runs.
abbrev pub quiet : {H S : Type 0} → H → S → World H S
quiet h s = record { heap = h; env = []; own = s }

-- `fault` is undefined behaviour or a panic: a null or dangling pointer is dereferenced.
pub data Run (H S A : Type 0) : Type 0 where
  ok : A → World H S → Run H S A
  fault : Run H S A
  out_of_fuel : Run H S A

abbrev pub Cmd : Type 0 → Type 0 → Type 0 → Type 0
Cmd H S A = World H S → Run H S A

module _ {H S : Type 0} where
  abbrev pub pure : {A : Type 0} → A → Cmd H S A
  pure a w = ok a w

  abbrev pub crash : {A : Type 0} → Cmd H S A
  crash w = fault

  abbrev pub stop : {A : Type 0} → Cmd H S A
  stop w = out_of_fuel

  abbrev pub and_then : {A B : Type 0} → Run H S A → (A → Cmd H S B) → Run H S B
  and_then (ok a w) k = k a w
  and_then fault k = fault
  and_then out_of_fuel k = out_of_fuel

  infixl 5 ◌>>=◌ ◌>>◌
  abbrev pub ◌>>=◌ : {A B : Type 0} → Cmd H S A → (A → Cmd H S B) → Cmd H S B
  ◌>>=◌ m k w = and_then (m w) k

  abbrev pub ◌>>◌ : {B : Type 0} → Cmd H S (Unit {0}) → Cmd H S B → Cmd H S B
  ◌>>◌ m k w = and_then (m w) λ _. k

  -- The next change that the other threads make.
  abbrev pub interfere : World H S → World H S
  interfere w = elim w.env [ [] ↦ w | f ∷ fs ↦ record { heap = f w.heap; env = fs; own = w.own } ]

  -- An access to private or immutable memory; `none` is a fault.
  abbrev pub access : {A : Type 0} → (H → Option (A × H)) → Cmd H S A
  access f w = elim (f w.heap) [ none ↦ fault | some (a, h) ↦ ok a (record w { heap = h }) ]

  -- An atomic access, after what the others do before it.
  abbrev pub atomic : {A : Type 0} → (H → Option (A × H)) → Cmd H S A
  atomic f w = access f (interfere w)

  abbrev pub modify_own : (S → S) → Cmd H S (Unit {0})
  modify_own f w = ok tt (record w { own = f w.own })

  -- `a || b`: the second is run only if the first is false.
  infixr 30 ◌or_else◌
  abbrev pub ◌or_else◌ : Cmd H S Bool → Cmd H S Bool → Cmd H S Bool
  m or_else n = m >>= λ b. if b then pure true else n
