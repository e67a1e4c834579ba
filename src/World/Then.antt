-- ===== src/World/Then.antt =====
-- Commands one after the other: what follows a run may be replaced, and sequences regrouped.
use pebr_benchmark.Base.{◌≡◌, refl}
use pebr_benchmark.World.{World, Run, Cmd, ok, fault, out_of_fuel, and_then}

module _ {H S : Type 0} where
  pub same_then :
      {A B : Type 0} (r : Run H S A) (k k' : A → Cmd H S B)
      → ((a : A) (w : World H S) → k a w ≡ k' a w)
      → and_then r k ≡ and_then r k'
  same_then (ok a w) k k' e = e a w
  same_then fault k k' e = refl
  same_then out_of_fuel k k' e = refl

  pub then_assoc :
      {A B C : Type 0} (r : Run H S A) (k : A → Cmd H S B) (j : B → Cmd H S C)
      → and_then (and_then r k) j ≡ and_then r λ a w. and_then (k a w) j
  then_assoc (ok a w) k j = refl
  then_assoc fault k j = refl
  then_assoc out_of_fuel k j = refl
