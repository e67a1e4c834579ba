-- ===== src/World/Returns.antt =====
-- Total correctness of an undisturbed run: it returns, and a postcondition holds.
use pebr_benchmark.Base.{◌≡◌, refl}
use pebr_benchmark.World.{Run, ok, quiet, Cmd, and_then}

pub data Returns {H S A : Type 0} (P : A → H → S → Type 0) : Run H S A → Type 0 where
  returns : {a : A} {h : H} {s : S} → P a h s → Returns P (ok a (quiet h s))

module _ {H S A B : Type 0} {P : A → H → S → Type 0} {Q : B → H → S → Type 0} where
  pub bind :
      {r : Run H S A} (k : A → Cmd H S B)
      → Returns P r
      → ((a : A) (h : H) (s : S) → P a h s → Returns Q (k a (quiet h s)))
      → Returns Q (and_then r k)
  bind k (returns p) next = next _ _ _ p

module _ {H S A : Type 0} {P Q : A → H → S → Type 0} where
  pub weaken :
      {r : Run H S A} → Returns P r → ((a : A) (h : H) (s : S) → P a h s → Q a h s) → Returns Q r
  weaken (returns p) f = returns (f _ _ _ p)

module _ {H S A : Type 0} {a : A} {h : H} {s : S} where
  pub exact :
      {r : Run H S A} → Returns (λ b h' s'. (b ≡ a) × (h' ≡ h) × (s' ≡ s)) r → r ≡ ok a (quiet h s)
  exact (returns (e, f, g)) = rw (e, f, g) refl
