-- ===== src/SortedMap.antt =====
-- What every map of the benchmark implements: a dictionary, as a list of entries in key order.
pub mod Sorted
pub mod Split
pub mod Commute
pub mod Between
pub mod RoundTrip
pub mod Assign
use Prim.Native.Nat.Ordering.{lt, eq, gt}
use pebr_benchmark.Base.{◌≡◌, Option, none, some, List, [], ◌∷◌, All}
use pebr_benchmark.Ord.{Ord, ◌≺◌}

abbrev pub Entries : Type 0 → Type 0 → Type 0
Entries K V = List (K × V)

module _ {K V : Type 0} ⦃o : Ord K⦄ where
  unfoldable pub lookup : K → Entries K V → Option V
  lookup k [] = none
  lookup k ((j, w) ∷ m) = elim (o.cmp j k) [ lt ↦ lookup k m | eq ↦ some w | gt ↦ none ]

  -- A key that is there keeps its value.
  unfoldable pub insert : K → V → Entries K V → Entries K V
  insert k v [] = (k, v) ∷ []
  insert k v ((j, w) ∷ m) = elim (o.cmp j k) [
    | lt ↦ (j, w) ∷ insert k v m
    | eq ↦ (j, w) ∷ m
    | gt ↦ (k, v) ∷ (j, w) ∷ m
  ]

  unfoldable pub remove : K → Entries K V → Entries K V
  remove k [] = []
  remove k ((j, w) ∷ m) = elim (o.cmp j k) [ lt ↦ (j, w) ∷ remove k m | eq ↦ m | gt ↦ (j, w) ∷ m ]

  abbrev pub Above : K → Entries K V → Type 0
  Above k m = All (λ e. k ≺ e.0) m

  abbrev pub Below : K → Entries K V → Type 0
  Below k m = All (λ e. e.0 ≺ k) m

  -- The keys rise strictly.
  abbrev pub IsSorted : Entries K V → Type 0
  IsSorted [] = Unit
  IsSorted (e ∷ m) = Above e.0 m × IsSorted m
