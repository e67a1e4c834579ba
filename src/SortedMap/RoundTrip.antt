-- ===== src/SortedMap/RoundTrip.antt =====
-- A missing entry that is inserted, looked up, and removed.
use pebr_benchmark.Base.{◌≡◌, none, some, ◌≤◌, suc, length, [], ◌∷◌, arith}
use pebr_benchmark.Ord.{Ord}
use pebr_benchmark.SortedMap.{Entries, lookup, insert, remove}

module _ {K V : Type 0} ⦃o : Ord K⦄ (k : K) (v : V) where
  pub lookup-insert : (m : Entries K V) → lookup k m ≡ none → lookup k (insert k v m) ≡ some v
  unfolding lookup insert
  lookup-insert [] e = ground (arith, o.cmp_self k)
  lookup-insert ((j, w) ∷ m) e = ground (arith, o.cmp_self k, lookup-insert m)

  pub remove-insert : (m : Entries K V) → lookup k m ≡ none → remove k (insert k v m) ≡ m
  unfolding lookup insert remove
  remove-insert [] e = ground (arith, o.cmp_self k)
  remove-insert ((j, w) ∷ m) e = ground (arith, o.cmp_self k, remove-insert m)

  pub length-insert : (m : Entries K V) → length (insert k v m) ≤ suc (length m)
  unfolding insert
  length-insert [] = ground arith
  length-insert ((j, w) ∷ m) = ground (arith, length-insert m)
