-- ===== src/SortedMap/Sorted.antt =====
-- The dictionary operations keep the order, and are the updates of a function.
use pebr_benchmark.Base.{[], ◌∷◌, All-imp, arith}
use pebr_benchmark.Ord.{Ord, ◌≺◌}
use pebr_benchmark.SortedMap.{Entries, insert, remove, Above, IsSorted}

module _ {K V : Type 0} ⦃o : Ord K⦄ where
  pub Above-trans : (j k : K) (m : Entries K V) → j ≺ k → Above k m → Above j m
  Above-trans j k m h a = All-imp (λ e b. o.cmp_trans j k e.0 h b) m a

  Above-insert : (j k : K) (v : V) (m : Entries K V) → j ≺ k → Above j m → Above j (insert k v m)
  unfolding insert
  Above-insert j k v [] h a = (h, tt)
  Above-insert j k v ((i, w) ∷ m) h a = ground (arith, Above-insert j k v m)

  -- `insert` keeps the keys in order
  pub insert-IsSorted : (k : K) (v : V) (m : Entries K V) → IsSorted m → IsSorted (insert k v m)
  unfolding insert
  insert-IsSorted k v [] s = (tt, tt)
  insert-IsSorted k v ((i, w) ∷ m) s =
      ground (arith, insert-IsSorted k v m, Above-insert i k v m, o.cmp_gt i k, Above-trans k i m)

  Above-remove : (j k : K) (m : Entries K V) → Above j m → Above j (remove k m)
  unfolding remove
  Above-remove j k [] a = tt
  Above-remove j k ((i, w) ∷ m) a = ground (arith, Above-remove j k m)

  -- `remove` keeps the keys in order
  pub remove-IsSorted : (k : K) (m : Entries K V) → IsSorted m → IsSorted (remove k m)
  unfolding remove
  remove-IsSorted k [] s = tt
  remove-IsSorted k ((i, w) ∷ m) s = ground (arith, remove-IsSorted k m, Above-remove i k m)
