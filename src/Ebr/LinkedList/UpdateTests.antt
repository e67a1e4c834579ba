-- ===== src/Ebr/LinkedList/UpdateTests.antt =====
-- The theorems on updates of the lists of ebr/list.rs at a small list.
use pebr_benchmark.Base.{ℕ, ◌+◌, ◌≡◌, refl, [], ◌∷◌, length, is_none, arith}
use pebr_benchmark.Ord.{nat_ord}
use pebr_benchmark.SortedMap.{Entries, lookup, insert, remove}
use pebr_benchmark.World.{ok, quiet}
use pebr_benchmark.World.Returns.{Returns}
use pebr_benchmark.Ebr.LinkedList.Variants.{
  harris_get, harris_insert, harris_remove, harris_michael_insert, harris_michael_remove,
}
use pebr_benchmark.Ebr.LinkedList.Update.{Holds}
use pebr_benchmark.Ebr.LinkedList.Insert.{harris_insert-Holds, harris_michael_insert-Holds}
use pebr_benchmark.Ebr.LinkedList.Remove.{taken, harris_remove-Holds, harris_michael_remove-Holds}
use pebr_benchmark.Ebr.LinkedList.Lookup.{harris_get-lookup}
use pebr_benchmark.Ebr.LinkedList.Tests.{clean_cells, clean}

abbrev two_entries : Entries ℕ ℕ
two_entries = (3, 30) ∷ (5, 50) ∷ []

clean-Holds : Holds clean 0 two_entries
clean-Holds = record {
  cells = clean_cells;
  clean = record {
    linked = record {
      from = refl;
      chain = (omega arith, refl, (omega arith, refl, tt));
      apart = ((λ e. ground arith, tt), (tt, tt));
    };
    live = (refl, (refl, tt));
    rising = ((refl, tt), (tt, tt));
    bounded = (omega arith, (omega arith, tt));
    allocates = omega arith;
  };
  listed = refl;
}

harris_michael_insert-Holds_example :
    Returns
      (λ inserted h' s'.
        (inserted ≡ is_none (lookup 4 two_entries)) × Holds h' 0 (insert 4 40 two_entries))
      (harris_michael_insert 1 3 0 4 40 (quiet clean tt))
harris_michael_insert-Holds_example =
    harris_michael_insert-Holds 0 3 0 4 40 clean two_entries clean-Holds (omega arith)

harris_michael_remove-Holds_example :
    Returns
      (λ found h' s'.
        (found ≡ lookup 3 two_entries)
        × Holds h' 0 (remove 3 two_entries)
        × (length h'.deferred ≡ length clean.deferred + taken found))
      (harris_michael_remove 1 3 0 3 (quiet clean tt))
harris_michael_remove-Holds_example =
    harris_michael_remove-Holds 0 3 0 3 clean two_entries clean-Holds (omega arith)

harris_insert-Holds_example :
    Returns
      (λ inserted h' s'.
        (inserted ≡ is_none (lookup 4 two_entries)) × Holds h' 0 (insert 4 40 two_entries))
      (harris_insert 1 3 0 4 40 (quiet clean tt))
harris_insert-Holds_example =
    harris_insert-Holds 0 3 0 4 40 clean two_entries clean-Holds (omega arith)

harris_remove-Holds_example :
    Returns
      (λ found h' s'.
        (found ≡ lookup 3 two_entries)
        × Holds h' 0 (remove 3 two_entries)
        × (length h'.deferred ≡ length clean.deferred + taken found))
      (harris_remove 1 3 0 3 (quiet clean tt))
harris_remove-Holds_example =
    harris_remove-Holds 0 3 0 3 clean two_entries clean-Holds (omega arith)

harris_get-lookup_example :
    harris_get 1 3 0 5 (quiet clean tt) ≡ ok (lookup 5 two_entries) (quiet clean tt)
harris_get-lookup_example = harris_get-lookup 0 3 0 5 clean two_entries clean-Holds (omega arith)
