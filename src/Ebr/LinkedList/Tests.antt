-- ===== src/Ebr/LinkedList/Tests.antt =====
-- Runs of the lists of ebr/list.rs, and a theorem at a small list.
use pebr_benchmark.Base.{
  ℕ, ◌≡◌, refl, Bool, true, false, Option, none, some, List, [], ◌∷◌, arith, ◌==◌, if◌then◌else◌,
}
use pebr_benchmark.Ord.{nat_ord}
use pebr_benchmark.SortedMap.{lookup}
use pebr_benchmark.Shared.{shared, null}
use pebr_benchmark.World.{Run, ok, pure, quiet, ◌>>=◌, ◌>>◌}
use pebr_benchmark.Ebr.LinkedList.Heap.{
  Heap, C, empty, new, read, write, load, compare_and_set, mark_next, deref, alloc, store_next,
  free, drop_value, defer_destroy,
}
use pebr_benchmark.Ebr.LinkedList.Find.{
  defer_chain, clean_up, harris_walk, find_harris, find_harris_michael, find_harris_herlihy_shavit,
}
use pebr_benchmark.Ebr.LinkedList.Map.{
  find, get, insert_loop, insert, unlink, remove, drop_loop, drop,
}
use pebr_benchmark.Ebr.LinkedList.Variants.{
  harris_get, harris_insert, harris_remove, harris_michael_get, harris_michael_insert,
  harris_michael_remove, harris_herlihy_shavit_get, harris_herlihy_shavit_insert,
  harris_herlihy_shavit_remove, ConcurrentMap, h_list, hm_list, hhs_list,
}
use pebr_benchmark.Ebr.LinkedList.Chain.{Cell, live_entries}
use pebr_benchmark.World.Returns.{Returns}
use pebr_benchmark.Ebr.LinkedList.Drop.{dropping, drop-dropping}
use pebr_benchmark.Ebr.LinkedList.Get.{
  Leads, harris_michael_get-lookup, harris_herlihy_shavit_get-lookup,
}

abbrev result : {H S A : Type 0} → Run H S A → Option A
result (Run.ok a w) = some a
result _ = none

smoke :
    ConcurrentMap ℕ ℕ
    → C ℕ ℕ (Bool × Bool × Bool × Bool × Option ℕ × Option ℕ × Option ℕ × Option ℕ)
smoke map = do
  list ← map.make
  a ← map.add 2 9 list 3 30
  b ← map.add 2 9 list 1 10
  c ← map.add 2 9 list 2 20
  d ← map.add 2 9 list 2 22
  x ← map.lookup 2 9 list 2
  y ← map.delete 2 9 list 2
  z ← map.lookup 2 9 list 2
  u ← map.lookup 2 9 list 3
  drop 9 list
  pure (a, b, c, d, x, y, z, u)

abbrev expected : Option (Bool × Bool × Bool × Bool × Option ℕ × Option ℕ × Option ℕ × Option ℕ)
expected = some (true, true, true, false, some 20, some 20, none, some 30)

smoke-h_list : result (smoke h_list (quiet empty tt)) ≡ expected
unfolding smoke h_list harris_get harris_insert harris_remove find_harris harris_walk clean_up
    defer_chain find get insert_loop insert unlink remove drop_loop drop new read write load
    compare_and_set mark_next deref alloc store_next free drop_value defer_destroy
smoke-h_list = refl

smoke-hm_list : result (smoke hm_list (quiet empty tt)) ≡ expected
unfolding smoke hm_list harris_michael_get harris_michael_insert harris_michael_remove
    find_harris_michael find get insert_loop insert unlink remove drop_loop drop new read write load
    compare_and_set mark_next deref alloc store_next free drop_value defer_destroy
smoke-hm_list = refl

smoke-hhs_list : result (smoke hhs_list (quiet empty tt)) ≡ expected
unfolding smoke hhs_list harris_herlihy_shavit_get harris_herlihy_shavit_insert
    harris_herlihy_shavit_remove find_harris_michael find_harris_herlihy_shavit find get insert_loop
    insert unlink remove drop_loop drop new read write load compare_and_set mark_next deref alloc
    store_next free drop_value defer_destroy
smoke-hhs_list = refl

-- The node of the key 5 is marked.
abbrev sample_cells : List (Cell ℕ ℕ)
sample_cells =
    record { addr = 1; key = 3; value = 30; marked = false }
    ∷ record { addr = 2; key = 5; value = 50; marked = true }
    ∷ record { addr = 3; key = 7; value = 70; marked = false }
    ∷ []

abbrev sample : Heap ℕ ℕ
sample = record {
  heads = shared 1 0 ∷ [];
  cells = λ a.
      if a == 1
      then some (record { next = shared 2 0; key = 3; value = 30 })
      else if a == 2
      then some (record { next = shared 3 1; key = 5; value = 50 })
      else if a == 3
      then some (record { next = null; key = 7; value = 70 })
      else none;
  fresh = 4;
  deferred = [];
  dropped = [];
}

sample-Leads : Leads sample 0 sample_cells
sample-Leads = record {
  from = refl;
  chain = (omega arith, refl, (omega arith, refl, (omega arith, refl, tt)));
  rising = ((refl, (refl, tt)), ((refl, tt), (tt, tt)));
}

harris_herlihy_shavit_get-lookup_example :
    harris_herlihy_shavit_get 1 4 0 7 (quiet sample tt)
    ≡ ok (lookup 7 (live_entries sample_cells)) (quiet sample tt)
harris_herlihy_shavit_get-lookup_example =
    harris_herlihy_shavit_get-lookup 0 4 0 7 sample-Leads (omega arith)

drop-dropping_example :
    Returns
      (λ _ h' s'. h'.dropped ≡ dropping sample_cells sample.dropped)
      (drop 4 0 (quiet sample tt))
drop-dropping_example = drop-dropping 4 0 sample-Leads (omega arith)

drops_live : dropping sample_cells [] ≡ 70 ∷ 30 ∷ []
drops_live = refl

-- A list of two nodes, none of them marked.
abbrev pub clean_cells : List (Cell ℕ ℕ)
clean_cells =
    record { addr = 1; key = 3; value = 30; marked = false }
    ∷ record { addr = 2; key = 5; value = 50; marked = false }
    ∷ []

abbrev pub clean : Heap ℕ ℕ
clean = record {
  heads = shared 1 0 ∷ [];
  cells = λ a.
      if a == 1
      then some (record { next = shared 2 0; key = 3; value = 30 })
      else if a == 2
      then some (record { next = null; key = 5; value = 50 })
      else none;
  fresh = 3;
  deferred = [];
  dropped = [];
}

clean-Leads : Leads clean 0 clean_cells
clean-Leads = record {
  from = refl;
  chain = (omega arith, refl, (omega arith, refl, tt));
  rising = ((refl, tt), (tt, tt));
}

harris_michael_get-lookup_example :
    harris_michael_get 1 3 0 5 (quiet clean tt)
    ≡ ok (lookup 5 (live_entries clean_cells)) (quiet clean tt)
harris_michael_get-lookup_example =
    harris_michael_get-lookup 0 3 0 5 clean-Leads (omega arith) (refl, (refl, tt))
