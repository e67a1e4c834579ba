-- ===== src/Pebr/LinkedList/Tests.antt =====
-- Runs of the lists of pebr/list.rs.
use pebr_benchmark.Base.{ℕ, ◌≡◌, refl, Bool, true, false, Option, none, some, []}
use pebr_benchmark.Ord.{nat_ord, by_order}
use pebr_benchmark.Shared.{null}
use pebr_benchmark.World.{Run, pure, quiet, ◌>>=◌, ◌>>◌}
use pebr_benchmark.Pebr.ShieldPool.Tests.{small_api}
use pebr_benchmark.Pebr.LinkedList.Heap.{
  Heap, load, compare_and_set, mark_next, deref, alloc, store_next, free, drop_value, defer_destroy,
  new,
}
use pebr_benchmark.Pebr.LinkedList.Cursor.{
  Local, C, on_outcome, new_cursor, release, init_find, fake_curr, defend_curr, swap, prev_shared,
  curr_shared, repin,
}
use pebr_benchmark.Pebr.LinkedList.Find.{
  defer_chain, clean_up, harris_walk, find_harris, harris_michael_loop, find_harris_michael,
  herlihy_shavit_loop, find_harris_herlihy_shavit,
}
use pebr_benchmark.Pebr.LinkedList.Map.{
  find, get, link, insert_inner, insert_loop, insert, unlink, remove_inner, remove, drop_loop, drop,
}
use pebr_benchmark.Pebr.LinkedList.Variants.{
  harris_get, harris_insert, harris_remove, harris_michael_get, harris_michael_insert,
  harris_michael_remove, harris_herlihy_shavit_get, harris_herlihy_shavit_insert,
  harris_herlihy_shavit_remove, ConcurrentMap, h_list, hm_list, hhs_list,
}

abbrev result : {H S A : Type 0} → Run H S A → Option A
result (Run.ok a w) = some a
result _ = none

abbrev no_nodes : Heap ℕ ℕ
no_nodes = record { cells = λ _. none; fresh = 1; deferred = []; dropped = [] }

-- A thread that is ejected before it starts.
abbrev ejected_local : Local small_api.Shield small_api.Guard
ejected_local = record { cursor = record { prev = null; curr = null }; guard = true }

smoke :
    ConcurrentMap small_api ℕ ℕ
    → C small_api ℕ ℕ (Bool × Bool × Bool × Bool × Option ℕ × Option ℕ × Option ℕ × Option ℕ)
smoke map = do
  list ← map.make
  a ← map.add 2 9 list 3 30
  b ← map.add 2 9 list 1 10
  c ← map.add 2 9 list 2 20
  d ← map.add 2 9 list 2 22
  x ← map.lookup 2 9 list 2
  y ← map.delete 2 9 list 2
  z ← map.lookup 2 9 list 2
  u ← map.lookup 2 9 list 3
  map.clear
  drop 9 list
  pure (a, b, c, d, x, y, z, u)

abbrev expected : Option (Bool × Bool × Bool × Bool × Option ℕ × Option ℕ × Option ℕ × Option ℕ)
expected = some (true, true, true, false, some 20, some 20, none, some 30)

smoke-h_list : result (smoke (h_list small_api) (quiet no_nodes ejected_local)) ≡ expected
unfolding smoke h_list harris_get harris_insert harris_remove find_harris harris_walk clean_up
    defer_chain find get link insert_inner insert_loop insert unlink remove_inner remove drop_loop
    drop new load compare_and_set mark_next deref alloc store_next free drop_value defer_destroy
    on_outcome new_cursor release init_find fake_curr defend_curr swap prev_shared curr_shared repin
    by_order
smoke-h_list = refl

smoke-hm_list : result (smoke (hm_list small_api) (quiet no_nodes ejected_local)) ≡ expected
unfolding smoke hm_list harris_michael_get harris_michael_insert harris_michael_remove
    harris_michael_loop find_harris_michael find get link insert_inner insert_loop insert unlink
    remove_inner remove drop_loop drop new load compare_and_set mark_next deref alloc store_next
    free drop_value defer_destroy on_outcome new_cursor release init_find fake_curr defend_curr swap
    prev_shared curr_shared repin by_order
smoke-hm_list = refl

smoke-hhs_list : result (smoke (hhs_list small_api) (quiet no_nodes ejected_local)) ≡ expected
unfolding smoke hhs_list harris_herlihy_shavit_get harris_herlihy_shavit_insert
    harris_herlihy_shavit_remove herlihy_shavit_loop find_harris_herlihy_shavit harris_michael_loop
    find_harris_michael find get link insert_inner insert_loop insert unlink remove_inner remove
    drop_loop drop new load compare_and_set mark_next deref alloc store_next free drop_value
    defer_destroy on_outcome new_cursor release init_find fake_curr defend_curr swap prev_shared
    curr_shared repin by_order
smoke-hhs_list = refl
