-- ===== src/Pebr/HashMap/Tests.antt =====
-- Runs of the hash map of pebr/michael_hash_map.rs.
use pebr_benchmark.Base.{ℕ, ◌≡◌, refl, Bool, true, false, Option, none, some, []}
use pebr_benchmark.Ord.{nat_ord, by_order}
use pebr_benchmark.Shared.{null}
use pebr_benchmark.World.{Run, pure, quiet, ◌>>=◌}
use pebr_benchmark.Pebr.ShieldPool.Tests.{small_api}
use pebr_benchmark.Pebr.LinkedList.Heap.{
  Heap, load, compare_and_set, mark_next, deref, alloc, store_next, free, drop_value, defer_destroy,
  new,
}
use pebr_benchmark.Pebr.LinkedList.Cursor.{
  Local, C, on_outcome, init_find, fake_curr, defend_curr, swap, prev_shared, curr_shared, repin,
}
use pebr_benchmark.Pebr.LinkedList.Find.{harris_michael_loop, find_harris_michael}
use pebr_benchmark.Pebr.LinkedList.Map.{find, link, insert_inner, insert_loop, unlink, remove_inner}
use pebr_benchmark.Pebr.LinkedList.Map
use pebr_benchmark.Pebr.LinkedList.Variants.{
  harris_michael_get, harris_michael_insert, harris_michael_remove, hm_list,
}
use pebr_benchmark.Pebr.HashMap.{push_buckets, with_capacity, get_bucket, get, insert, remove}

abbrev result : {H S A : Type 0} → Run H S A → Option A
result (Run.ok a w) = some a
result _ = none

abbrev no_nodes : Heap ℕ ℕ
no_nodes = record { cells = λ _. none; fresh = 1; deferred = []; dropped = [] }

abbrev local : Local small_api.Shield small_api.Guard
local = record { cursor = record { prev = null; curr = null }; guard = true }

smoke : C small_api ℕ ℕ (Bool × Bool × Bool × Option ℕ × Option ℕ × Option ℕ × Option ℕ)
unfolding push_buckets with_capacity get_bucket get insert remove hm_list harris_michael_get
    harris_michael_insert harris_michael_remove harris_michael_loop find_harris_michael find Map.get
    link insert_inner insert_loop Map.insert unlink remove_inner Map.remove new load compare_and_set
    mark_next deref alloc store_next free drop_value defer_destroy on_outcome init_find fake_curr
    defend_curr swap prev_shared curr_shared repin by_order
smoke = do
  map ← with_capacity small_api 3
  a ← insert small_api (λ k. k) 2 9 map 1 10
  b ← insert small_api (λ k. k) 2 9 map 4 40
  c ← insert small_api (λ k. k) 2 9 map 4 44
  x ← get small_api (λ k. k) 2 9 map 4
  y ← remove small_api (λ k. k) 2 9 map 1
  z ← get small_api (λ k. k) 2 9 map 1
  u ← get small_api (λ k. k) 2 9 map 4
  pure (a, b, c, x, y, z, u)

result-smoke :
    result (smoke (quiet no_nodes local))
    ≡ some (true, true, false, some 40, some 10, none, some 40)
unfolding smoke
result-smoke = refl
