-- ===== src/Ebr/HashMap/Tests.antt =====
-- Runs of the hash map of ebr/michael_hash_map.rs, and its theorem at a small capacity.
use pebr_benchmark.Base.{
  ℕ, ◌+◌, ◌%◌, ◌≡◌, refl, Bool, true, false, Option, none, some, ◌++◌, arith, length,
}
use pebr_benchmark.Ord.{nat_ord}
use pebr_benchmark.World.{Run, ok, pure, quiet, ◌>>=◌}
use pebr_benchmark.Ebr.LinkedList.Heap
use pebr_benchmark.Ebr.LinkedList.Heap.{
  C, empty, read, write, load, compare_and_set, mark_next, deref, alloc, store_next, free,
  drop_value, defer_destroy,
}
use pebr_benchmark.Ebr.LinkedList.Find.{find_harris_michael}
use pebr_benchmark.Ebr.LinkedList.Map.{find, insert_loop, unlink}
use pebr_benchmark.Ebr.LinkedList.Map
use pebr_benchmark.Ebr.LinkedList.Variants.{
  harris_michael_get, harris_michael_insert, harris_michael_remove,
}
use pebr_benchmark.Ebr.HashMap.{push_buckets, with_capacity, get_bucket, get, insert, remove}
use pebr_benchmark.Ebr.HashMap.Buckets.{nulls, with_heads, with_capacity-get_bucket}

abbrev result : {H S A : Type 0} → Run H S A → Option A
result (Run.ok a w) = some a
result _ = none

smoke : C ℕ ℕ (Bool × Bool × Bool × Option ℕ × Option ℕ × Option ℕ × Option ℕ)
unfolding push_buckets with_capacity get_bucket get insert remove harris_michael_get
    harris_michael_insert harris_michael_remove find_harris_michael find Map.get insert_loop
    Map.insert unlink Map.remove Heap.new read write load compare_and_set mark_next deref alloc
    store_next free drop_value defer_destroy
smoke = do
  map ← with_capacity 3
  a ← insert (λ k. k) 2 9 map 1 10
  b ← insert (λ k. k) 2 9 map 4 40
  c ← insert (λ k. k) 2 9 map 4 44
  x ← get (λ k. k) 2 9 map 4
  y ← remove (λ k. k) 2 9 map 1
  z ← get (λ k. k) 2 9 map 1
  u ← get (λ k. k) 2 9 map 4
  pure (a, b, c, x, y, z, u)

result-smoke :
    result (smoke (quiet empty tt)) ≡ some (true, true, false, some 40, some 10, none, some 40)
unfolding smoke
result-smoke = refl

abbrev no_lists : Heap.Heap ℕ ℕ
no_lists = empty

with_capacity-get_bucket_example :
    (with_capacity {K = ℕ} {V = ℕ} 3 >>= λ map. get_bucket map 7) (quiet no_lists tt)
    ≡ ok
        (length no_lists.heads + 7 % 3)
        (quiet (with_heads no_lists (no_lists.heads ++ nulls 3)) tt)
with_capacity-get_bucket_example = with_capacity-get_bucket 3 7 no_lists (omega arith)
