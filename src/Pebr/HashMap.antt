-- ===== src/Pebr/HashMap.antt =====
-- pebr/michael_hash_map.rs: a vector of lists, one for each remainder of a key's hash.
mod Tests
use pebr_benchmark.Base.{
  ℕ, zero, suc, ◌%◌, Bool, Option, none, some, List, [], ◌∷◌, ◌++◌, length, get_elem?, ◌==◌,
  if◌then◌else◌,
}
use pebr_benchmark.Ord.{Ord}
use pebr_benchmark.Shared.{Shared}
use pebr_benchmark.World.{Cmd, pure, crash, ◌>>=◌}
use pebr_benchmark.Pebr.ShieldPool.{ShieldApi}
use pebr_benchmark.Pebr.LinkedList.Heap.{Heap}
use pebr_benchmark.Pebr.LinkedList.Cursor.{C}
use pebr_benchmark.Pebr.LinkedList.Variants.{ConcurrentMap, hm_list}

-- `buckets` are the addresses of the lists.
pub record HashMap : Type 0 where
  pub buckets : List Shared

-- `ConcurrentMap::new`
abbrev pub default_capacity : ℕ
default_capacity = 30000

module _ {K V S : Type 0} where
  -- The remainder by 0 panics; `get_unchecked` out of bounds is undefined behaviour.
  unfoldable pub get_bucket : HashMap → ℕ → Cmd (Heap K V) S Shared
  get_bucket map index =
      if length map.buckets == 0
      then crash
      else elim (get_elem? map.buckets (index % length map.buckets)) [
        | none ↦ crash
        | some list ↦ pure list
      ]

module _ (api : ShieldApi) {K V : Type 0} ⦃o : Ord K⦄ where
  abbrev pub lists : ConcurrentMap api K V
  unfolding hm_list
  lists = hm_list api

  unfoldable pub push_buckets : ℕ → List Shared → C api K V (List Shared)
  push_buckets zero buckets = pure buckets
  push_buckets (suc n) buckets = do list ← lists.make; push_buckets n (buckets ++ list ∷ [])

  unfoldable pub with_capacity : ℕ → C api K V HashMap
  unfolding push_buckets
  with_capacity n = do buckets ← push_buckets n []; pure (record { buckets = buckets })

-- `hash` is the standard library's `DefaultHasher` on a key, as `usize`.
module _ (api : ShieldApi) {K V : Type 0} ⦃o : Ord K⦄ (hash : K → ℕ) where
  unfoldable pub get : (rounds depth : ℕ) → HashMap → K → C api K V (Option V)
  unfolding get_bucket
  get rounds depth map k = do list ← get_bucket map (hash k); (lists api).lookup rounds depth list k

  unfoldable pub insert : (rounds depth : ℕ) → HashMap → K → V → C api K V Bool
  unfolding get_bucket
  insert rounds depth map k v = do
    list ← get_bucket map (hash k)
    (lists api).add rounds depth list k v

  unfoldable pub remove : (rounds depth : ℕ) → HashMap → K → C api K V (Option V)
  unfolding get_bucket
  remove rounds depth map k = do
    list ← get_bucket map (hash k)
    (lists api).delete rounds depth list k
