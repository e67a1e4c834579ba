-- ===== src/Ebr/HashMap.antt =====
-- ebr/michael_hash_map.rs: a vector of lists, one for each remainder of a key's hash.
pub mod Buckets
pub mod Disjoint
pub mod Table
pub mod Dictionary
pub mod Empty
mod DictionaryTests
mod Tests
use pebr_benchmark.Base.{
  ℕ, zero, suc, ◌%◌, Bool, Option, none, some, List, [], ◌∷◌, ◌++◌, length, get_elem?, ◌==◌,
  if◌then◌else◌,
}
use pebr_benchmark.Ord.{Ord}
use pebr_benchmark.World.{pure, crash, ◌>>=◌}
use pebr_benchmark.Ebr.LinkedList.Heap.{C}
use pebr_benchmark.Ebr.LinkedList.Heap
use pebr_benchmark.Ebr.LinkedList.Variants.{
  harris_michael_get, harris_michael_insert, harris_michael_remove,
}

-- `buckets` are the indices of the lists' heads.
pub record HashMap : Type 0 where
  pub buckets : List ℕ

-- `ConcurrentMap::new`
abbrev pub default_capacity : ℕ
default_capacity = 30000

module _ {K V : Type 0} where
  unfoldable pub push_buckets : ℕ → List ℕ → C K V (List ℕ)
  push_buckets zero buckets = pure buckets
  push_buckets (suc n) buckets = do list ← Heap.new; push_buckets n (buckets ++ list ∷ [])

  unfoldable pub with_capacity : ℕ → C K V HashMap
  unfolding push_buckets
  with_capacity n = do buckets ← push_buckets n []; pure (record { buckets = buckets })

  -- The remainder by 0 panics; `get_unchecked` out of bounds is undefined behaviour.
  unfoldable pub get_bucket : HashMap → ℕ → C K V ℕ
  get_bucket map index =
      if length map.buckets == 0
      then crash
      else elim (get_elem? map.buckets (index % length map.buckets)) [
        | none ↦ crash
        | some list ↦ pure list
      ]

-- `hash` is the standard library's `DefaultHasher` on a key, as `usize`.
module _ {K V : Type 0} ⦃o : Ord K⦄ (hash : K → ℕ) where
  unfoldable pub get : (rounds depth : ℕ) → HashMap → K → C K V (Option V)
  unfolding get_bucket
  get rounds depth map k = do list ← get_bucket map (hash k); harris_michael_get rounds depth list k

  unfoldable pub insert : (rounds depth : ℕ) → HashMap → K → V → C K V Bool
  unfolding get_bucket
  insert rounds depth map k v = do
    list ← get_bucket map (hash k)
    harris_michael_insert rounds depth list k v

  unfoldable pub remove : (rounds depth : ℕ) → HashMap → K → C K V (Option V)
  unfolding get_bucket
  remove rounds depth map k = do
    list ← get_bucket map (hash k)
    harris_michael_remove rounds depth list k
