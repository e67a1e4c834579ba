-- ===== src/Pebr/LinkedList/Variants.antt =====
-- pebr/list.rs, pebr/concurrent_map.rs: the lists that a benchmark chooses from.
use pebr_benchmark.Base.{ℕ, Bool, Option}
use pebr_benchmark.Ord.{Ord}
use pebr_benchmark.Shared.{Shared}
use pebr_benchmark.Pebr.ShieldPool.{ShieldApi}
use pebr_benchmark.Pebr.LinkedList.Heap.{new}
use pebr_benchmark.Pebr.LinkedList.Cursor.{Cursor, C, new_cursor, release}
use pebr_benchmark.Pebr.LinkedList.Find.{
  find_harris, find_harris_michael, find_harris_herlihy_shavit,
}
use pebr_benchmark.Pebr.LinkedList.Map.{get, insert, remove}

module _ (api : ShieldApi) {K V : Type 0} ⦃o : Ord K⦄ where
  unfoldable pub harris_get : (rounds depth : ℕ) → (list : Shared) → K → C api K V (Option V)
  harris_get rounds depth list key = get api (find_harris api) rounds depth list key

  unfoldable pub harris_insert : (rounds depth : ℕ) → (list : Shared) → K → V → C api K V Bool
  harris_insert rounds depth list key value =
      insert api (find_harris api) rounds depth list key value

  unfoldable pub harris_remove : (rounds depth : ℕ) → (list : Shared) → K → C api K V (Option V)
  harris_remove rounds depth list key = remove api (find_harris api) rounds depth list key

  unfoldable pub harris_michael_get :
      (rounds depth : ℕ) → (list : Shared) → K → C api K V (Option V)
  harris_michael_get rounds depth list key = get api (find_harris_michael api) rounds depth list key

  unfoldable pub harris_michael_insert :
      (rounds depth : ℕ) → (list : Shared) → K → V → C api K V Bool
  harris_michael_insert rounds depth list key value =
      insert api (find_harris_michael api) rounds depth list key value

  unfoldable pub harris_michael_remove :
      (rounds depth : ℕ) → (list : Shared) → K → C api K V (Option V)
  harris_michael_remove rounds depth list key =
      remove api (find_harris_michael api) rounds depth list key

  unfoldable pub harris_herlihy_shavit_get :
      (rounds depth : ℕ) → (list : Shared) → K → C api K V (Option V)
  harris_herlihy_shavit_get rounds depth list key =
      get api (find_harris_herlihy_shavit api) rounds depth list key

  unfoldable pub harris_herlihy_shavit_insert :
      (rounds depth : ℕ) → (list : Shared) → K → V → C api K V Bool
  harris_herlihy_shavit_insert rounds depth list key value =
      insert api (find_harris_michael api) rounds depth list key value

  unfoldable pub harris_herlihy_shavit_remove :
      (rounds depth : ℕ) → (list : Shared) → K → C api K V (Option V)
  harris_herlihy_shavit_remove rounds depth list key =
      remove api (find_harris_michael api) rounds depth list key

-- What a benchmark asks of a list (`ConcurrentMap`): `Handle` is the cursor.
pub record ConcurrentMap (api : ShieldApi) (K V : Type 0) : Type 0 where
  pub make : C api K V Shared
  pub new_handle : api.Guard → Cursor api.Shield
  pub clear : C api K V (Unit {0})
  pub lookup : (rounds depth : ℕ) → Shared → K → C api K V (Option V)
  pub add : (rounds depth : ℕ) → Shared → K → V → C api K V Bool
  pub delete : (rounds depth : ℕ) → Shared → K → C api K V (Option V)

module _ (api : ShieldApi) {K V : Type 0} ⦃o : Ord K⦄ where
  unfoldable pub h_list : ConcurrentMap api K V
  h_list = record {
    make = new;
    new_handle = new_cursor api;
    clear = release api;
    lookup = harris_get api;
    add = harris_insert api;
    delete = harris_remove api;
  }

  unfoldable pub hm_list : ConcurrentMap api K V
  hm_list = record {
    make = new;
    new_handle = new_cursor api;
    clear = release api;
    lookup = harris_michael_get api;
    add = harris_michael_insert api;
    delete = harris_michael_remove api;
  }

  unfoldable pub hhs_list : ConcurrentMap api K V
  hhs_list = record {
    make = new;
    new_handle = new_cursor api;
    clear = release api;
    lookup = harris_herlihy_shavit_get api;
    add = harris_herlihy_shavit_insert api;
    delete = harris_herlihy_shavit_remove api;
  }
