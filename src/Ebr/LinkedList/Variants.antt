-- ===== src/Ebr/LinkedList/Variants.antt =====
-- ebr/list.rs: the lists that a benchmark chooses from.
use pebr_benchmark.Base.{ℕ, Bool, Option}
use pebr_benchmark.Ord.{Ord}
use pebr_benchmark.Ebr.LinkedList.Heap.{C, new}
use pebr_benchmark.Ebr.LinkedList.Find.{
  find_harris, find_harris_michael, find_harris_herlihy_shavit,
}
use pebr_benchmark.Ebr.LinkedList.Map.{get, insert, remove}

module _ {K V : Type 0} ⦃o : Ord K⦄ where
  unfoldable pub harris_get : (rounds depth list : ℕ) → K → C K V (Option V)
  harris_get rounds depth list key = get find_harris rounds depth list key

  unfoldable pub harris_insert : (rounds depth list : ℕ) → K → V → C K V Bool
  harris_insert rounds depth list key value = insert find_harris rounds depth list key value

  unfoldable pub harris_remove : (rounds depth list : ℕ) → K → C K V (Option V)
  harris_remove rounds depth list key = remove find_harris rounds depth list key

  unfoldable pub harris_michael_get : (rounds depth list : ℕ) → K → C K V (Option V)
  harris_michael_get rounds depth list key = get find_harris_michael rounds depth list key

  unfoldable pub harris_michael_insert : (rounds depth list : ℕ) → K → V → C K V Bool
  harris_michael_insert rounds depth list key value =
      insert find_harris_michael rounds depth list key value

  unfoldable pub harris_michael_remove : (rounds depth list : ℕ) → K → C K V (Option V)
  harris_michael_remove rounds depth list key = remove find_harris_michael rounds depth list key

  unfoldable pub harris_herlihy_shavit_get : (rounds depth list : ℕ) → K → C K V (Option V)
  harris_herlihy_shavit_get rounds depth list key =
      get find_harris_herlihy_shavit rounds depth list key

  unfoldable pub harris_herlihy_shavit_insert : (rounds depth list : ℕ) → K → V → C K V Bool
  harris_herlihy_shavit_insert rounds depth list key value =
      insert find_harris_michael rounds depth list key value

  unfoldable pub harris_herlihy_shavit_remove : (rounds depth list : ℕ) → K → C K V (Option V)
  harris_herlihy_shavit_remove rounds depth list key =
      remove find_harris_michael rounds depth list key

-- What a benchmark asks of a list (`ConcurrentMap`): a new one, and its operations.
pub record ConcurrentMap (K V : Type 0) : Type 0 where
  pub make : C K V ℕ
  pub lookup : (rounds depth list : ℕ) → K → C K V (Option V)
  pub add : (rounds depth list : ℕ) → K → V → C K V Bool
  pub delete : (rounds depth list : ℕ) → K → C K V (Option V)

module _ {K V : Type 0} ⦃o : Ord K⦄ where
  unfoldable pub h_list : ConcurrentMap K V
  h_list = record { make = new; lookup = harris_get; add = harris_insert; delete = harris_remove }

  unfoldable pub hm_list : ConcurrentMap K V
  hm_list = record {
    make = new;
    lookup = harris_michael_get;
    add = harris_michael_insert;
    delete = harris_michael_remove;
  }

  unfoldable pub hhs_list : ConcurrentMap K V
  hhs_list = record {
    make = new;
    lookup = harris_herlihy_shavit_get;
    add = harris_herlihy_shavit_insert;
    delete = harris_herlihy_shavit_remove;
  }
