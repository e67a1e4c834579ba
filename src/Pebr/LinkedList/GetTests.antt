-- ===== src/Pebr/LinkedList/GetTests.antt =====
-- The lookups of pebr/list.rs by a thread that is ejected before it starts.
use pebr_benchmark.Base.{
  ℕ, ◌≡◌, refl, Bool, true, false, none, List, [], ◌∷◌, some, ◌==◌, if◌then◌else◌, arith,
}
use pebr_benchmark.Ord.{nat_ord}
use pebr_benchmark.SortedMap.{lookup}
use pebr_benchmark.Shared.{Shared, shared, null}
use pebr_benchmark.World.{quiet}
use pebr_benchmark.World.Returns.{Returns}
use pebr_benchmark.Ebr.LinkedList.Chain.{Cell, live_entries}
use pebr_benchmark.Pebr.ShieldPool.Tests.{small_api}
use pebr_benchmark.Pebr.LinkedList.Heap.{list_head, list_node, Heap}
use pebr_benchmark.Pebr.LinkedList.Cursor.{Local}
use pebr_benchmark.Pebr.LinkedList.Variants.{harris_michael_get, harris_herlihy_shavit_get}
use pebr_benchmark.Pebr.LinkedList.Chain.{Leads}
use pebr_benchmark.Pebr.LinkedList.Get.{
  harris_michael_get-Returns, harris_herlihy_shavit_get-Returns,
}

abbrev Calm : Bool → Type 0
Calm gone = gone ≡ false

Calm-defend : (s p : Shared) (gone : Bool) → Calm gone → (small_api.defend_shield s p gone).1 ≡ true
Calm-defend s p true still = absurd (ground arith)
Calm-defend s p false still = refl

small-held :
    (s p : Shared) (gone : Bool)
    → (small_api.defend_shield s p gone).1 ≡ true
    → small_api.deref_shield (small_api.defend_shield s p gone).0 ≡ p
small-held s p true held = absurd (ground arith)
small-held s p false held = refl

abbrev thread : Local small_api.Shield small_api.Guard
thread = record { cursor = record { prev = null; curr = null }; guard = true }

-- A list at 1 of two nodes; the first is marked if `marked`.
abbrev two_cells : Bool → List (Cell ℕ ℕ)
two_cells marked =
    record { addr = 2; key = 3; value = 30; marked = marked }
    ∷ record { addr = 3; key = 5; value = 50; marked = false }
    ∷ []

abbrev two_nodes : Bool → Heap ℕ ℕ
two_nodes marked = record {
  cells = λ a.
      if a == 1
      then some (list_head (shared 2 0))
      else if a == 2
      then some
          (list_node (record { next = shared 3 (if marked then 1 else 0); key = 3; value = 30 }))
      else if a == 3
      then some (list_node (record { next = null; key = 5; value = 50 }))
      else none;
  fresh = 4;
  deferred = [];
  dropped = [];
}

two_nodes-Leads : (marked : Bool) → Leads (two_nodes marked) (shared 1 0) (two_cells marked)
two_nodes-Leads marked = record {
  from = refl;
  chain = (omega arith, refl, (omega arith, refl, tt));
  rising = ((refl, tt), (tt, tt));
}

harris_herlihy_shavit_get-Returns_example :
    Returns
      (λ answer h' l'. (answer ≡ lookup 5 (live_entries (two_cells true))) × (h' ≡ two_nodes true))
      (harris_herlihy_shavit_get small_api 2 3 (shared 1 0) 5 (quiet (two_nodes true) thread))
harris_herlihy_shavit_get-Returns_example =
    harris_herlihy_shavit_get-Returns small_api Calm (λ g still. still) Calm-defend (λ g. refl)
      small-held (λ s p. refl) 0 3 (shared 1 0) 5 (two_nodes true) (two_cells true)
      (two_nodes-Leads true) (omega arith) thread

harris_michael_get-Returns_example :
    Returns
      (λ answer h' l'.
        (answer ≡ lookup 5 (live_entries (two_cells false))) × (h' ≡ two_nodes false))
      (harris_michael_get small_api 2 3 (shared 1 0) 5 (quiet (two_nodes false) thread))
harris_michael_get-Returns_example =
    harris_michael_get-Returns small_api Calm (λ g still. still) Calm-defend (λ g. refl) small-held
      (λ s p. refl) 0 3 (shared 1 0) 5 (two_nodes false) (two_cells false) (two_nodes-Leads false)
      (omega arith) thread (refl, (refl, tt))
