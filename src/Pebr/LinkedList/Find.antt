-- ===== src/Pebr/LinkedList/Find.antt =====
-- pebr/list.rs: the three ways to move a cursor to a key. Each takes fuel for the nodes it passes.
-- The code moves the cursor's two shields to variables and back on every way out; here they stay in
-- the cursor. That a loop's body is written to run twice a round makes no difference.
use pebr_benchmark.Base.{ℕ, zero, suc, Bool, true, false, not, ◌==◌, if◌then◌else◌}
use pebr_benchmark.Ord.{Ord, by_order}
use pebr_benchmark.Shared.{Shared, is_null, with_tag, ◌=ₚ◌}
use pebr_benchmark.World.{pure, crash, stop}
use pebr_benchmark.Pebr.ShieldPool.{ShieldApi}
use pebr_benchmark.Pebr.LinkedList.Heap.{load, compare_and_set, deref, defer_destroy}
use pebr_benchmark.Pebr.LinkedList.Cursor.{
  E, retry, give, lift, ◌>>=◌, ◌>>◌, fake_curr, defend_curr, swap, prev_shared,
}

abbrev pub Finder : ShieldApi → Type 0 → Type 0 → Type 0
Finder api K V = (fuel : ℕ) → K → E api K V Bool

module _ (api : ShieldApi) {K V : Type 0} where
  -- The second loop of `find_harris`: what was unlinked, from `node` to `curr` (exclusive).
  unfoldable pub defer_chain : ℕ → (node curr : Shared) → E api K V (Unit {0})
  defer_chain zero node curr = stop
  defer_chain (suc fuel) node curr =
      if with_tag node 0 =ₚ curr
      then give tt
      else do next ← lift (load node); lift (defer_destroy node); defer_chain fuel next curr

  -- `find_harris` after its first loop.
  unfoldable pub clean_up : ℕ → Bool → (prev_next curr : Shared) → E api K V Bool
  unfolding defer_chain
  clean_up fuel found prev_next curr = if prev_next =ₚ curr then give found else do
    prev ← lift (prev_shared api)
    unlinked ← lift (compare_and_set prev prev_next curr)
    if not unlinked then pure retry else do defer_chain fuel prev_next curr; give found

module _ (api : ShieldApi) {K V : Type 0} ⦃o : Ord K⦄ where
  -- The first loop of `find_harris`: what is found, `curr` and `prev_next`.
  unfoldable pub harris_walk :
      ℕ → K → (curr prev_next : Shared) → E api K V (Bool × Shared × Shared)
  harris_walk zero key curr prev_next = stop
  harris_walk (suc fuel) key curr prev_next =
      if is_null curr then (do lift (fake_curr api curr); give (false, curr, prev_next)) else do
        defend_curr api curr
        curr_node ← lift (deref curr)
        next ← lift (load curr)
        by_order (o.cmp curr_node.key key)
            (if next.tag == 0
              then (do lift (swap api); harris_walk fuel key (with_tag next 0) next)
              else harris_walk fuel key (with_tag next 0) prev_next)
            (if next.tag == 0
              then give (true, curr, prev_next)
              else harris_walk fuel key (with_tag next 0) prev_next)
            (if next.tag == 0
              then give (false, curr, prev_next)
              else harris_walk fuel key (with_tag next 0) prev_next)

  unfoldable pub find_harris : Finder api K V
  unfolding harris_walk clean_up
  find_harris fuel key = do
    head ← lift (prev_shared api)
    first ← lift (load head)
    (found, curr, prev_next) ← harris_walk fuel key first first
    clean_up api fuel found prev_next curr

  unfoldable pub harris_michael_loop : ℕ → K → (curr : Shared) → E api K V Bool
  harris_michael_loop zero key curr = stop
  harris_michael_loop (suc fuel) key curr =
      if not (curr.tag == 0)
      then crash
      else if is_null curr
      then (do lift (fake_curr api curr); give false)
      else do
        defend_curr api curr
        curr_node ← lift (deref curr)
        next ← lift (load curr)
        if next.tag == 0
            then by_order (o.cmp curr_node.key key)
                (do lift (swap api); harris_michael_loop fuel key next) (give true) (give false)
            else do
              prev ← lift (prev_shared api)
              unlinked ← lift (compare_and_set prev curr (with_tag next 0))
              if not unlinked
                  then pure retry
                  else do lift (defer_destroy curr); harris_michael_loop fuel key (with_tag next 0)

  unfoldable pub find_harris_michael : Finder api K V
  unfolding harris_michael_loop
  find_harris_michael fuel key = do
    head ← lift (prev_shared api)
    first ← lift (load head)
    harris_michael_loop fuel key first

  unfoldable pub herlihy_shavit_loop : ℕ → K → (curr : Shared) → E api K V Bool
  herlihy_shavit_loop zero key curr = stop
  herlihy_shavit_loop (suc fuel) key curr =
      if is_null curr then (do lift (fake_curr api curr); give false) else do
        defend_curr api curr
        curr_node ← lift (deref curr)
        by_order (o.cmp curr_node.key key)
            (do next ← lift (load curr); lift (swap api); herlihy_shavit_loop fuel key next)
            (do next ← lift (load curr); give (next.tag == 0)) (give false)

  unfoldable pub find_harris_herlihy_shavit : Finder api K V
  unfolding herlihy_shavit_loop
  find_harris_herlihy_shavit fuel key = do
    head ← lift (prev_shared api)
    first ← lift (load head)
    herlihy_shavit_loop fuel key first
