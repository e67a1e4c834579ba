-- ===== src/Pebr/LinkedList/Map.antt =====
-- pebr/list.rs: the operations of a list, for any way to find a key's place. `rounds` bounds the
-- retries, `depth` is the fuel of a search. The wrappers retry, and repin an ejected thread.
use pebr_benchmark.Base.{
  ℕ, zero, suc, Bool, true, false, not, Option, none, some, ◌==◌, if◌then◌else◌,
}
use pebr_benchmark.Shared.{Shared, null, is_null}
use pebr_benchmark.World.{Cmd, pure, crash, stop, ◌>>=◌, ◌>>◌}
use pebr_benchmark.Pebr.ShieldPool.{ShieldApi}
use pebr_benchmark.Pebr.LinkedList.Heap.{
  list_node, Heap, load, compare_and_set, mark_next, deref, alloc, store_next, free, drop_value,
  defer_destroy,
}
use pebr_benchmark.Pebr.LinkedList.Cursor.{
  C, E, done, retry, ejected, on_outcome, init_find, prev_shared, curr_shared, repin,
}
use pebr_benchmark.Pebr.LinkedList.Find.{Finder}

module _ (api : ShieldApi) {K V : Type 0} (finder : Finder api K V) where
  unfoldable pub find : (rounds depth : ℕ) → (list : Shared) → K → C api K V Bool
  find zero depth list key = stop
  find (suc rounds) depth list key = do
    init_find api list
    result ← finder depth key
    on_outcome result pure (find rounds depth list key) (do repin api; find rounds depth list key)

  unfoldable pub get : (rounds depth : ℕ) → (list : Shared) → K → C api K V (Option V)
  unfolding find
  get rounds depth list key = do
    found ← find rounds depth list key
    if not found
        then pure none
        else do curr ← curr_shared api; node ← deref curr; pure (some node.value)

  -- The part of the loop after the search: true if the node is linked.
  unfoldable pub link : (node : Shared) → C api K V Bool
  link node = do
    curr ← curr_shared api
    store_next node curr
    prev ← prev_shared api
    compare_and_set prev curr node

  unfoldable pub insert_inner : (rounds depth : ℕ) → (list node : Shared) → E api K V Bool
  unfolding link
  insert_inner zero depth list node = stop
  insert_inner (suc rounds) depth list node = do
    init_find api list
    node_ref ← deref node
    result ← finder depth node_ref.key
    on_outcome result
        (λ found. if found then (do drop_value node; free node; pure (done false)) else do
          linked ← link node
          if linked then pure (done true) else insert_inner rounds depth list node)
        (pure retry) (pure ejected)

  unfoldable pub insert_loop : (rounds depth : ℕ) → (list node : Shared) → C api K V Bool
  unfolding insert_inner
  insert_loop zero depth list node = stop
  insert_loop (suc rounds) depth list node = do
    result ← insert_inner (suc rounds) depth list node
    on_outcome result pure (insert_loop rounds depth list node)
        (do repin api; insert_loop rounds depth list node)

  unfoldable pub insert : (rounds depth : ℕ) → (list : Shared) → K → V → C api K V Bool
  unfolding insert_loop
  insert rounds depth list key value = do
    node ← alloc (list_node (record { next = null; key = key; value = value }))
    insert_loop rounds depth list node

  -- The node is marked: whether or not it can be unlinked, it is removed.
  unfoldable pub unlink : (next : Shared) → C api K V (Unit {0})
  unlink next = do
    curr ← curr_shared api
    prev ← prev_shared api
    unlinked ← compare_and_set prev curr next
    if unlinked then defer_destroy curr else pure tt

  unfoldable pub remove_inner : (rounds depth : ℕ) → (list : Shared) → K → E api K V (Option V)
  unfolding unlink
  remove_inner zero depth list key = stop
  remove_inner (suc rounds) depth list key = do
    init_find api list
    result ← finder depth key
    on_outcome result
        (λ found. if not found then pure (done none) else do
          curr ← curr_shared api
          if is_null curr then crash else do
            next ← mark_next curr
            if next.tag == 1
                then remove_inner rounds depth list key
                else do curr_node ← deref curr; unlink next; pure (done (some curr_node.value)))
        (pure retry) (pure ejected)

  unfoldable pub remove : (rounds depth : ℕ) → (list : Shared) → K → C api K V (Option V)
  unfolding remove_inner
  remove zero depth list key = stop
  remove (suc rounds) depth list key = do
    result ← remove_inner (suc rounds) depth list key
    on_outcome result pure (remove rounds depth list key)
        (do repin api; remove rounds depth list key)

module _ {K V S : Type 0} where
  unfoldable pub drop_loop : ℕ → Shared → Cmd (Heap K V) S (Unit {0})
  drop_loop zero curr = stop
  drop_loop (suc fuel) curr = if is_null curr then pure tt else do
    next ← load curr
    (if next.tag == 0 then drop_value curr else pure tt)
    free curr
    drop_loop fuel next

  unfoldable pub drop : ℕ → (list : Shared) → Cmd (Heap K V) S (Unit {0})
  unfolding drop_loop
  drop fuel list = do curr ← load list; drop_loop fuel curr
