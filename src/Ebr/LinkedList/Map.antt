-- ===== src/Ebr/LinkedList/Map.antt =====
-- ebr/list.rs: the operations of a list, for any way to find a key's place. `rounds` bounds the
-- retries, `depth` is the fuel of a search.
use pebr_benchmark.Base.{
  ℕ, zero, suc, Bool, true, false, not, Option, none, some, ◌==◌, if◌then◌else◌,
}
use pebr_benchmark.Shared.{Shared, null, is_null}
use pebr_benchmark.World.{pure, crash, stop, ◌>>=◌, ◌>>◌}
use pebr_benchmark.Ebr.LinkedList.Heap.{
  C, head, next_of, Cursor, load, compare_and_set, mark_next, deref, alloc, store_next, free,
  drop_value, defer_destroy,
}
use pebr_benchmark.Ebr.LinkedList.Find.{Finder, cursor_at}

module _ {K V : Type 0} where
  -- The loop of `find` is here its recursion.
  unfoldable pub find : Finder K V → (rounds depth list : ℕ) → K → C K V (Bool × Cursor)
  find finder zero depth list key = stop
  find finder (suc rounds) depth list key = do
    curr ← load (head list)
    (result, cursor) ← finder depth key (cursor_at (head list) curr)
    elim result [ none ↦ find finder rounds depth list key | some r ↦ pure (r, cursor) ]

  unfoldable pub get : Finder K V → (rounds depth list : ℕ) → K → C K V (Option V)
  unfolding find
  get finder rounds depth list key = do
    (found, cursor) ← find finder rounds depth list key
    if not found
        then pure none
        else if is_null cursor.curr
        then pure none
        else do node ← deref cursor.curr; pure (some node.value)

  unfoldable pub insert_loop : Finder K V → (rounds depth list : ℕ) → Shared → C K V Bool
  unfolding find
  insert_loop finder zero depth list node = stop
  insert_loop finder (suc rounds) depth list node = do
    node_ref ← deref node
    (found, cursor) ← find finder (suc rounds) depth list node_ref.key
    if found then (do drop_value node; free node; pure false) else do
      store_next node cursor.curr
      linked ← compare_and_set cursor.prev cursor.curr node
      if linked then pure true else insert_loop finder rounds depth list node

  unfoldable pub insert : Finder K V → (rounds depth list : ℕ) → K → V → C K V Bool
  unfolding insert_loop
  insert finder rounds depth list key value = do
    node ← alloc (record { next = null; key = key; value = value })
    insert_loop finder rounds depth list node

  -- The branch of `remove` in which the node is marked: whether or not it can be unlinked.
  unfoldable pub unlink : Cursor → Shared → C K V (Unit {0})
  unlink cursor next = do
    unlinked ← compare_and_set cursor.prev cursor.curr next
    if unlinked then defer_destroy cursor.curr else pure tt

  unfoldable pub remove : Finder K V → (rounds depth list : ℕ) → K → C K V (Option V)
  unfolding find unlink
  remove finder zero depth list key = stop
  remove finder (suc rounds) depth list key = do
    (found, cursor) ← find finder (suc rounds) depth list key
    if not found then pure none else if is_null cursor.curr then crash else do
      curr_node ← deref cursor.curr
      next ← mark_next cursor.curr
      if next.tag == 1
          then remove finder rounds depth list key
          else do unlink cursor next; pure (some curr_node.value)

  unfoldable pub drop_loop : ℕ → Shared → C K V (Unit {0})
  drop_loop zero curr = stop
  drop_loop (suc fuel) curr = if is_null curr then pure tt else do
    next ← load (next_of curr.addr)
    (if next.tag == 0 then drop_value curr else pure tt)
    free curr
    drop_loop fuel next

  unfoldable pub drop : (fuel list : ℕ) → C K V (Unit {0})
  unfolding drop_loop
  drop fuel list = do curr ← load (head list); drop_loop fuel curr
