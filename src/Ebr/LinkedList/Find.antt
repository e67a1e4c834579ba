-- ===== src/Ebr/LinkedList/Find.antt =====
-- ebr/list.rs: the three ways to move a cursor to a key. Each takes fuel for the nodes it passes;
-- `none` is the `Err(())` after which the caller starts again.
use Prim.Native.Nat.Ordering.{lt, eq, gt}
use pebr_benchmark.Base.{
  ℕ, zero, suc, Bool, true, false, not, Option, none, some, ◌==◌, if◌then◌else◌,
}
use pebr_benchmark.Ord.{Ord}
use pebr_benchmark.Shared.{Shared, is_null, with_tag, ◌=ₚ◌}
use pebr_benchmark.World.{pure, crash, stop, ◌>>=◌, ◌>>◌}
use pebr_benchmark.Ebr.LinkedList.Heap.{
  C, Place, next_of, Cursor, load, compare_and_set, deref, defer_destroy,
}

abbrev pub Finder : Type 0 → Type 0 → Type 0
Finder K V = (fuel : ℕ) → K → Cursor → C K V (Option Bool × Cursor)

abbrev pub cursor_at : Place → Shared → Cursor
cursor_at prev curr = record { prev = prev; curr = curr }

module _ {K V : Type 0} where
  -- The second loop of `find_harris`: what was unlinked, from `node` to `curr` (exclusive).
  unfoldable pub defer_chain : ℕ → (node curr : Shared) → C K V (Unit {0})
  defer_chain zero node curr = stop
  defer_chain (suc fuel) node curr =
      if with_tag node 0 =ₚ curr
      then pure tt
      else do next ← load (next_of node.addr); defer_destroy node; defer_chain fuel next curr

  -- `find_harris` after its first loop.
  unfoldable pub clean_up : ℕ → Bool → Shared → Cursor → C K V (Option Bool × Cursor)
  unfolding defer_chain
  clean_up fuel found prev_next cursor =
      if prev_next =ₚ cursor.curr then pure (some found, cursor) else do
        unlinked ← compare_and_set cursor.prev prev_next cursor.curr
        if not unlinked
            then pure (none, cursor)
            else do defer_chain fuel prev_next cursor.curr; pure (some found, cursor)

module _ {K V : Type 0} ⦃o : Ord K⦄ where
  -- The first loop of `find_harris`.
  unfoldable pub harris_walk : ℕ → K → Cursor → Shared → C K V (Bool × Cursor × Shared)
  harris_walk zero key cursor prev_next = stop
  harris_walk (suc fuel) key cursor prev_next =
      if is_null cursor.curr then pure (false, cursor, prev_next) else do
        curr_node ← deref cursor.curr
        next ← load (next_of cursor.curr.addr)
        let skipped = cursor_at cursor.prev (with_tag next 0)
        elim (o.cmp curr_node.key key) [
          | lt ↦
              if next.tag == 0
              then harris_walk fuel key (cursor_at (next_of cursor.curr.addr) (with_tag next 0))
                  next
              else harris_walk fuel key skipped prev_next
          | eq ↦
              if next.tag == 0
              then pure (true, cursor, prev_next)
              else harris_walk fuel key skipped prev_next
          | gt ↦
              if next.tag == 0
              then pure (false, cursor, prev_next)
              else harris_walk fuel key skipped prev_next
        ]

  unfoldable pub find_harris : Finder K V
  unfolding harris_walk clean_up
  find_harris fuel key cursor = do
    (found, moved, prev_next) ← harris_walk fuel key cursor cursor.curr
    clean_up fuel found prev_next moved

  unfoldable pub find_harris_michael : Finder K V
  find_harris_michael zero key cursor = stop
  find_harris_michael (suc fuel) key cursor =
      if not (cursor.curr.tag == 0)
      then crash
      else if is_null cursor.curr
      then pure (some false, cursor)
      else do
        curr_node ← deref cursor.curr
        next ← load (next_of cursor.curr.addr)
        if next.tag == 0
            then elim (o.cmp curr_node.key key) [
              | lt ↦ find_harris_michael fuel key (cursor_at (next_of cursor.curr.addr) next)
              | eq ↦ pure (some true, cursor)
              | gt ↦ pure (some false, cursor)
            ]
            else do
              unlinked ← compare_and_set cursor.prev cursor.curr (with_tag next 0)
              if not unlinked then pure (none, cursor) else do
                defer_destroy cursor.curr
                find_harris_michael fuel key (cursor_at cursor.prev (with_tag next 0))

  unfoldable pub find_harris_herlihy_shavit : Finder K V
  find_harris_herlihy_shavit zero key cursor = stop
  find_harris_herlihy_shavit (suc fuel) key cursor =
      if is_null cursor.curr then pure (some false, cursor) else do
        curr_node ← deref cursor.curr
        elim (o.cmp curr_node.key key) [
          | lt ↦ do
            next ← load (next_of cursor.curr.addr)
            find_harris_herlihy_shavit fuel key (cursor_at (next_of cursor.curr.addr) next)
          | eq ↦ do next ← load (next_of cursor.curr.addr); pure (some (next.tag == 0), cursor)
          | gt ↦ pure (some false, cursor)
        ]
