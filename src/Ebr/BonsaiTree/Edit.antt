-- ===== src/Ebr/BonsaiTree/Edit.antt =====
-- ebr/bonsai_tree.rs: the recursive rebuilding of a path. Each call takes fuel for its depth.
use Prim.Native.Nat.Ordering.{lt, eq, gt}
use pebr_benchmark.Base.{ℕ, zero, suc, Bool, true, false, Option, none, some, ◌==◌, if◌then◌else◌}
use pebr_benchmark.Ord.{Ord}
use pebr_benchmark.Shared.{Shared, null, is_null}
use pebr_benchmark.World.{pure, stop, ◌>>=◌, ◌>>◌, ◌or_else◌}
use pebr_benchmark.Ebr.BonsaiTree.Node.{
  Node, C, deref, load_left, load_right, retired_node, is_retired_spot,
}
use pebr_benchmark.Ebr.BonsaiTree.State.{retire_node, mk_node}
use pebr_benchmark.Ebr.BonsaiTree.Balance.{mk_balanced}

module _ {K V : Type 0} where
  unfoldable pub pull_leftmost : ℕ → Shared → C K V (Shared × Shared)
  pull_leftmost zero node = stop
  pull_leftmost (suc fuel) node = do
    spot ← is_retired_spot node
    if spot then pure (retired_node, retired_node) else do
      node_ref ← deref node
      left ← load_left node
      right ← load_right node
      spot ← is_retired_spot left or_else is_retired_spot right
      if spot
          then pure (retired_node, retired_node)
          else if is_null left
          then (do
            succ ← mk_node null null node_ref.key node_ref.value
            retire_node node
            pure (right, succ))
          else do
            (new_left, succ) ← pull_leftmost fuel left
            new_node ← mk_balanced node new_left right
            pure (new_node, succ)

  unfoldable pub pull_rightmost : ℕ → Shared → C K V (Shared × Shared)
  pull_rightmost zero node = stop
  pull_rightmost (suc fuel) node = do
    spot ← is_retired_spot node
    if spot then pure (retired_node, retired_node) else do
      node_ref ← deref node
      left ← load_left node
      right ← load_right node
      spot ← is_retired_spot left or_else is_retired_spot right
      if spot
          then pure (retired_node, retired_node)
          else if is_null right
          then (do
            succ ← mk_node null null node_ref.key node_ref.value
            retire_node node
            pure (left, succ))
          else do
            (new_right, succ) ← pull_rightmost fuel right
            new_node ← mk_balanced node left new_right
            pure (new_node, succ)

  -- The branch `Equal` of `do_remove`.
  unfoldable pub remove_found : ℕ → Shared → Node K V → Shared → Shared → C K V (Shared × Option V)
  unfolding pull_leftmost pull_rightmost
  remove_found fuel node node_ref left right = do
    retire_node node
    if node_ref.size == 1
        then pure (null, some node_ref.value)
        else if is_null left
        then (do
          (new_right, succ) ← pull_leftmost fuel right
          new_node ← mk_balanced succ left new_right
          pure (new_node, some node_ref.value))
        else do
          (new_left, succ) ← pull_rightmost fuel left
          new_node ← mk_balanced succ new_left right
          pure (new_node, some node_ref.value)

module _ {K V : Type 0} ⦃o : Ord K⦄ where
  unfoldable pub do_insert : ℕ → Shared → K → V → C K V (Shared × Bool)
  do_insert zero node key value = stop
  do_insert (suc fuel) node key value = do
    spot ← is_retired_spot node
    if spot
        then pure (retired_node, false)
        else if is_null node
        then (do new_node ← mk_node null null key value; pure (new_node, true))
        else do
          node_ref ← deref node
          left ← load_left node
          right ← load_right node
          spot ← is_retired_spot left or_else is_retired_spot right
          if spot then pure (retired_node, false) else elim (o.cmp node_ref.key key) [
            | eq ↦ pure (node, false)
            | lt ↦ do
              (new_right, inserted) ← do_insert fuel right key value
              new_node ← mk_balanced node left new_right
              pure (new_node, inserted)
            | gt ↦ do
              (new_left, inserted) ← do_insert fuel left key value
              new_node ← mk_balanced node new_left right
              pure (new_node, inserted)
          ]

  unfoldable pub do_remove : ℕ → Shared → K → C K V (Shared × Option V)
  unfolding remove_found
  do_remove zero node key = stop
  do_remove (suc fuel) node key = do
    spot ← is_retired_spot node
    if spot then pure (retired_node, none) else if is_null node then pure (null, none) else do
      node_ref ← deref node
      left ← load_left node
      right ← load_right node
      spot ← is_retired_spot left or_else is_retired_spot right
      if spot then pure (retired_node, none) else elim (o.cmp node_ref.key key) [
        | eq ↦ remove_found fuel node node_ref left right
        | lt ↦ do
          (new_right, value) ← do_remove fuel right key
          new_node ← mk_balanced node left new_right
          pure (new_node, value)
        | gt ↦ do
          (new_left, value) ← do_remove fuel left key
          new_node ← mk_balanced node new_left right
          pure (new_node, value)
      ]
