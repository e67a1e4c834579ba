-- ===== src/Ebr/BonsaiTree/State.antt =====
-- ebr/bonsai_tree.rs: what an operation does with its private lists.
use pebr_benchmark.Base.{◌+◌, List, [], ◌∷◌, ◌++◌, if◌then◌else◌}
use pebr_benchmark.Shared.{Shared}
use pebr_benchmark.World.{pure, ◌>>=◌, ◌>>◌, ◌or_else◌, modify_own}
use pebr_benchmark.Ebr.BonsaiTree.Node.{
  C, State, alloc, free, store_left, store_right, defer_destroy, retired_node, is_retired_spot,
  node_size,
}

-- `State::new`
abbrev pub new_state : State
new_state = record { retired_nodes = []; new_nodes = [] }

module _ {K V : Type 0} where
  -- The drain of `new_nodes` in `abort`.
  unfoldable pub free_all : List Shared → C K V (Unit {0})
  free_all [] = pure tt
  free_all (p ∷ ps) = do free p; free_all ps

  -- The vector is read off, emptied, and its nodes freed.
  unfoldable pub abort : C K V (Unit {0})
  unfolding free_all
  abort w = (do modify_own λ _. new_state; free_all w.own.new_nodes) w

  unfoldable pub retire_all : List Shared → C K V (Unit {0})
  retire_all [] = pure tt
  retire_all (p ∷ ps) = do
    store_left p retired_node
    store_right p retired_node
    defer_destroy p
    retire_all ps

  unfoldable pub commit : C K V (Unit {0})
  unfolding retire_all
  commit w = (do modify_own λ _. new_state; retire_all w.own.retired_nodes) w

  -- `push` adds at the end of a vector.
  unfoldable pub retire_node : Shared → C K V (Unit {0})
  retire_node p = modify_own λ s. record s { retired_nodes = s.retired_nodes ++ p ∷ [] }

  unfoldable pub add_new_node : Shared → C K V (Unit {0})
  add_new_node p = modify_own λ s. record s { new_nodes = s.new_nodes ++ p ∷ [] }

  unfoldable pub mk_node : Shared → Shared → K → V → C K V Shared
  mk_node left right key value = do
    spot ← is_retired_spot left or_else is_retired_spot right
    if spot then pure retired_node else do
      left_size ← node_size left
      right_size ← node_size right
      new_node ← alloc (record {
        key = key;
        value = value;
        size = left_size + right_size + 1;
        left = left;
        right = right;
      })
      add_new_node new_node
      pure new_node
