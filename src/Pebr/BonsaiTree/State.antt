-- ===== src/Pebr/BonsaiTree/State.antt =====
-- pebr/bonsai_tree.rs: an operation's handle, and what it does with its private lists.
use pebr_benchmark.Base.{◌+◌, List, [], ◌∷◌, ◌++◌, if◌then◌else◌}
use pebr_benchmark.Shared.{Shared}
use pebr_benchmark.World.{Cmd, pure, ◌>>=◌, ◌>>◌, ◌or_else◌, modify_own}
use pebr_benchmark.Pebr.ShieldPool.{ShieldApi, ShieldPool, new_pool}
use pebr_benchmark.Pebr.BonsaiTree.Node.{
  Heap, alloc, free, store_left, store_right, defer_destroy, retired_node, is_retired_spot,
  node_size,
}

pub record State (Shield : Type 0) : Type 0 where
  pub root_shield : Shield
  pub shields : ShieldPool Shield
  pub retired_nodes : List Shared
  pub new_nodes : List Shared

-- What a thread passes to an operation: its handle and its guard.
pub record Local (Shield Guard : Type 0) : Type 0 where
  pub state : State Shield
  pub guard : Guard

abbrev pub C : ShieldApi → Type 0 → Type 0 → Type 0 → Type 0
C api K V A = Cmd (Heap K V) (Local api.Shield api.Guard) A

module _ (api : ShieldApi) where
  open api use {Shield, Guard, release_shield, null_shield}

  -- `State::new`
  unfoldable pub new_state : Guard → State Shield
  new_state guard = record {
    root_shield = null_shield guard;
    shields = new_pool;
    retired_nodes = [];
    new_nodes = [];
  }

  -- The root's shield is released, and both vectors are emptied.
  unfoldable pub reset : State Shield → State Shield
  reset s = record s {
    root_shield = release_shield s.root_shield;
    retired_nodes = [];
    new_nodes = [];
  }

  module _ {K V : Type 0} where
    unfoldable pub modify_state : (State Shield → State Shield) → C api K V (Unit {0})
    modify_state f = modify_own λ l. record l { state = f l.state }

    -- The drain of `new_nodes` in `abort`.
    unfoldable pub free_all : List Shared → C api K V (Unit {0})
    free_all [] = pure tt
    free_all (p ∷ ps) = do free p; free_all ps

    unfoldable pub abort : C api K V (Unit {0})
    unfolding free_all reset modify_state
    abort w = (do modify_state reset; free_all w.own.state.new_nodes) w

    unfoldable pub retire_all : List Shared → C api K V (Unit {0})
    retire_all [] = pure tt
    retire_all (p ∷ ps) = do
      store_left p retired_node
      store_right p retired_node
      defer_destroy p
      retire_all ps

    unfoldable pub commit : C api K V (Unit {0})
    unfolding retire_all reset modify_state
    commit w = (do modify_state reset; retire_all w.own.state.retired_nodes) w

    unfoldable pub retire_node : Shared → C api K V (Unit {0})
    unfolding modify_state
    retire_node p = modify_state λ s. record s { retired_nodes = s.retired_nodes ++ p ∷ [] }

    unfoldable pub add_new_node : Shared → C api K V (Unit {0})
    unfolding modify_state
    add_new_node p = modify_state λ s. record s { new_nodes = s.new_nodes ++ p ∷ [] }

    unfoldable pub mk_node : Shared → Shared → K → V → C api K V Shared
    unfolding add_new_node
    mk_node left right key value = do
      spot ← is_retired_spot left or_else is_retired_spot right
      if spot then pure retired_node else do
        left_size ← node_size left
        right_size ← node_size right
        new_node ← alloc (record {
          key = key;
          value = value;
          size = left_size + right_size + 1;
          left = left;
          right = right;
        })
        add_new_node new_node
        pure new_node
