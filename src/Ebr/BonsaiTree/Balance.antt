-- ===== src/Ebr/BonsaiTree/Balance.antt =====
-- ebr/bonsai_tree.rs: `mk_balanced` and the rotations.
use pebr_benchmark.Base.{ℕ, ◌*◌, Bool, ◌&&◌, ◌||◌, ltb, ◌==◌, if◌then◌else◌}
use pebr_benchmark.Shared.{Shared}
use pebr_benchmark.World.{pure, ◌>>=◌, ◌>>◌, ◌or_else◌}
use pebr_benchmark.Ebr.BonsaiTree.Node.{
  C, deref, load_left, load_right, retired_node, is_retired_spot, node_size,
}
use pebr_benchmark.Ebr.BonsaiTree.State.{retire_node, mk_node}

abbrev pub weight : ℕ
weight = 2

-- The test of both branches of `mk_balanced`: `heavy` outweighs `light`.
abbrev pub outweighs : ℕ → ℕ → Bool
outweighs heavy light =
    ltb 0 heavy && ((ltb 0 light && ltb (weight * light) heavy) || (light == 0 && ltb weight heavy))

module _ {K V : Type 0} where
  unfoldable pub single_left : (left right right_left right_right : Shared) → K → V → C K V Shared
  single_left left right right_left right_right key value = do
    right_ref ← deref right
    new_left ← mk_node left right_left key value
    res ← mk_node new_left right_right right_ref.key right_ref.value
    retire_node right
    pure res

  unfoldable pub double_left : (left right right_left right_right : Shared) → K → V → C K V Shared
  double_left left right right_left right_right key value = do
    right_ref ← deref right
    right_left_ref ← deref right_left
    right_left_left ← load_left right_left
    right_left_right ← load_right right_left
    spot ← is_retired_spot right_left_left or_else is_retired_spot right_left_right
    if spot then pure retired_node else do
      new_left ← mk_node left right_left_left key value
      new_right ← mk_node right_left_right right_right right_ref.key right_ref.value
      res ← mk_node new_left new_right right_left_ref.key right_left_ref.value
      retire_node right_left
      retire_node right
      pure res

  unfoldable pub mk_balanced_left : (left right : Shared) → K → V → C K V Shared
  mk_balanced_left left right key value = do
    right_left ← load_left right
    right_right ← load_right right
    spot ← is_retired_spot right_left or_else is_retired_spot right_right
    if spot then pure retired_node else do
      left_size ← node_size right_left
      right_size ← node_size right_right
      if ltb left_size right_size
          then single_left left right right_left right_right key value
          else double_left left right right_left right_right key value

  unfoldable pub single_right : (left right left_right left_left : Shared) → K → V → C K V Shared
  single_right left right left_right left_left key value = do
    left_ref ← deref left
    new_right ← mk_node left_right right key value
    res ← mk_node left_left new_right left_ref.key left_ref.value
    retire_node left
    pure res

  unfoldable pub double_right : (left right left_right left_left : Shared) → K → V → C K V Shared
  double_right left right left_right left_left key value = do
    left_ref ← deref left
    left_right_ref ← deref left_right
    left_right_left ← load_left left_right
    left_right_right ← load_right left_right
    spot ← is_retired_spot left_right_left or_else is_retired_spot left_right_right
    if spot then pure retired_node else do
      new_left ← mk_node left_left left_right_left left_ref.key left_ref.value
      new_right ← mk_node left_right_right right key value
      res ← mk_node new_left new_right left_right_ref.key left_right_ref.value
      retire_node left_right
      retire_node left
      pure res

  unfoldable pub mk_balanced_right : (left right : Shared) → K → V → C K V Shared
  mk_balanced_right left right key value = do
    left_right ← load_right left
    left_left ← load_left left
    spot ← is_retired_spot left_right or_else is_retired_spot left_left
    if spot then pure retired_node else do
      right_size ← node_size left_right
      left_size ← node_size left_left
      if ltb right_size left_size
          then single_right left right left_right left_left key value
          else double_right left right left_right left_left key value

  unfoldable pub mk_balanced : (cur left right : Shared) → C K V Shared
  mk_balanced cur left right = do
    spot ← is_retired_spot cur or_else (is_retired_spot left or_else is_retired_spot right)
    if spot then pure retired_node else do
      cur_ref ← deref cur
      l_size ← node_size left
      r_size ← node_size right
      res ←
          (if outweighs r_size l_size
            then mk_balanced_left left right cur_ref.key cur_ref.value
            else if outweighs l_size r_size
            then mk_balanced_right left right cur_ref.key cur_ref.value
            else mk_node left right cur_ref.key cur_ref.value)
      retire_node cur
      pure res
