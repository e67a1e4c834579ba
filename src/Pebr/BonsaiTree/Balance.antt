-- ===== src/Pebr/BonsaiTree/Balance.antt =====
-- pebr/bonsai_tree.rs: `mk_balanced` and the rotations, under shields for the nodes they read.
use pebr_benchmark.Base.{ℕ, ◌*◌, Bool, ◌&&◌, ◌||◌, ltb, ◌==◌, if◌then◌else◌}
use pebr_benchmark.Shared.{Shared}
use pebr_benchmark.World.{◌or_else◌}
use pebr_benchmark.Pebr.ShieldPool.{ShieldApi}
use pebr_benchmark.Pebr.BonsaiTree.Node.{
  deref, load_left, load_right, retired_node, is_retired_spot, node_size,
}
use pebr_benchmark.Pebr.BonsaiTree.State.{retire_node, mk_node}
use pebr_benchmark.Pebr.BonsaiTree.Shields.{E, give, lift, ◌>>=◌, ◌>>◌, ◌afterwards◌, shielded}

abbrev pub weight : ℕ
weight = 2

-- The test of both branches of `mk_balanced`: `heavy` outweighs `light`.
abbrev pub outweighs : ℕ → ℕ → Bool
outweighs heavy light =
    ltb 0 heavy && ((ltb 0 light && ltb (weight * light) heavy) || (light == 0 && ltb weight heavy))

module _ (api : ShieldApi) {K V : Type 0} where
  unfoldable pub single_left :
      (left right right_left right_right : Shared) → K → V → E api K V Shared
  single_left left right right_left right_right key value = do
    right_ref ← lift (deref right)
    new_left ← lift (mk_node api left right_left key value)
    res ← lift (mk_node api new_left right_right right_ref.key right_ref.value)
    lift (retire_node api right)
    give res

  unfoldable pub double_left :
      (left right right_left right_right : Shared) → K → V → E api K V Shared
  double_left left right right_left right_right key value = do
    right_ref ← lift (deref right)
    right_left_ref ← lift (deref right_left)
    right_left_left ← lift (load_left right_left)
    right_left_right ← lift (load_right right_left)
    shielded api right_left_left (
        shielded api right_left_right (do
          spot ← lift (is_retired_spot right_left_left or_else is_retired_spot right_left_right)
          if spot then give retired_node else do
            new_left ← lift (mk_node api left right_left_left key value)
            new_right ←
                lift (mk_node api right_left_right right_right right_ref.key right_ref.value)
            res ← lift (mk_node api new_left new_right right_left_ref.key right_left_ref.value)
            lift (retire_node api right_left)
            lift (retire_node api right)
            give res))

  unfoldable pub mk_balanced_left : (left right : Shared) → K → V → E api K V Shared
  mk_balanced_left left right key value = do
    right_left ← lift (load_left right)
    right_right ← lift (load_right right)
    shielded api right_left (
        shielded api right_right (do
          spot ← lift (is_retired_spot right_left or_else is_retired_spot right_right)
          if spot then give retired_node else do
            left_size ← lift (node_size right_left)
            right_size ← lift (node_size right_right)
            if ltb left_size right_size
                then single_left left right right_left right_right key value
                else double_left left right right_left right_right key value))

  unfoldable pub single_right :
      (left right left_right left_left : Shared) → K → V → E api K V Shared
  single_right left right left_right left_left key value = do
    left_ref ← lift (deref left)
    new_right ← lift (mk_node api left_right right key value)
    res ← lift (mk_node api left_left new_right left_ref.key left_ref.value)
    lift (retire_node api left)
    give res

  unfoldable pub double_right :
      (left right left_right left_left : Shared) → K → V → E api K V Shared
  double_right left right left_right left_left key value = do
    left_ref ← lift (deref left)
    left_right_ref ← lift (deref left_right)
    left_right_left ← lift (load_left left_right)
    left_right_right ← lift (load_right left_right)
    shielded api left_right_left (
        shielded api left_right_right (do
          spot ← lift (is_retired_spot left_right_left or_else is_retired_spot left_right_right)
          if spot then give retired_node else do
            new_left ← lift (mk_node api left_left left_right_left left_ref.key left_ref.value)
            new_right ← lift (mk_node api left_right_right right key value)
            res ← lift (mk_node api new_left new_right left_right_ref.key left_right_ref.value)
            lift (retire_node api left_right)
            lift (retire_node api left)
            give res))

  unfoldable pub mk_balanced_right : (left right : Shared) → K → V → E api K V Shared
  mk_balanced_right left right key value = do
    left_right ← lift (load_right left)
    left_left ← lift (load_left left)
    shielded api left_left (
        shielded api left_right (do
          spot ← lift (is_retired_spot left_right or_else is_retired_spot left_left)
          if spot then give retired_node else do
            right_size ← lift (node_size left_right)
            left_size ← lift (node_size left_left)
            if ltb right_size left_size
                then single_right left right left_right left_left key value
                else double_right left right left_right left_left key value))

  -- `cur` is retired even if a rotation was ejected.
  unfoldable pub mk_balanced : (cur left right : Shared) → E api K V Shared
  mk_balanced cur left right = do
    spot ← lift (is_retired_spot cur or_else (is_retired_spot left or_else is_retired_spot right))
    if spot then give retired_node else do
      cur_ref ← lift (deref cur)
      l_size ← lift (node_size left)
      r_size ← lift (node_size right)
      (if outweighs r_size l_size
            then mk_balanced_left left right cur_ref.key cur_ref.value
            else if outweighs l_size r_size
            then mk_balanced_right left right cur_ref.key cur_ref.value
            else lift (mk_node api left right cur_ref.key cur_ref.value))
          afterwards retire_node api cur
