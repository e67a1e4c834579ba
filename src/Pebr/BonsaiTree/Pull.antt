-- ===== src/Pebr/BonsaiTree/Pull.antt =====
-- pebr/bonsai_tree.rs: the outermost node of a subtree is pulled out. Each call takes fuel for its
-- depth.
use pebr_benchmark.Base.{ℕ, zero, suc, not, if◌then◌else◌}
use pebr_benchmark.Shared.{Shared, null, is_null}
use pebr_benchmark.World.{stop, ◌or_else◌}
use pebr_benchmark.Pebr.ShieldPool.{ShieldApi}
use pebr_benchmark.Pebr.BonsaiTree.Node.{
  deref, load_left, load_right, retired_node, is_retired_spot,
}
use pebr_benchmark.Pebr.BonsaiTree.State.{retire_node, mk_node}
use pebr_benchmark.Pebr.BonsaiTree.Shields.{E, give, lift, ◌>>=◌, ◌>>◌, shielded}
use pebr_benchmark.Pebr.BonsaiTree.Balance.{mk_balanced}

module _ (api : ShieldApi) {K V : Type 0} where
  unfoldable pub pull_leftmost : ℕ → Shared → E api K V (Shared × Shared)
  pull_leftmost zero node = stop
  pull_leftmost (suc fuel) node = do
    spot ← lift (is_retired_spot node)
    if spot then give (retired_node, retired_node) else do
      node_ref ← lift (deref node)
      left ← lift (load_left node)
      right ← lift (load_right node)
      shielded api left (
          shielded api right (do
            spot ← lift (is_retired_spot left or_else is_retired_spot right)
            if spot
                then give (retired_node, retired_node)
                else if not (is_null left)
                then (do
                  (new_left, succ) ← pull_leftmost fuel left
                  shielded api new_left
                      (do new_node ← mk_balanced api node new_left right; give (new_node, succ)))
                else do
                  succ ← lift (mk_node api null null node_ref.key node_ref.value)
                  lift (retire_node api node)
                  give (right, succ)))

  unfoldable pub pull_rightmost : ℕ → Shared → E api K V (Shared × Shared)
  pull_rightmost zero node = stop
  pull_rightmost (suc fuel) node = do
    spot ← lift (is_retired_spot node)
    if spot then give (retired_node, retired_node) else do
      node_ref ← lift (deref node)
      left ← lift (load_left node)
      right ← lift (load_right node)
      shielded api left (
          shielded api right (do
            spot ← lift (is_retired_spot left or_else is_retired_spot right)
            if spot
                then give (retired_node, retired_node)
                else if not (is_null right)
                then (do
                  (new_right, succ) ← pull_rightmost fuel right
                  shielded api new_right
                      (do new_node ← mk_balanced api node left new_right; give (new_node, succ)))
                else do
                  succ ← lift (mk_node api null null node_ref.key node_ref.value)
                  lift (retire_node api node)
                  give (left, succ)))
