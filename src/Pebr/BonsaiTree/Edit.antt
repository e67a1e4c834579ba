-- ===== src/Pebr/BonsaiTree/Edit.antt =====
-- pebr/bonsai_tree.rs: the recursive rebuilding of a path. Each call takes fuel for its depth.
use pebr_benchmark.Base.{
  ℕ, zero, suc, Bool, true, false, not, Option, none, some, ◌==◌, if◌then◌else◌,
}
use pebr_benchmark.Ord.{Ord, by_order}
use pebr_benchmark.Shared.{Shared, null, is_null}
use pebr_benchmark.World.{stop, ◌or_else◌}
use pebr_benchmark.Pebr.ShieldPool.{ShieldApi}
use pebr_benchmark.Pebr.BonsaiTree.Node.{
  Node, deref, load_left, load_right, retired_node, is_retired_spot,
}
use pebr_benchmark.Pebr.BonsaiTree.State.{retire_node, mk_node}
use pebr_benchmark.Pebr.BonsaiTree.Shields.{E, give, lift, ◌>>=◌, ◌>>◌, shielded}
use pebr_benchmark.Pebr.BonsaiTree.Balance.{mk_balanced}
use pebr_benchmark.Pebr.BonsaiTree.Pull.{pull_leftmost, pull_rightmost}

module _ (api : ShieldApi) {K V : Type 0} where
  -- The branch `Equal` of `do_remove`.
  unfoldable pub remove_found :
      ℕ → Shared → Node K V → Shared → Shared → E api K V (Shared × Option V)
  unfolding pull_leftmost pull_rightmost
  remove_found fuel node node_ref left right = do
    lift (retire_node api node)
    if node_ref.size == 1
        then give (null, some node_ref.value)
        else if not (is_null left)
        then (do
          (new_left, succ) ← pull_rightmost api fuel left
          shielded api new_left (do
            new_node ← mk_balanced api succ new_left right
            give (new_node, some node_ref.value)))
        else do
          (new_right, succ) ← pull_leftmost api fuel right
          shielded api new_right (do
            new_node ← mk_balanced api succ left new_right
            give (new_node, some node_ref.value))

module _ (api : ShieldApi) {K V : Type 0} ⦃o : Ord K⦄ where
  unfoldable pub do_insert : ℕ → Shared → K → V → E api K V (Shared × Bool)
  do_insert zero node key value = stop
  do_insert (suc fuel) node key value = do
    spot ← lift (is_retired_spot node)
    if spot
        then give (retired_node, false)
        else if is_null node
        then (do new_node ← lift (mk_node api null null key value); give (new_node, true))
        else do
          node_ref ← lift (deref node)
          left ← lift (load_left node)
          right ← lift (load_right node)
          shielded api left (
              shielded api right (do
                spot ← lift (is_retired_spot left or_else is_retired_spot right)
                if spot
                    then give (retired_node, false)
                    else by_order (o.cmp node_ref.key key)
                        (do
                          (new_right, inserted) ← do_insert fuel right key value
                          new_node ← mk_balanced api node left new_right
                          give (new_node, inserted))
                        (give (node, false))
                        (do
                          (new_left, inserted) ← do_insert fuel left key value
                          new_node ← mk_balanced api node new_left right
                          give (new_node, inserted))))

  unfoldable pub do_remove : ℕ → Shared → K → E api K V (Shared × Option V)
  unfolding remove_found
  do_remove zero node key = stop
  do_remove (suc fuel) node key = do
    spot ← lift (is_retired_spot node)
    if spot then give (retired_node, none) else if is_null node then give (null, none) else do
      node_ref ← lift (deref node)
      left ← lift (load_left node)
      right ← lift (load_right node)
      shielded api left (
          shielded api right (do
            spot ← lift (is_retired_spot left or_else is_retired_spot right)
            if spot
                then give (retired_node, none)
                else by_order (o.cmp node_ref.key key)
                    (do
                      (new_right, value) ← do_remove fuel right key
                      new_node ← mk_balanced api node left new_right
                      give (new_node, value))
                    (remove_found api fuel node node_ref left right)
                    (do
                      (new_left, value) ← do_remove fuel left key
                      new_node ← mk_balanced api node new_left right
                      give (new_node, value))))
