-- ===== src/Pebr/BonsaiTree/Keeps/Edit.antt =====
-- The shields of pebr/bonsai_tree.rs: the recursive rebuilding of a path.
use pebr_benchmark.Base.{ℕ, zero, suc}
use pebr_benchmark.Ord.{Ord}
use pebr_benchmark.Shared.{Shared}
use pebr_benchmark.Pebr.ShieldPool.{ShieldApi}
use pebr_benchmark.Pebr.BonsaiTree.Node.{Node}
use pebr_benchmark.Pebr.BonsaiTree.Pull.{pull_leftmost, pull_rightmost}
use pebr_benchmark.Pebr.BonsaiTree.Edit.{remove_found, do_insert, do_remove}
use pebr_benchmark.Pebr.BonsaiTree.Keeps.{keeps}
use pebr_benchmark.Pebr.BonsaiTree.Keeps.Tries.{Tries, Tries-stop, tries}
use pebr_benchmark.Pebr.BonsaiTree.Keeps.Balance.{
  spots, Keeps-deref, Keeps-mk_node, Keeps-retire_node, Tries-mk_balanced,
}

ruleset steps =
    (keeps, tries, spots, Keeps-deref, Keeps-mk_node, Keeps-retire_node, Tries-mk_balanced)

module _ (api : ShieldApi) {K V : Type 0} where
  Tries-pull_leftmost :
      (fuel : ℕ) (p : Shared) → Tries api {K = K} {V = V} (pull_leftmost api fuel p)
  unfolding pull_leftmost
  Tries-pull_leftmost zero p = Tries-stop api
  Tries-pull_leftmost (suc fuel) p = search (steps, Tries-pull_leftmost fuel) depth 24

  Tries-pull_rightmost :
      (fuel : ℕ) (p : Shared) → Tries api {K = K} {V = V} (pull_rightmost api fuel p)
  unfolding pull_rightmost
  Tries-pull_rightmost zero p = Tries-stop api
  Tries-pull_rightmost (suc fuel) p = search (steps, Tries-pull_rightmost fuel) depth 24

  Tries-remove_found :
      (fuel : ℕ) (p : Shared) (n : Node K V) (l r : Shared)
      → Tries api (remove_found api fuel p n l r)
  unfolding remove_found
  Tries-remove_found fuel p n l r =
      search (steps, Tries-pull_leftmost, Tries-pull_rightmost) depth 24

module _ (api : ShieldApi) {K V : Type 0} ⦃o : Ord K⦄ where
  pub Tries-do_insert :
      (fuel : ℕ) (p : Shared) (k : K) (v : V) → Tries api (do_insert api fuel p k v)
  unfolding do_insert
  Tries-do_insert zero p k v = Tries-stop api
  Tries-do_insert (suc fuel) p k v = search (steps, Tries-do_insert fuel) depth 24

  pub Tries-do_remove :
      (fuel : ℕ) (p : Shared) (k : K) → Tries api {K = K} {V = V} (do_remove api fuel p k)
  unfolding do_remove
  Tries-do_remove zero p k = Tries-stop api
  Tries-do_remove (suc fuel) p k = search (steps, Tries-remove_found, Tries-do_remove fuel) depth 24
