-- ===== src/Pebr/BonsaiTree/Keeps/Balance.antt =====
-- The shields of pebr/bonsai_tree.rs: accesses of nodes, the private lists, and `mk_balanced`.
use pebr_benchmark.Base.{refl}
use pebr_benchmark.Shared.{Shared}
use pebr_benchmark.Pebr.ShieldPool.{ShieldApi}
use pebr_benchmark.Pebr.BonsaiTree.Node.{
  Node, deref, load_left, load_right, alloc, is_retired_spot, node_size,
}
use pebr_benchmark.Pebr.BonsaiTree.State.{retire_node, add_new_node, mk_node}
use pebr_benchmark.Pebr.BonsaiTree.Balance.{
  mk_balanced, mk_balanced_left, single_left, double_left, mk_balanced_right, single_right,
  double_right,
}
use pebr_benchmark.Pebr.BonsaiTree.Keeps.{keeps, Keeps, Keeps-modify_state}
use pebr_benchmark.Pebr.BonsaiTree.Keeps.Tries.{Tries, tries}

module _ (api : ShieldApi) {K V : Type 0} where
  pub Keeps-deref : (p : Shared) → Keeps api {K = K} {V = V} (deref p)
  unfolding deref
  Keeps-deref p = search keeps

  pub Keeps-load_left : (p : Shared) → Keeps api {K = K} {V = V} (load_left p)
  unfolding load_left
  Keeps-load_left p = search keeps

  pub Keeps-load_right : (p : Shared) → Keeps api {K = K} {V = V} (load_right p)
  unfolding load_right
  Keeps-load_right p = search keeps

  pub Keeps-is_retired_spot : (p : Shared) → Keeps api {K = K} {V = V} (is_retired_spot p)
  unfolding is_retired_spot
  Keeps-is_retired_spot p = search (keeps, Keeps-load_left, Keeps-load_right) depth 12

  Keeps-node_size : (p : Shared) → Keeps api {K = K} {V = V} (node_size p)
  unfolding node_size
  Keeps-node_size p = search (keeps, Keeps-deref) depth 12

  pub Keeps-retire_node : (p : Shared) → Keeps api {K = K} {V = V} (retire_node api p)
  unfolding retire_node
  Keeps-retire_node p = Keeps-modify_state api _ λ s. refl

  Keeps-add_new_node : (p : Shared) → Keeps api {K = K} {V = V} (add_new_node api p)
  unfolding add_new_node
  Keeps-add_new_node p = Keeps-modify_state api _ λ s. refl

  Keeps-alloc : (n : Node K V) → Keeps api (alloc n)
  unfolding alloc
  Keeps-alloc n = search keeps

  pub Keeps-mk_node :
      (l r : Shared) (k : K) (v : V) → Keeps api {K = K} {V = V} (mk_node api l r k v)
  unfolding mk_node
  Keeps-mk_node l r k v =
      search (keeps, Keeps-is_retired_spot, Keeps-node_size, Keeps-alloc, Keeps-add_new_node) depth
        16

  pub ruleset spots = (Keeps-is_retired_spot, Keeps-load_left, Keeps-load_right)

  Tries-single_left :
      (l r rl rr : Shared) (k : K) (v : V) → Tries api (single_left api l r rl rr k v)
  unfolding single_left
  Tries-single_left l r rl rr k v =
      search (keeps, tries, Keeps-deref, Keeps-mk_node, Keeps-retire_node) depth 16

  Tries-single_right :
      (l r lr ll : Shared) (k : K) (v : V) → Tries api (single_right api l r lr ll k v)
  unfolding single_right
  Tries-single_right l r lr ll k v =
      search (keeps, tries, Keeps-deref, Keeps-mk_node, Keeps-retire_node) depth 16

  Tries-double_left :
      (l r rl rr : Shared) (k : K) (v : V) → Tries api (double_left api l r rl rr k v)
  unfolding double_left
  Tries-double_left l r rl rr k v =
      search (keeps, tries, spots, Keeps-deref, Keeps-mk_node, Keeps-retire_node) depth 24

  Tries-double_right :
      (l r lr ll : Shared) (k : K) (v : V) → Tries api (double_right api l r lr ll k v)
  unfolding double_right
  Tries-double_right l r lr ll k v =
      search (keeps, tries, spots, Keeps-deref, Keeps-mk_node, Keeps-retire_node) depth 24

  Tries-mk_balanced_left : (l r : Shared) (k : K) (v : V) → Tries api (mk_balanced_left api l r k v)
  unfolding mk_balanced_left
  Tries-mk_balanced_left l r k v =
      search (keeps, tries, spots, Keeps-node_size, Tries-single_left, Tries-double_left) depth 24

  Tries-mk_balanced_right :
      (l r : Shared) (k : K) (v : V) → Tries api (mk_balanced_right api l r k v)
  unfolding mk_balanced_right
  Tries-mk_balanced_right l r k v =
      search (keeps, tries, spots, Keeps-node_size, Tries-single_right, Tries-double_right) depth 24

  pub Tries-mk_balanced : (cur l r : Shared) → Tries api {K = K} {V = V} (mk_balanced api cur l r)
  unfolding mk_balanced
  Tries-mk_balanced cur l r =
      search
        (
          keeps, tries, spots, Keeps-deref, Keeps-node_size, Keeps-mk_node, Keeps-retire_node,
          Tries-mk_balanced_left, Tries-mk_balanced_right,
        )
        depth 24
