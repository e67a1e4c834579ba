-- ===== src/Ebr/NmTree/Access.antt =====
-- ebr/natarajan_mittal_tree.rs: undisturbed accesses to a tree in memory.
use pebr_benchmark.Base.{ℕ, ◌<◌, ◌≡◌, refl, true, false, Option, none, some, arith}
use pebr_benchmark.Shared.{shared, is_null}
use pebr_benchmark.World.{ok, quiet}
use pebr_benchmark.Ebr.NmTree.Node.{Node, Direction, to_left, to_right, child, Heap, deref, load}
use pebr_benchmark.Ebr.NmTree.Tree.{Tree, tip, fork, root, leaf_node, fork_node, Stored}

pub not_null : (a t : ℕ) → 0 < a → is_null (shared a t) ≡ false
not_null a t p = ground arith

module _ {K V : Type 0} where
  pub deref-ok :
      (h : Heap K V) (a t : ℕ) (n : Node K V)
      → h.cells a ≡ some n
      → deref (shared a t) (quiet h tt) ≡ ok n (quiet h tt)
  unfolding deref
  deref-ok h a t n e = rw e refl

  pub load-ok :
      (h : Heap K V) (a t : ℕ) (n : Node K V) (dir : Direction)
      → h.cells a ≡ some n
      → load (shared a t) dir (quiet h tt) ≡ ok (child n dir) (quiet h tt)
  unfolding load
  load-ok h a t n dir e = rw e refl

  pub root-positive : (mem : ℕ → Option (Node K V)) (t : Tree K V) → Stored mem t → 0 < root t
  root-positive mem (tip a p) st = st.0
  root-positive mem (fork a k l r) st = st.0

  abbrev pub node_of : Tree K V → Node K V
  node_of (tip a p) = leaf_node p
  node_of (fork a k l r) = fork_node k l r

  pub root-node :
      (mem : ℕ → Option (Node K V)) (t : Tree K V) → Stored mem t → mem (root t) ≡ some (node_of t)
  root-node mem (tip a p) st = st.1
  root-node mem (fork a k l r) st = st.1

  pub leaf-child : (p : Option (K × V)) (dir : Direction) → is_null (child (leaf_node p) dir) ≡ true
  leaf-child none to_left = refl
  leaf-child none to_right = refl
  leaf-child (some e) to_left = refl
  leaf-child (some e) to_right = refl
