-- ===== src/Ebr/NmTree/Swing.antt =====
-- ebr/natarajan_mittal_tree.rs: undisturbed writes to the edges and the nodes of a tree.
use pebr_benchmark.Base.{true, ℕ, ◌≡◌, refl, none, some}
use pebr_benchmark.Shared.{Shared, shared, =ₚ-refl, ◌=ₚ◌}
use pebr_benchmark.World.{ok, quiet}
use pebr_benchmark.Ebr.NmTree.Node.{
  Key, Node, Direction, to_left, to_right, child, set_child, Heap, update, put_cell,
  compare_and_set, set_node, free,
}
use pebr_benchmark.Ebr.NmTree.Tree.{Tree}
use pebr_benchmark.Ebr.NmTree.Path.{Frame, frame_node}

module _ {K V : Type 0} where
  pub compare_and_set-ok :
      (h : Heap K V) (a t : ℕ) (d : Direction) (n : Node K V) (old new : Shared)
      → h.cells a ≡ some n
      → child n d ≡ old
      → compare_and_set (shared a t) d old new (quiet h tt)
        ≡ ok none (quiet (put_cell h a (set_child n d new)) tt)
  unfolding compare_and_set
  compare_and_set-ok h a t d n old new here e =
      let equal : (child n d =ₚ old) ≡ true = rw e (=ₚ-refl old) in rw (here, equal) refl

  pub child-frame : (x : Frame K V) (b : ℕ) → child (frame_node x b) x.dir ≡ shared b 0
  child-frame x b = go x.addr x.key x.dir x.sibling
    where
      go :
          (a : ℕ) (k : Key K) (d : Direction) (v : Tree K V)
          → child (frame_node (record { addr = a; key = k; dir = d; sibling = v }) b) d ≡ shared b 0
      go a k to_left v = refl
      go a k to_right v = refl

  pub set_child-frame :
      (x : Frame K V) (b c : ℕ) → set_child (frame_node x b) x.dir (shared c 0) ≡ frame_node x c
  set_child-frame x b c = go x.addr x.key x.dir x.sibling
    where
      go :
          (a : ℕ) (k : Key K) (d : Direction) (v : Tree K V)
          → set_child
              (frame_node (record { addr = a; key = k; dir = d; sibling = v }) b)
              d
              (shared c 0)
            ≡ frame_node (record { addr = a; key = k; dir = d; sibling = v }) c
      go a k to_left v = refl
      go a k to_right v = refl

  pub free-ok :
      (h : Heap K V) (a t : ℕ) (n : Node K V)
      → h.cells a ≡ some n
      → free (shared a t) (quiet h tt)
        ≡ ok tt (quiet (record h { cells = update h.cells a none }) tt)
  unfolding free
  free-ok h a t n e = rw e refl

  pub set_node-ok :
      (h : Heap K V) (a t : ℕ) (n : Node K V) (k : Key K) (l r : Shared)
      → h.cells a ≡ some n
      → set_node (shared a t) k l r (quiet h tt)
        ≡ ok tt (quiet (put_cell h a (record n { key = k; left = l; right = r })) tt)
  unfolding set_node
  set_node-ok h a t n k l r e = rw e refl
