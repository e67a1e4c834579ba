-- ===== src/Ebr/NmTree/Inject.antt =====
-- ebr/natarajan_mittal_tree.rs: `inject` with the two nodes that `insert` allocates.
use pebr_benchmark.Base.{ℕ, ◌+◌, ◌<◌, ◌≡◌, ap, ◌∙◌, Option, none, some, List, ◌∷◌, ◌++◌, arith}
use pebr_benchmark.Ord.{Ord}
use pebr_benchmark.SortedMap.{Entries}
use pebr_benchmark.Shared.{shared}
use pebr_benchmark.World.{ok, quiet}
use pebr_benchmark.Ebr.NmTree.Node.{
  Key, fin, inf, new_leaf, Direction, to_left, to_right, Heap, put_cell, compare_and_set,
}
use pebr_benchmark.Ebr.NmTree.Map.{inject}
use pebr_benchmark.Ebr.NmTree.Tree.{tip, leaf_node}
use pebr_benchmark.Ebr.NmTree.Access.{deref-ok}
use pebr_benchmark.Ebr.NmTree.Path.{Frame, plug, frame_node}
use pebr_benchmark.Ebr.NmTree.Landing.{topmost, edges}
use pebr_benchmark.Ebr.NmTree.Represents
use pebr_benchmark.Ebr.NmTree.Represents.{
  Represents, IsAllocated, allocated_below, occ-IsAllocated, Replaced-Represents,
}
use pebr_benchmark.Ebr.NmTree.Graft.{prepared, prepared-same, joint, grafted}
use pebr_benchmark.Ebr.NmTree.Swing.{compare_and_set-ok, child-frame, set_child-frame, set_node-ok}

module _ {K V : Type 0} ⦃o : Ord K⦄ (key : K) (value : V) {h : Heap K V} {r : ℕ} {xs : Entries K V}
    (m : Represents h r xs) where
  abbrev g : Heap K V
  g = prepared key value h

  pub leaf_made : g.cells h.fresh ≡ some (leaf_node (some (key, value)))
  leaf_made = ground arith

  pub joint_made : g.cells (h.fresh + 1) ≡ some (new_leaf inf none)
  joint_made = ground arith

  module _ (inner : List (Frame K V)) (z y : Frame K V) (rest : List (Frame K V)) (a : ℕ)
      (old : Option (K × V)) (shape : m.tree ≡ plug inner (tip a old))
      (whole : inner ++ topmost r m.s m.q m.p ≡ z ∷ rest) where
    pub parent_here : g.cells z.addr ≡ some (frame_node z a)
    parent_here =
        let there = (Represents.parts m inner z rest (tip a old) shape whole).0.1 in
        prepared-same key value m z.addr (_, there) ∙ there

    pub leaf_here : g.cells a ≡ some (leaf_node old)
    leaf_here =
        let there = (Represents.parts m inner z rest (tip a old) shape whole).1.1 in
        prepared-same key value m a (_, there) ∙ there

    pub parent_below : z.addr < h.fresh
    parent_below =
        allocated_below m z.addr (_, (Represents.parts m inner z rest (tip a old) shape whole).0.1)

    module _ (k : Key K) (d : Direction) where
      abbrev j : Frame K V
      j = joint key value m inner z rest a old shape whole k d

      swing-ok :
          compare_and_set
            (shared z.addr 0)
            z.dir
            (shared a 0)
            (shared (h.fresh + 1) 0)
            (quiet (put_cell g (h.fresh + 1) (frame_node j h.fresh)) tt)
          ≡ ok none (quiet (grafted key value m inner z rest a old shape whole k d) tt)
      swing-ok =
          compare_and_set-ok (put_cell g (h.fresh + 1) (frame_node j h.fresh)) z.addr 0 z.dir
            (frame_node z a) (shared a 0) (shared (h.fresh + 1) 0)
            (ground (arith, parent_here, parent_below)) (child-frame z a)
          ∙ ap
              (λ n.
                ok none
                  (quiet (put_cell (put_cell g (h.fresh + 1) (frame_node j h.fresh)) z.addr n) tt))
              (set_child-frame z a (h.fresh + 1))

    pub inject_left-ok :
        inject (edges z y a) (shared (h.fresh + 1) 0) (shared h.fresh 0) (shared a 0) (quiet g tt)
        ≡ ok none (
            quiet
              (grafted key value m inner z rest a old shape whole (leaf_node old).key to_left)
              tt)
    unfolding inject
    inject_left-ok =
        rw
          (
            deref-ok g a 0 (leaf_node old) leaf_here,
            set_node-ok g (h.fresh + 1) 0 (new_leaf inf none) (leaf_node old).key (shared h.fresh 0)
                (shared a 0) joint_made,
          )
          (swing-ok (leaf_node old).key to_left)

    pub inject_right-ok :
        inject (edges z y a) (shared (h.fresh + 1) 0) (shared a 0) (shared h.fresh 0) (quiet g tt)
        ≡ ok none (quiet (grafted key value m inner z rest a old shape whole (fin key) to_right) tt)
    unfolding inject
    inject_right-ok =
        rw
          (
            deref-ok g h.fresh 0 (leaf_node (some (key, value))) leaf_made,
            set_node-ok g (h.fresh + 1) 0 (new_leaf inf none) (fin key) (shared a 0)
                (shared h.fresh 0) joint_made,
          )
          (swing-ok (fin key) to_right)
