-- ===== src/Ebr/NmTree/Graft.antt =====
-- ebr/natarajan_mittal_tree.rs: the tree after the edge to a leaf is swung to a new node, whose
-- children are that leaf and a new one.
use pebr_benchmark.Base.{
  ℕ, ◌+◌, ◌≤◌, ◌<◌, ◌≡◌, ◌≢◌, ap, ◌∙◌, sym, Option, none, some, ◌⊎◌, inl, inr, List, ◌∷◌, ◌++◌, All,
  zero_or_pos, eq_or_ne, arith,
}
use pebr_benchmark.Ord.{Ord}
use mathlib.Core.Path.{subst}
use pebr_benchmark.SortedMap.{Entries}
use pebr_benchmark.Shared.{hit, count, hit_self, hit_ne}
use pebr_benchmark.Ebr.NmTree.Node.{
  Key, fin, inf, new_leaf, Direction, opposite, Heap, update, put_cell,
}
use pebr_benchmark.Ebr.NmTree.Tree.{Tree, tip, leaf_node, Stored, entries, Allowed, Ordered}
use pebr_benchmark.Ebr.NmTree.Path.{
  Frame, join, plug, occ, occ-join, frame_node, root-join, join-Stored,
}
use pebr_benchmark.Ebr.NmTree.Within.{Within, Ordered-plug, Ordered-join, Bounded-join}
use pebr_benchmark.Ebr.NmTree.Landing.{topmost, IsCrown}
use pebr_benchmark.Ebr.NmTree.Represents
use pebr_benchmark.Ebr.NmTree.Represents.{
  Represents, IsAllocated, Replaced, allocated_below, hit_same, update_here, update_there,
}

module _ {K V : Type 0} ⦃o : Ord K⦄ (key : K) (value : V) where
  -- What `insert` allocates: the new leaf, and the internal node with children still to come.
  abbrev pub prepared : Heap K V → Heap K V
  prepared h = record h {
    cells =
        update (update h.cells h.fresh (some (new_leaf (fin key) (some value)))) (h.fresh + 1)
          (some (new_leaf inf none));
    fresh = h.fresh + 1 + 1;
  }

  pub prepared-same :
      {h : Heap K V} {r : ℕ} {xs : Entries K V} (m : Represents h r xs) (a : ℕ)
      → IsAllocated h a
      → (prepared h).cells a ≡ h.cells a
  prepared-same {h} m a there = ground (arith, allocated_below m a there)

  module _ {h : Heap K V} {r : ℕ} {xs : Entries K V} (m : Represents h r xs)
      (inner : List (Frame K V)) (z : Frame K V) (rest : List (Frame K V)) (a : ℕ)
      (old : Option (K × V)) (shape : m.tree ≡ plug inner (tip a old))
      (whole : inner ++ topmost r m.s m.q m.p ≡ z ∷ rest) (k : Key K) (d : Direction) where
    -- The new node, seen from the new leaf.
    abbrev pub joint : Frame K V
    joint = record { addr = h.fresh + 1; key = k; dir = d; sibling = tip a old }

    abbrev pub new_tree : Tree K V
    new_tree = join (h.fresh + 1) k d (tip h.fresh (some (key, value))) (tip a old)

    abbrev pub grafted : Heap K V
    grafted =
        put_cell (put_cell (prepared h) (h.fresh + 1) (frame_node joint h.fresh)) z.addr
          (frame_node z (h.fresh + 1))

    parent-IsAllocated : IsAllocated h z.addr
    parent-IsAllocated = (_, (Represents.parts m inner z rest (tip a old) shape whole).0.1)

    leaf-IsAllocated : IsAllocated h a
    leaf-IsAllocated = (_, (Represents.parts m inner z rest (tip a old) shape whole).1.1)

    leaf-ne-parent : a ≢ z.addr
    leaf-ne-parent e = omega (
      arith,
      Represents.books m inner z rest (tip a old) shape whole a leaf-IsAllocated,
      hit_same a z.addr e,
      hit_self a,
    )

    same : (b : ℕ) → b ≢ z.addr → IsAllocated h b → grafted.cells b ≡ h.cells b
    same b ne there = ground (arith, allocated_below m b there)

    joint_there : grafted.cells (h.fresh + 1) ≡ some (frame_node joint h.fresh)
    joint_there = ground (arith, allocated_below m z.addr parent-IsAllocated)

    leaf_there : grafted.cells h.fresh ≡ some (leaf_node (some (key, value)))
    leaf_there = ground (arith, allocated_below m z.addr parent-IsAllocated)

    grafted-cases :
        (b : ℕ) → IsAllocated grafted b → IsAllocated h b ⊎ (b ≡ h.fresh) ⊎ (b ≡ h.fresh + 1)
    grafted-cases b (n, e) = elim (eq_or_ne b h.fresh) [
      | inl at_leaf ↦ inr (inl at_leaf)
      | inr not_leaf ↦ elim (eq_or_ne b (h.fresh + 1)) [
        | inl at_joint ↦ inr (inr at_joint)
        | inr not_joint ↦ elim (eq_or_ne b z.addr) [
          | inl at_parent ↦ inl (rw at_parent parent-IsAllocated)
          | inr not_parent ↦ inl (n, ground arith)
        ]
      ]
    ]

    parent_there : grafted.cells z.addr ≡ some (frame_node z (h.fresh + 1))
    parent_there = ground arith

    old-grafted : (b : ℕ) → IsAllocated h b → IsAllocated grafted b
    old-grafted b (n, e) = elim (eq_or_ne b z.addr) [
      | inl at_parent ↦ rw at_parent (_, parent_there)
      | inr not_parent ↦ (n, same b not_parent (n, e) ∙ e)
    ]

    occ-new_tree : (b : ℕ) → occ b new_tree ≡ hit b (h.fresh + 1) + hit b h.fresh + hit b a
    occ-new_tree b = occ-join b (h.fresh + 1) k d (tip h.fresh (some (key, value))) (tip a old)

    unallocated : (b : ℕ) → h.fresh ≤ b → (h.cells b ≡ none) × (count b h.deferred ≡ 0)
    unallocated b beyond = (
      m.unused b beyond,
      elim (zero_or_pos (count b h.deferred)) [
        | inl out ↦ out
        | inr there ↦ absurd (omega (arith, allocated_below m b (m.only b there)))
      ],
    )

    leaf_below : a < h.fresh
    leaf_below = allocated_below m a leaf-IsAllocated

    grafted-accounted :
        (b : ℕ)
        → IsAllocated grafted b
        → (IsAllocated h b
            × (occ b new_tree + count b h.deferred ≡ occ b (tip a old) + count b h.deferred))
          ⊎ (h.cells b ≡ none) × (occ b new_tree + count b h.deferred ≡ 1)
    grafted-accounted b there = elim (grafted-cases b there) [
      | inl old_one ↦
          let below = allocated_below m b old_one in
          inl (
            old_one,
            omega (
              arith,
              occ-new_tree b,
              hit_ne b (h.fresh + 1) (λ e. omega (arith, e, below)),
              hit_ne b h.fresh (λ e. omega (arith, e, below)),
            ),
          )
      | inr (inl at_leaf) ↦
          let (gone, out) = unallocated b (omega arith) in
          inr (
            gone,
            omega (
              arith,
              out,
              occ-new_tree b,
              hit_same b h.fresh at_leaf,
              hit_ne b (h.fresh + 1) (λ e. omega (arith, e)),
              hit_ne b a (λ e. omega (arith, e, leaf_below)),
            ),
          )
      | inr (inr at_joint) ↦
          let (gone, out) = unallocated b (omega arith) in
          inr (
            gone,
            omega (
              arith,
              out,
              occ-new_tree b,
              hit_same b (h.fresh + 1) at_joint,
              hit_ne b h.fresh (λ e. omega (arith, e)),
              hit_ne b a (λ e. omega (arith, e, leaf_below)),
            ),
          )
    ]

    leaf_stored : Stored h.cells (tip a old)
    leaf_stored = (Represents.parts m inner z rest (tip a old) shape whole).1

    module _ {ys : Entries K V} (side : Allowed k d key)
        (other : All (λ e. Allowed k (opposite d) e.0) (entries (tip a old)))
        (within : Within inner key) (crown : IsCrown (plug inner new_tree))
        (listed : entries (plug inner new_tree) ≡ ys) where
      pub grafted-Replaced : Replaced m inner z rest (tip a old) shape whole grafted new_tree ys
      grafted-Replaced = record {
        swung =
            parent_there
            ∙ ap (λ c. some (frame_node z c))
                (sym (root-join (h.fresh + 1) k d (tip h.fresh (some (key, value))) (tip a old)));
        same = λ b ne out there. same b ne there;
        there =
            join-Stored grafted.cells joint (tip h.fresh (some (key, value))) (omega arith)
              joint_there (leaf_stored.0, same a leaf-ne-parent leaf-IsAllocated ∙ leaf_stored.1)
              (m.positive, leaf_there);
        ordered = Ordered-join (h.fresh + 1) k d _ (tip a old) (side, tt) other tt tt;
        bounded =
            Bounded-join inner (h.fresh + 1) k d (tip h.fresh (some (key, value))) (tip a old)
              (within, tt) (Ordered-plug inner (tip a old) (subst Ordered shape m.ordered)).2;
        crown = crown;
        listed = listed;
        positive = omega arith;
        unused =
            λ b beyond. ground (arith, allocated_below m z.addr parent-IsAllocated, m.unused b);
        accounted = grafted-accounted;
        only = λ b there. old-grafted b (m.only b there);
      }
