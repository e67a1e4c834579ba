-- ===== src/Ebr/NmTree/Get.antt =====
-- ebr/natarajan_mittal_tree.rs: an undisturbed lookup in a tree whose edges are clean.
use Prim.Native.Nat.Ordering.{lt, eq, gt}
use pebr_benchmark.Base.{
  ℕ, zero, suc, ◌<◌, ◌≡◌, refl, ◌∙◌, false, Option, none, some, ap, sym, inl, inr, arith,
}
use pebr_benchmark.Ord.{Ord, Ordering-cases}
use pebr_benchmark.SortedMap.{lookup}
use pebr_benchmark.Shared.{shared}
use pebr_benchmark.World.{Run, ok, quiet, Cmd, pure, crash}
use pebr_benchmark.World.Returns
use pebr_benchmark.World.Returns.{Returns, returns}
use pebr_benchmark.Ebr.NmTree.Node.{
  fin, inf, key_cmp, Node, Direction, to_left, to_right, child, Heap,
}
use pebr_benchmark.Ebr.NmTree.Seek.{SeekRecord, side, advance, seek_loop, seek}
use pebr_benchmark.Ebr.NmTree.Map.{get}
use pebr_benchmark.Ebr.NmTree.Access.{not_null, deref-ok, load-ok, leaf-child, node_of, root-node}
use pebr_benchmark.Ebr.NmTree.Tree.{
  Tree, tip, fork, root, leaf_node, fork_node, Stored, height, entries, Ordered, reach, answer,
  reach-lookup,
}

module _ {K V : Type 0} ⦃o : Ord K⦄ (key : K) (h : Heap K V) where
  -- The walk arrived at a leaf, and nothing has changed.
  abbrev Arrived : Tree K V → SeekRecord → Heap K V → Unit {0} → Type 0
  Arrived t rec h' s' = (h' ≡ h) × (rec.leaf ≡ shared (reach key t).0 0)

  passed :
      (t u : Tree K V) {run : Run (Heap K V) (Unit {0}) SeekRecord}
      → reach key t ≡ reach key u
      → Returns (Arrived u) run
      → Returns (Arrived t) run
  passed t u e ends =
      Returns.weaken ends λ rec h' s' (same, at). (same, at ∙ ap (λ x. shared x.0 0) (sym e))

  seek_loop-Arrived :
      (fuel : ℕ) (t : Tree K V) (rec : SeekRecord) (dir : Direction)
      → height t < fuel
      → Stored h.cells t
      → Returns (Arrived t) (seek_loop fuel key rec false (shared (root t) 0) dir (quiet h tt))
  unfolding seek_loop advance
  seek_loop-Arrived zero t rec dir f st = absurd (omega arith)
  seek_loop-Arrived (suc zero) (tip a p) rec dir f st = absurd (omega arith)
  seek_loop-Arrived (suc zero) (fork a k l r) rec dir f st = absurd (omega arith)
  seek_loop-Arrived (suc (suc fuel)) (tip a p) rec dir f st =
      let d = side (key_cmp (leaf_node p).key key) in
      rw
        (
          not_null a 0 st.0,
          deref-ok h a 0 (leaf_node p) st.1,
          load-ok h a 0 (leaf_node p) d st.1,
          leaf-child p d,
        )
        (returns (refl, refl))
  seek_loop-Arrived (suc (suc fuel)) (fork a inf l r) rec dir f st =
      let n : Node K V = fork_node inf l r in
      rw (not_null a 0 st.0, deref-ok h a 0 n st.1, load-ok h a 0 n to_left st.1)
        (seek_loop-Arrived (suc fuel) l _ _ (omega arith) st.2)
  seek_loop-Arrived (suc (suc fuel)) (fork a (fin k) l r) rec dir f st =
      let n : Node K V = fork_node (fin k) l r in
      rw (not_null a 0 st.0, deref-ok h a 0 n st.1)
        (elim (Ordering-cases (o.cmp k key)) [
          | inl less ↦
              rw (less, load-ok h a 0 n to_right st.1)
                (passed (fork a (fin k) l r) r (rw (less, reach) refl)
                  (seek_loop-Arrived (suc fuel) r _ _ (omega arith) st.3))
          | inr (inl equal) ↦
              rw (equal, load-ok h a 0 n to_right st.1)
                (passed (fork a (fin k) l r) r (rw (equal, reach) refl)
                  (seek_loop-Arrived (suc fuel) r _ _ (omega arith) st.3))
          | inr (inr greater) ↦
              rw (greater, load-ok h a 0 n to_left st.1)
                (passed (fork a (fin k) l r) l (rw (greater, reach) refl)
                  (seek_loop-Arrived (suc fuel) l _ _ (omega arith) st.2))
        ])

  reach-node :
      (t : Tree K V) → Stored h.cells t → h.cells (reach key t).0 ≡ some (leaf_node (reach key t).1)
  reach-node (tip a p) st = st.1
  reach-node (fork a inf l r) st = reach-node l st.2
  reach-node (fork a (fin k) l r) st = elim (Ordering-cases (o.cmp k key)) [
    | inl less ↦ rw (less, reach) (reach-node r st.3)
    | inr (inl equal) ↦ rw (equal, reach) (reach-node r st.3)
    | inr (inr greater) ↦ rw (greater, reach) (reach-node l st.2)
  ]

  -- Left of the topmost node is a leaf, or a node with the infinite key.
  abbrev pub IsTop : Tree K V → Type 0
  IsTop (tip a p) = Unit
  IsTop (fork a (fin k) l r) = ⊥
  IsTop (fork a inf l r) = Unit

  from_top :
      (fuel : ℕ) (t : Tree K V) (rec : SeekRecord)
      → IsTop t
      → height t < fuel
      → Stored h.cells t
      → Returns (Arrived t) (
          seek_loop fuel key
            (record rec { leaf = shared (root t) 0 })
            false
            (child (node_of t) to_left)
            to_left
            (quiet h tt))
  unfolding seek_loop
  from_top zero t rec top f st = absurd (omega arith)
  from_top (suc fuel) (tip a none) rec top f st = returns (refl, refl)
  from_top (suc fuel) (tip a (some e)) rec top f st = returns (refl, refl)
  from_top (suc fuel) (fork a (fin k) l r) rec top f st = absurd top
  from_top (suc fuel) (fork a inf l r) rec top f st =
      seek_loop-Arrived (suc fuel) l _ to_left (omega arith) st.2

  abbrev respond : Node K V → Cmd (Heap K V) (Unit {0}) (Option V)
  respond n = elim (key_cmp n.key key) [
    | eq ↦ elim n.value [ none ↦ crash | some v ↦ pure (some v) ]
    | lt ↦ pure none
    | gt ↦ pure none
  ]

  answered :
      (p : Option (K × V)) (v : Option V)
      → answer key p ≡ v
      → Returns (λ b h' s'. (b ≡ v) × (h' ≡ h) × (s' ≡ tt)) (respond (leaf_node p) (quiet h tt))
  answered none v e = returns (e, refl, refl)
  answered (some (k, w)) v e = elim (Ordering-cases (o.cmp k key)) [
    | inl less ↦ rw less (returns ((rw (less, answer) refl) ∙ e, refl, refl))
    | inr (inl equal) ↦ rw equal (returns ((rw (equal, answer) refl) ∙ e, refl, refl))
    | inr (inr greater) ↦ rw greater (returns ((rw (greater, answer) refl) ∙ e, refl, refl))
  ]

  module _ (depth r s : ℕ) (t q p : Tree K V) (top : IsTop t) (enough : height t < depth)
      (st : Stored h.cells (fork r inf (fork s inf t q) p)) where
    seek-Arrived : Returns (Arrived t) (seek depth (shared r 0) key (quiet h tt))
    unfolding seek
    seek-Arrived =
        rw
          (
            load-ok h r 0 (fork_node inf (fork s inf t q) p) to_left st.1,
            load-ok h s 0 (fork_node inf t q) to_left st.2.1,
            load-ok h (root t) 0 (node_of t) to_left (root-node h.cells t st.2.2),
          )
          (from_top depth t
            (record {
              ancestor = shared r 0;
              successor = shared s 0;
              successor_dir = to_left;
              parent = shared s 0;
              leaf = shared (root t) 0;
              leaf_dir = to_left;
            })
            top enough st.2.2)

    -- Undisturbed, on a tree without flags and tags below the two topmost nodes, whose keys are
    -- ordered and whose topmost node is a leaf or has the infinite key, with a depth above its
    -- height: the lookup returns what the leaves have at the key, and changes nothing.
    pub get-entries :
        Ordered t
        → get depth (shared r 0) key (quiet h tt) ≡ ok (lookup key (entries t)) (quiet h tt)
    unfolding get
    get-entries so = Returns.exact (
        Returns.bind _ seek-Arrived λ rec h' s' (same, at).
          rw
            (
              same,
              at,
              deref-ok h (reach key t).0 0 (leaf_node (reach key t).1) (reach-node t st.2.2),
            )
            (answered (reach key t).1 (lookup key (entries t)) (reach-lookup key t so)))
