-- ===== src/Ebr/NmTree/Landing.antt =====
-- ebr/natarajan_mittal_tree.rs: where an undisturbed walk ends in a tree whose edges are clean.
use Prim.Native.Nat.Ordering.{lt, eq}
use pebr_benchmark.Base.{
  ℕ, zero, suc, ◌<◌, ◌≡◌, refl, ap, ◌⊎◌, false, Option, none, inl, inr, List, [], ◌∷◌, ◌++◌, arith,
}
use pebr_benchmark.Ord.{Ord, Ordering-cases}
use pebr_benchmark.Shared.{shared}
use pebr_benchmark.World.{quiet}
use pebr_benchmark.World.Returns.{Returns, returns}
use pebr_benchmark.Ebr.NmTree.Node.{
  fin, inf, key_cmp, Node, Direction, to_left, to_right, child, Heap,
}
use pebr_benchmark.Ebr.NmTree.Seek.{SeekRecord, side, advance, seek_loop, seek}
use pebr_benchmark.Ebr.NmTree.Tree.{
  Tree, tip, fork, root, leaf_node, fork_node, Stored, height, Allowed,
}
use pebr_benchmark.Ebr.NmTree.Path.{Frame, plug}
use pebr_benchmark.Ebr.NmTree.Within.{Within}
use pebr_benchmark.Ebr.NmTree.Access.{not_null, deref-ok, load-ok, node_of, root-node, leaf-child}

module _ {K V : Type 0} where
  abbrev pub above : ℕ → Tree K V → Frame K V
  above a v = record { addr = a; key = inf; dir = to_left; sibling = v }

  -- The two topmost nodes, whose right children are leaves with the infinite key.
  abbrev pub topmost : (r s q p : ℕ) → List (Frame K V)
  topmost r s q p = above s (tip q none) ∷ above r (tip p none) ∷ []

  -- The last two edges before the leaf `a`.
  abbrev pub edges : Frame K V → Frame K V → ℕ → SeekRecord
  edges x y a = record {
    ancestor = shared y.addr 0;
    successor = shared x.addr 0;
    successor_dir = y.dir;
    parent = shared x.addr 0;
    leaf = shared a 0;
    leaf_dir = x.dir;
  }

  -- Below the two topmost nodes the tree is a leaf with the infinite key, or has one on the right.
  abbrev pub IsCrown : Tree K V → Type 0
  IsCrown (tip a none) = Unit
  IsCrown (fork a inf l (tip b none)) = Unit
  IsCrown _ = ⊥

  abbrev passed : ℕ → K → Direction → Tree K V → Frame K V
  passed a k d v = record { addr = a; key = fin k; dir = d; sibling = v }

  advance-edges :
      (rec : SeekRecord) (x y : Frame K V) (a : ℕ)
      → rec.leaf ≡ shared x.addr 0
      → rec.parent ≡ shared y.addr 0
      → rec.leaf_dir ≡ y.dir
      → advance rec false (shared a 0) x.dir ≡ edges x y a
  unfolding advance
  advance-edges rec x y a e1 e2 e3 = rw (e1, e2, e3) refl

module _ {K : Type 0} ⦃o : Ord K⦄ (key k : K) where
  not_left_of : (o.cmp k key ≡ lt) ⊎ (o.cmp k key ≡ eq) → Allowed (fin k) to_right key
  not_left_of (inl less) back = cc (back, o.cmp_lt k key less)
  not_left_of (inr equal) back = cc (back, o.cmp_eq k key equal, o.cmp_self k)

module _ {K V : Type 0} ⦃o : Ord K⦄ (key : K) (base : List (Frame K V)) where
  -- The walk from the tree `t`, which `base` lies above, arrives at a leaf, of which `inner` leads up
  -- to the root of `t`; `parent` and `grand` are the two nodes above the leaf.
  pub record Landing (t : Tree K V) (rec : SeekRecord) : Type 0 where
    pub inner : List (Frame K V)
    pub parent : Frame K V
    pub grand : Frame K V
    pub outer : List (Frame K V)
    pub leaf : ℕ
    pub entry : Option (K × V)
    pub shape : t ≡ plug inner (tip leaf entry)
    pub whole : inner ++ base ≡ parent ∷ grand ∷ outer
    pub within : Within inner key
    pub at : rec ≡ edges parent grand leaf

  module _ (h : Heap K V) where
    abbrev pub Lands : Tree K V → SeekRecord → Heap K V → Unit {0} → Type 0
    Lands t rec h' s' = (h' ≡ h) × Landing t rec

    seek_loop-Lands :
        (fuel : ℕ) (u : Tree K V) (x y : Frame K V) (inner outer : List (Frame K V))
        (rec : SeekRecord)
        → height u < fuel
        → Stored h.cells u
        → Within (x ∷ inner) key
        → inner ++ base ≡ y ∷ outer
        → rec.leaf ≡ shared x.addr 0
        → rec.parent ≡ shared y.addr 0
        → rec.leaf_dir ≡ y.dir
        → Returns
            (Lands (plug (x ∷ inner) u))
            (seek_loop fuel key rec false (shared (root u) 0) x.dir (quiet h tt))
    unfolding seek_loop advance
    seek_loop-Lands zero u x y inner outer rec f st w split e1 e2 e3 = absurd (omega arith)
    seek_loop-Lands (suc zero) (tip a p) x y inner outer rec f st w split e1 e2 e3 =
        absurd (omega arith)
    seek_loop-Lands (suc zero) (fork a k l r) x y inner outer rec f st w split e1 e2 e3 =
        absurd (omega arith)
    seek_loop-Lands (suc (suc fuel)) (tip a p) x y inner outer rec f st w split e1 e2 e3 =
        let d = side (key_cmp (leaf_node p).key key) in
        rw
          (
            not_null a 0 st.0,
            deref-ok h a 0 (leaf_node p) st.1,
            load-ok h a 0 (leaf_node p) d st.1,
            leaf-child p d,
          )
          (returns (
            refl,
            record {
              inner = x ∷ inner;
              parent = x;
              grand = y;
              outer = outer;
              leaf = a;
              entry = p;
              shape = refl;
              whole = ap (λ path. x ∷ path) split;
              within = w;
              at = advance-edges rec x y a e1 e2 e3;
            },
          ))
    seek_loop-Lands (suc (suc fuel)) (fork a inf l r) x y inner outer rec f st w split e1 e2 e3 =
        let n : Node K V = fork_node inf l r in
        rw (not_null a 0 st.0, deref-ok h a 0 n st.1, load-ok h a 0 n to_left st.1)
          (seek_loop-Lands (suc fuel) l (above a r) x (x ∷ inner) (y ∷ outer) _ (omega arith) st.2
            (tt, w) (ap (λ path. x ∷ path) split) refl e1 refl)
    seek_loop-Lands (suc (suc fuel)) (fork a (fin k) l r) x y inner outer rec f st w split e1 e2
          e3 =
        let n : Node K V = fork_node (fin k) l r in
        let split' = ap (λ path. x ∷ path) split in
        rw (not_null a 0 st.0, deref-ok h a 0 n st.1)
          (elim (Ordering-cases (o.cmp k key)) [
            | inl less ↦
                rw (less, load-ok h a 0 n to_right st.1)
                  (seek_loop-Lands (suc fuel) r (passed a k to_right l) x (x ∷ inner) (y ∷ outer) _
                    (omega arith) st.3 (not_left_of key k (inl less), w) split' refl e1 refl)
            | inr (inl equal) ↦
                rw (equal, load-ok h a 0 n to_right st.1)
                  (seek_loop-Lands (suc fuel) r (passed a k to_right l) x (x ∷ inner) (y ∷ outer) _
                    (omega arith) st.3 (not_left_of key k (inr equal), w) split' refl e1 refl)
            | inr (inr greater) ↦
                rw (greater, load-ok h a 0 n to_left st.1)
                  (seek_loop-Lands (suc fuel) l (passed a k to_left r) x (x ∷ inner) (y ∷ outer) _
                    (omega arith) st.2 (o.cmp_gt k key greater, w) split' refl e1 refl)
          ])

module _ {K V : Type 0} ⦃o : Ord K⦄ (key : K) (h : Heap K V) (r s q p : ℕ) where
  crown-Lands :
      (fuel : ℕ) (t : Tree K V)
      → IsCrown t
      → height t < fuel
      → Stored h.cells t
      → Returns (Lands key (topmost r s q p) h t) (
          seek_loop fuel key
            (record {
              ancestor = shared r 0;
              successor = shared s 0;
              successor_dir = to_left;
              parent = shared s 0;
              leaf = shared (root t) 0;
              leaf_dir = to_left;
            })
            false
            (child (node_of t) to_left)
            to_left
            (quiet h tt))
  unfolding seek_loop
  crown-Lands zero t crown f st = absurd (omega arith)
  crown-Lands (suc fuel) (tip a none) crown f st = returns (
    refl,
    record {
      inner = [];
      parent = above s (tip q none);
      grand = above r (tip p none);
      outer = [];
      leaf = a;
      entry = none;
      shape = refl;
      whole = refl;
      within = tt;
      at = refl;
    },
  )
  crown-Lands (suc fuel) (fork a inf l (tip b none)) crown f st =
      seek_loop-Lands key (topmost r s q p) h (suc fuel) l (above a (tip b none))
        (above s (tip q none)) [] (above r (tip p none) ∷ []) _ (omega arith) st.2 (tt, tt) refl
        refl refl refl
  crown-Lands fuel t crown f st = absurd crown

  pub seek-Lands :
      (depth : ℕ) (t : Tree K V)
      → IsCrown t
      → height t < depth
      → Stored h.cells (plug (topmost r s q p) t)
      → Returns (Lands key (topmost r s q p) h t) (seek depth (shared r 0) key (quiet h tt))
  unfolding seek
  seek-Lands depth t crown f st =
      rw
        (
          load-ok h r 0 (fork_node inf (fork s inf t (tip q none)) (tip p none)) to_left st.1,
          load-ok h s 0 (fork_node inf t (tip q none)) to_left st.2.1,
          load-ok h (root t) 0 (node_of t) to_left (root-node h.cells t st.2.2),
        )
        (crown-Lands depth t crown f st.2.2)
