-- ===== src/Ebr/NmTree/Cleanup.antt =====
-- ebr/natarajan_mittal_tree.rs: an undisturbed `cleanup` after the edge to a leaf was flagged.
use pebr_benchmark.Base.{
  ℕ, suc, ◌-◌, ◌≤◌, ◌<◌, ◌≡◌, ◌≢◌, refl, ◌∙◌, true, false, ◌||◌, Option, none, some, List, [], ◌∷◌,
  arith,
}
use pebr_benchmark.Shared.{Shared, shared, null, is_null, ◌=ₚ◌}
use pebr_benchmark.World.{ok, quiet}
use pebr_benchmark.Ebr.NmTree.Node.{
  Key, Node, Direction, to_left, to_right, opposite, child, set_child, Heap, put_cell, tag_edge,
  defer_destroy,
}
use pebr_benchmark.Ebr.NmTree.Seek.{unmarked}
use pebr_benchmark.Ebr.NmTree.Map.{destroy, cleanup}
use pebr_benchmark.Ebr.NmTree.Tree.{Tree, root, leaf_node}
use pebr_benchmark.Ebr.NmTree.Access.{load-ok}
use pebr_benchmark.Ebr.NmTree.Path.{Frame, frame_node}
use pebr_benchmark.Ebr.NmTree.Landing.{edges}
use pebr_benchmark.Ebr.NmTree.Swing.{compare_and_set-ok, child-frame, set_child-frame}

module _ {K V : Type 0} where
  tag_edge-ok :
      (h : Heap K V) (a t : ℕ) (d : Direction) (n : Node K V) (b : ℕ)
      → h.cells a ≡ some n
      → child n d ≡ shared b 0
      → tag_edge (shared a t) d (quiet h tt)
        ≡ ok tt (quiet (put_cell h a (set_child n d (shared b 1))) tt)
  unfolding tag_edge
  tag_edge-ok h a t d n b e f = rw (e, f) refl

  -- The edge to the leaf `a` is flagged, that to the leaf's sibling is tagged.
  abbrev pub marked : Key K → Direction → (a b : ℕ) → Node K V
  marked k to_left a b = record { key = k; value = none; left = shared a 2; right = shared b 1 }
  marked k to_right a b = record { key = k; value = none; left = shared b 1; right = shared a 2 }

  module _ (b : ℕ) where
    destroy-skip :
        (h : Heap K V) (fuel : ℕ) (p : Shared) (stack : List Shared)
        → (is_null p || (unmarked p =ₚ unmarked (shared b 1))) ≡ true
        → destroy (suc fuel) (shared b 1) (p ∷ stack) (quiet h tt)
          ≡ destroy fuel (shared b 1) stack (quiet h tt)
    unfolding destroy
    destroy-skip h fuel p stack e = rw e refl

    destroy-done :
        (h : Heap K V) (fuel : ℕ)
        → destroy (suc fuel) (shared b 1) [] (quiet h tt) ≡ ok tt (quiet h tt)
    unfolding destroy
    destroy-done h fuel = refl

    destroy-node :
        (h : Heap K V) (fuel x t : ℕ) (n : Node K V) (stack : List Shared)
        → h.cells x ≡ some n
        → 0 < x
        → x ≢ b
        → destroy (suc fuel) (shared b 1) (shared x t ∷ stack) (quiet h tt)
          ≡ destroy fuel
              (shared b 1)
              (n.right ∷ n.left ∷ stack)
              (quiet (record h { deferred = shared x t ∷ h.deferred }) tt)
    unfolding destroy defer_destroy
    destroy-node h fuel x t n stack e pos ne =
        let other : (is_null (shared x t) || (unmarked (shared x t) =ₚ unmarked (shared b 1)))
            ≡ false =
          ground arith in
        rw (other, load-ok h x t n to_left e, load-ok h x t n to_right e) refl

    -- A leaf has no children.
    destroy-leaf :
        (h : Heap K V) (fuel a t : ℕ) (e : Option (K × V)) (stack : List Shared)
        → h.cells a ≡ some (leaf_node e)
        → 0 < a
        → a ≢ b
        → destroy (suc (suc (suc fuel))) (shared b 1) (shared a t ∷ stack) (quiet h tt)
          ≡ destroy fuel
              (shared b 1)
              stack
              (quiet (record h { deferred = shared a t ∷ h.deferred }) tt)
    destroy-leaf h fuel a t none stack e pos ne =
        destroy-node h (suc (suc fuel)) a t (leaf_node none) stack e pos ne
        ∙ destroy-skip _ (suc fuel) null (null ∷ stack) refl
        ∙ destroy-skip _ fuel null stack refl
    destroy-leaf h fuel a t (some p) stack e pos ne =
        destroy-node h (suc (suc fuel)) a t (leaf_node (some p)) stack e pos ne
        ∙ destroy-skip _ (suc fuel) null (null ∷ stack) refl
        ∙ destroy-skip _ fuel null stack refl

    -- `destroy` defers the parent and the leaf, and passes over the sibling.
    destroy-ok :
        (h : Heap K V) (fuel x a : ℕ) (k : Key K) (d : Direction) (e : Option (K × V))
        → h.cells x ≡ some (marked k d a b)
        → h.cells a ≡ some (leaf_node e)
        → 0 < x
        → 0 < a
        → x ≢ b
        → a ≢ b
        → destroy
            (suc (suc (suc (suc (suc (suc fuel))))))
            (shared b 1)
            (shared x 0 ∷ [])
            (quiet h tt)
          ≡ ok tt (quiet (record h { deferred = shared a 2 ∷ shared x 0 ∷ h.deferred }) tt)
    destroy-ok h fuel x a k to_left e ex ea px pa xb ab =
        let h' = record h { deferred = shared x 0 ∷ h.deferred } in
        destroy-node h (suc (suc (suc (suc (suc fuel))))) x 0 (marked k to_left a b) [] ex px xb
        ∙ destroy-skip h' (suc (suc (suc (suc fuel)))) (shared b 1) (shared a 2 ∷ []) (ground arith)
        ∙ destroy-leaf h' (suc fuel) a 2 e [] ea pa ab
        ∙ destroy-done (record h { deferred = shared a 2 ∷ shared x 0 ∷ h.deferred }) fuel
    destroy-ok h fuel x a k to_right e ex ea px pa xb ab =
        let h' = record h { deferred = shared x 0 ∷ h.deferred } in
        let h'' = record h { deferred = shared a 2 ∷ shared x 0 ∷ h.deferred } in
        destroy-node h (suc (suc (suc (suc (suc fuel))))) x 0 (marked k to_right a b) [] ex px xb
        ∙ destroy-leaf h' (suc (suc fuel)) a 2 e (shared b 1 ∷ []) ea pa ab
        ∙ destroy-skip h'' (suc fuel) (shared b 1) [] (ground arith)
        ∙ destroy-done h'' fuel

  child-set : (n : Node K V) (d : Direction) (p : Shared) → child (set_child n d p) d ≡ p
  child-set n to_left p = refl
  child-set n to_right p = refl

  module _ (x : Frame K V) (a : ℕ) where
    abbrev pub flagged_node : Node K V
    flagged_node = set_child (frame_node x a) x.dir (shared a 2)

    sibling-flagged : child flagged_node (opposite x.dir) ≡ shared (root x.sibling) 0
    sibling-flagged = go x.addr x.key x.dir x.sibling
      where
        go :
            (c : ℕ) (k : Key K) (d : Direction) (v : Tree K V)
            → child
                (set_child
                  (frame_node (record { addr = c; key = k; dir = d; sibling = v }) a)
                  d
                  (shared a 2))
                (opposite d)
              ≡ shared (root v) 0
        go c k to_left v = refl
        go c k to_right v = refl

    tagged-flagged :
        set_child flagged_node (opposite x.dir) (shared (root x.sibling) 1)
        ≡ marked x.key x.dir a (root x.sibling)
    tagged-flagged = go x.addr x.key x.dir x.sibling
      where
        go :
            (c : ℕ) (k : Key K) (d : Direction) (v : Tree K V)
            → set_child
                (set_child
                  (frame_node (record { addr = c; key = k; dir = d; sibling = v }) a)
                  d
                  (shared a 2))
                (opposite d)
                (shared (root v) 1)
              ≡ marked k d a (root v)
        go c k to_left v = refl
        go c k to_right v = refl

    tagged-child :
        child (marked x.key x.dir a (root x.sibling)) (opposite x.dir) ≡ shared (root x.sibling) 1
    tagged-child = go x.key x.dir (root x.sibling)
      where
        go : (k : Key K) (d : Direction) (b : ℕ) → child (marked k d a b) (opposite d) ≡ shared b 1
        go k to_left b = refl
        go k to_right b = refl

  module _ (h : Heap K V) (x y : Frame K V) (a : ℕ) (e : Option (K × V))
      (x_there : h.cells x.addr ≡ some (flagged_node x a))
      (y_there : h.cells y.addr ≡ some (frame_node y x.addr))
      (a_there : h.cells a ≡ some (leaf_node e)) (px : 0 < x.addr) (pa : 0 < a)
      (xy : x.addr ≢ y.addr) (ax : a ≢ x.addr) (ay : a ≢ y.addr) (xb : x.addr ≢ root x.sibling)
      (ab : a ≢ root x.sibling) where
    abbrev b : ℕ
    b = root x.sibling

    abbrev tagged : Heap K V
    tagged = put_cell h x.addr (marked x.key x.dir a b)

    -- The leaf's sibling takes the place of the parent, and both are with the collector.
    abbrev pub cleaned : Heap K V
    cleaned = record (put_cell tagged y.addr (frame_node y b)) {
      deferred = shared a 2 ∷ shared x.addr 0 ∷ h.deferred;
    }

    pub cleanup-ok :
        (depth : ℕ)
        → 6 ≤ depth
        → cleanup depth (edges x y a) (quiet h tt) ≡ ok true (quiet cleaned tt)
    unfolding cleanup
    cleanup-ok depth enough =
        let six : depth ≡ suc (suc (suc (suc (suc (suc (depth - 6)))))) = omega arith in
        rw
          (
            load-ok h x.addr 0 (flagged_node x a) x.dir x_there,
            child-set (frame_node x a) x.dir (shared a 2),
            tag_edge-ok h x.addr 0 (opposite x.dir) (flagged_node x a) b x_there
                (sibling-flagged x a),
            tagged-flagged x a,
            load-ok tagged x.addr 0 (marked x.key x.dir a b) (opposite x.dir) (ground arith),
            tagged-child x a,
            compare_and_set-ok tagged y.addr 0 y.dir (frame_node y x.addr) (shared x.addr 0)
                (shared b 0) (ground (arith, y_there)) (child-frame y x.addr),
            set_child-frame y x.addr b,
            six,
            destroy-ok b (put_cell tagged y.addr (frame_node y b)) (depth - 6) x.addr a x.key x.dir
                e (ground arith) (ground (arith, a_there)) px pa xb ab,
          )
          refl
