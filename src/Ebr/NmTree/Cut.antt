-- ===== src/Ebr/NmTree/Cut.antt =====
-- ebr/natarajan_mittal_tree.rs: the tree after a leaf and its parent are cut off.
use mathlib.Core.Path.{subst}
use pebr_benchmark.Base.{
  ℕ, ◌+◌, ◌≤◌, ◌<◌, ◌≡◌, ◌≢◌, ap, ◌∙◌, sym, true, Option, some, inl, inr, List, ◌∷◌, ◌++◌, eq_or_ne,
  arith,
}
use pebr_benchmark.Ord.{Ord}
use pebr_benchmark.SortedMap.{Entries}
use pebr_benchmark.Shared.{shared, hit, hit_self, hit_ne, count}
use pebr_benchmark.World.{ok, quiet}
use pebr_benchmark.Ebr.NmTree.Node.{Heap, put_cell}
use pebr_benchmark.Ebr.NmTree.Map.{cleanup}
use pebr_benchmark.Ebr.NmTree.Tree.{Tree, tip, fork, root, leaf_node, Stored, entries, Ordered}
use pebr_benchmark.Ebr.NmTree.Path.{
  Frame, join, plug, occ, occ_path, occ-join, frame_node, Stored-frame,
}
use pebr_benchmark.Ebr.NmTree.Within.{Within, OrderedPath, Ordered-plug}
use pebr_benchmark.Ebr.NmTree.Leaf.{cut-IsCrown}
use pebr_benchmark.Ebr.NmTree.Landing.{topmost, IsCrown, edges}
use pebr_benchmark.Ebr.NmTree.Represents
use pebr_benchmark.Ebr.NmTree.Represents.{
  Represents, IsAllocated, Replaced, allocated_below, occ-IsAllocated, hit_same, update_here,
}
use pebr_benchmark.Ebr.NmTree.Cleanup.{marked, flagged_node, cleanup-ok}

module _ {K V : Type 0} ⦃o : Ord K⦄ {h : Heap K V} {r : ℕ} {xs : Entries K V}
    (m : Represents h r xs) (x y : Frame K V) (inner outer : List (Frame K V)) (a : ℕ)
    (e : Option (K × V)) (shape : m.tree ≡ plug (x ∷ inner) (tip a e))
    (whole : inner ++ topmost r m.s m.q m.p ≡ y ∷ outer) where
  -- The parent and its two subtrees, of which the sibling stays.
  abbrev cut : Tree K V
  cut = join x.addr x.key x.dir (tip a e) x.sibling

  abbrev flagged_heap : Heap K V
  flagged_heap = put_cell h x.addr (flagged_node x a)

  abbrev after : Heap K V
  after =
      record (put_cell (put_cell flagged_heap x.addr (marked x.key x.dir a (root x.sibling))) y.addr
        (frame_node y (root x.sibling))) { deferred = shared a 2 ∷ shared x.addr 0 ∷ h.deferred }

  up : (x ∷ inner) ++ topmost r m.s m.q m.p ≡ x ∷ y ∷ outer
  up = ap (λ path. x ∷ path) whole

  abbrev Parts : Type 0
  Parts =
      (0 < x.addr)
      × (h.cells x.addr ≡ some (frame_node x a))
      × Stored h.cells x.sibling
      × (h.cells y.addr ≡ some (frame_node y x.addr))
      × (0 < a)
      × (h.cells a ≡ some (leaf_node e))

  there : Parts
  there =
      let (around, leaf) = Represents.parts m (x ∷ inner) x (y ∷ outer) (tip a e) shape up in
      (around.0, around.1, around.2, around.3.1, leaf.0, leaf.1)

  books_x :
      (b : ℕ)
      → IsAllocated h b
      → hit b x.addr
          + occ b x.sibling
          + (hit b y.addr + occ b y.sibling + occ_path b outer)
          + hit b a
          + count b h.deferred
        ≡ 1
  books_x = Represents.books m (x ∷ inner) x (y ∷ outer) (tip a e) shape up

  x-ne-y : x.addr ≢ y.addr
  x-ne-y same =
      omega (arith, books_x x.addr (_, there.1), hit_self x.addr, hit_same x.addr y.addr same)

  a-ne-x : a ≢ x.addr
  a-ne-x same = omega (arith, books_x a (_, there.5), hit_self a, hit_same a x.addr same)

  a-ne-y : a ≢ y.addr
  a-ne-y same = omega (arith, books_x a (_, there.5), hit_self a, hit_same a y.addr same)

  sibling_apart : (b : ℕ) → 0 < occ b x.sibling → (b ≢ x.addr) × (b ≢ y.addr) × (b ≢ a)
  sibling_apart b inside =
      let books = books_x b (occ-IsAllocated h x.sibling b there.2 inside).1 in
      (
        λ same. omega (arith, books, hit_same b x.addr same),
        λ same. omega (arith, books, hit_same b y.addr same),
        λ same. omega (arith, books, hit_same b a same),
      )

  root_apart : (root x.sibling ≢ x.addr) × (root x.sibling ≢ y.addr) × (root x.sibling ≢ a)
  root_apart = sibling_apart (root x.sibling) (root_inside x.sibling)
    where
      root_inside : (t : Tree K V) → 0 < occ (root t) t
      root_inside (tip b p) = omega (arith, hit_self b)
      root_inside (fork b k l s) = omega (arith, hit_self b)

  after_y : after.cells y.addr ≡ some (frame_node y (root x.sibling))
  after_y = ground arith

  after_x : after.cells x.addr ≡ some (marked x.key x.dir a (root x.sibling))
  after_x = ground (arith, x-ne-y)

  after-same : (b : ℕ) → b ≢ x.addr → b ≢ y.addr → after.cells b ≡ h.cells b
  after-same b bx by = ground arith

  old-after : (b : ℕ) → IsAllocated h b → IsAllocated after b
  old-after b (n, c) = elim (eq_or_ne b y.addr) [
    | inl at_y ↦ rw at_y (_, after_y)
    | inr not_y ↦ elim (eq_or_ne b x.addr) [
      | inl at_x ↦ rw at_x (_, after_x)
      | inr not_x ↦ (n, after-same b not_x not_y ∙ c)
    ]
  ]

  after-old : (b : ℕ) → IsAllocated after b → IsAllocated h b
  after-old b (n, c) = elim (eq_or_ne b y.addr) [
    | inl at_y ↦ rw at_y (_, there.3)
    | inr not_y ↦ elim (eq_or_ne b x.addr) [
      | inl at_x ↦ rw at_x (_, there.1)
      | inr not_x ↦ (n, sym (after-same b not_x not_y) ∙ c)
    ]
  ]

  occ-cut : (b : ℕ) → occ b cut ≡ hit b x.addr + hit b a + occ b x.sibling
  occ-cut b = occ-join b x.addr x.key x.dir (tip a e) x.sibling

  only_after : (b : ℕ) → 0 < count b after.deferred → IsAllocated after b
  unfolding count
  only_after b pos = elim (eq_or_ne b a) [
    | inl at_a ↦ old-after b (rw at_a (_, there.5))
    | inr not_a ↦ elim (eq_or_ne b x.addr) [
      | inl at_x ↦ old-after b (rw at_x (_, there.1))
      | inr not_x ↦ old-after b (m.only b (omega (arith, hit_ne b a not_a, hit_ne b x.addr not_x)))
    ]
  ]

  module _ {ys : Entries K V} (key : K) (within : Within (x ∷ inner) key)
      (listed : entries (plug inner x.sibling) ≡ ys) where
    ordered_path : OrderedPath (x ∷ inner)
    ordered_path = (Ordered-plug (x ∷ inner) (tip a e) (subst Ordered shape m.ordered)).0

    after-Replaced : Replaced m inner y outer cut shape whole after x.sibling ys
    unfolding count
    after-Replaced = record {
      swung = after_y;
      same = λ b ne out there.
          after-same b (λ at_x. omega (arith, out, occ-cut b, hit_same b x.addr at_x)) ne;
      there =
          Stored-frame x.sibling
            (λ b inside. let (bx, by, _) = sibling_apart b inside in after-same b bx by) there.2;
      ordered = ordered_path.2;
      bounded = ordered_path.1;
      crown = cut-IsCrown key x inner (tip a e) within (subst IsCrown shape m.crown);
      listed = listed;
      positive = m.positive;
      unused = λ b beyond. ground (
        arith,
        allocated_below m x.addr (_, there.1),
        allocated_below m y.addr (_, there.3),
        m.unused b,
      );
      accounted = λ b live. inl (after-old b live, omega (arith, occ-cut b));
      only = only_after;
    }

    pub after-Represents : Represents after r ys
    after-Represents = Represents.Replaced-Represents m inner y outer cut shape whole after-Replaced

  pub cut-ok :
      (depth : ℕ)
      → 6 ≤ depth
      → cleanup depth (edges x y a) (quiet flagged_heap tt) ≡ ok true (quiet after tt)
  cut-ok depth enough =
      cleanup-ok flagged_heap x y a e (ground arith) (ground (arith, there.3, x-ne-y))
        (ground (arith, there.5, a-ne-x)) there.0 there.4 x-ne-y a-ne-x a-ne-y
        (λ same. root_apart.0 (sym same)) (λ same. root_apart.2 (sym same)) depth enough
