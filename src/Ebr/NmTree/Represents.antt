-- ===== src/Ebr/NmTree/Represents.antt =====
-- ebr/natarajan_mittal_tree.rs: the map that a tree in memory stands for, and what is true of it
-- after a subtree is replaced.
use mathlib.Core.Path.{subst}
use pebr_benchmark.Base.{
  ℕ, ◌+◌, ◌≤◌, ◌<◌, ◌≡◌, ◌≢◌, ap, ◌∙◌, sym, Option, none, some, ◌⊎◌, inl, inr, List, ◌∷◌, ◌++◌,
  zero_or_pos, eq_or_ne, lt_or_ge, arith,
}
use pebr_benchmark.Ord.{Ord}
use pebr_benchmark.SortedMap.{Entries}
use pebr_benchmark.Shared.{hit, count, hit_self, hit_ne}
use pebr_benchmark.Ebr.NmTree.Node.{Node, Heap, update}
use pebr_benchmark.Ebr.NmTree.Tree.{Tree, tip, fork, root, Stored, entries, Ordered}
use pebr_benchmark.Ebr.NmTree.Path.{
  Frame, plug, plug-append, occ, occ_path, occ-plug, frame_node, Around, plug-Stored, Stored-plug,
  Stored-frame, Around-frame,
}
use pebr_benchmark.Ebr.NmTree.Within.{Bounded, plug-Ordered, Ordered-plug}
use pebr_benchmark.Ebr.NmTree.Landing.{topmost, IsCrown}

pub hit_same : (a b : ℕ) → a ≡ b → hit a b ≡ 1
hit_same a b e = rw e (hit_self b)

module _ {K V : Type 0} where
  abbrev pub IsAllocated : Heap K V → ℕ → Type 0
  IsAllocated h a = (n : Node K V) × (h.cells a ≡ some n)

  pub update_here : (c : ℕ → Option (Node K V)) (a : ℕ) (n : Option (Node K V)) → update c a n a ≡ n
  update_here c a n = ground arith

  pub update_there :
      (c : ℕ → Option (Node K V)) (a b : ℕ) (n : Option (Node K V)) → b ≢ a → update c a n b ≡ c b
  update_there c a b n ne = ground arith

  -- A stored tree occupies allocated addresses only.
  pub occ-IsAllocated :
      (h : Heap K V) (t : Tree K V) (a : ℕ)
      → Stored h.cells t
      → 0 < occ a t
      → (0 < a) × IsAllocated h a
  occ-IsAllocated h (tip b e) a st inside = elim (eq_or_ne a b) [
    | inl same ↦ rw same (st.0, (_, st.1))
    | inr ne ↦ absurd (omega (arith, hit_ne a b ne))
  ]
  occ-IsAllocated h (fork b k l r) a st inside = elim (eq_or_ne a b) [
    | inl same ↦ rw same (st.0, (_, st.1))
    | inr ne ↦ elim (zero_or_pos (occ a l)) [
      | inl right ↦ occ-IsAllocated h r a st.3 (omega (arith, hit_ne a b ne))
      | inr left ↦ occ-IsAllocated h l a st.2 left
    ]
  ]

module _ {K V : Type 0} ⦃o : Ord K⦄ where
  -- The map at the address `r` holds the entries `xs`, in key order. Every allocated node is in the
  -- tree or was given to the collector, just once.
  pub record Represents (h : Heap K V) (r : ℕ) (xs : Entries K V) : Type 0 where
    pub s : ℕ
    pub q : ℕ
    pub p : ℕ
    pub tree : Tree K V
    pub stored : Stored h.cells (plug (topmost r s q p) tree)
    pub crown : IsCrown tree
    pub ordered : Ordered tree
    pub listed : entries tree ≡ xs
    pub positive : 0 < h.fresh
    pub unused : (a : ℕ) → h.fresh ≤ a → h.cells a ≡ none
    pub accounted :
        (a : ℕ) → IsAllocated h a → occ a (plug (topmost r s q p) tree) + count a h.deferred ≡ 1
    pub only : (a : ℕ) → 0 < count a h.deferred → IsAllocated h a

  pub allocated_below :
      {h : Heap K V} {r : ℕ} {xs : Entries K V} (m : Represents h r xs) (a : ℕ)
      → IsAllocated h a
      → a < h.fresh
  allocated_below {h} m a (n, e) = elim (lt_or_ge a h.fresh) [
    | inl below ↦ below
    | inr beyond ↦ cc (e, m.unused a beyond)
  ]

  module _ {h : Heap K V} {r : ℕ} {xs : Entries K V} (m : Represents h r xs)
      (inner : List (Frame K V)) (z : Frame K V) (rest : List (Frame K V)) (u : Tree K V)
      (shape : m.tree ≡ plug inner u) (whole : inner ++ topmost r m.s m.q m.p ≡ z ∷ rest) where
    pub whole-plug :
        (v : Tree K V) → plug (topmost r m.s m.q m.p) (plug inner v) ≡ plug (z ∷ rest) v
    whole-plug v =
        sym (plug-append inner (topmost r m.s m.q m.p) v) ∙ ap (λ path. plug path v) whole

    pub seen : plug (topmost r m.s m.q m.p) m.tree ≡ plug (z ∷ rest) u
    seen = ap (plug (topmost r m.s m.q m.p)) shape ∙ whole-plug u

    pub parts : Around h.cells (z ∷ rest) (root u) × Stored h.cells u
    parts = Stored-plug h.cells (z ∷ rest) u (subst (Stored h.cells) seen m.stored)

    -- An address occurs once, in the subtree, on the way, or with the collector.
    pub books : (a : ℕ) → IsAllocated h a → occ_path a (z ∷ rest) + occ a u + count a h.deferred ≡ 1
    books a there = omega (arith, m.accounted a there, ap (occ a) seen, occ-plug a (z ∷ rest) u)

    on_way-IsAllocated : (a : ℕ) → 0 < occ_path a (z ∷ rest) → IsAllocated h a
    on_way-IsAllocated a inside =
        (occ-IsAllocated h (plug (z ∷ rest) u) a (subst (Stored h.cells) seen m.stored)
          (omega (arith, occ-plug a (z ∷ rest) u))).1

    -- Another subtree takes the place of `u`.
    pub record Replaced (h' : Heap K V) (v : Tree K V) (ys : Entries K V) : Type 0 where
      pub swung : h'.cells z.addr ≡ some (frame_node z (root v))
      pub same : (a : ℕ) → a ≢ z.addr → occ a u ≡ 0 → IsAllocated h a → h'.cells a ≡ h.cells a
      pub there : Stored h'.cells v
      pub ordered : Ordered v
      pub bounded : Bounded inner (entries v)
      pub crown : IsCrown (plug inner v)
      pub listed : entries (plug inner v) ≡ ys
      pub positive : 0 < h'.fresh
      pub unused : (a : ℕ) → h'.fresh ≤ a → h'.cells a ≡ none
      pub accounted :
          (a : ℕ)
          → IsAllocated h' a
          → (IsAllocated h a × (occ a v + count a h'.deferred ≡ occ a u + count a h.deferred))
            ⊎ (h.cells a ≡ none) × (occ a v + count a h'.deferred ≡ 1)
      pub only : (a : ℕ) → 0 < count a h'.deferred → IsAllocated h' a

    module _ {h' : Heap K V} {v : Tree K V} {ys : Entries K V} (c : Replaced h' v ys) where
      kept : (a : ℕ) → 0 < occ a z.sibling + occ_path a rest → h'.cells a ≡ h.cells a
      kept a inside =
          let there = on_way-IsAllocated a (omega arith) in
          let apart : a ≢ z.addr = λ e. omega (arith, books a there, hit_same a z.addr e) in
          c.same a apart (omega (arith, books a there)) there

      way : Around h'.cells (z ∷ rest) (root v)
      way = (
        parts.0.0,
        c.swung,
        Stored-frame z.sibling (λ a inside. kept a (omega arith)) parts.0.2,
        Around-frame rest z.addr (λ a inside. kept a (omega arith)) parts.0.3,
      )

      once : (a : ℕ) → IsAllocated h' a → occ_path a (z ∷ rest) + occ a v + count a h'.deferred ≡ 1
      once a there = elim (c.accounted a there) [
        | inl (old, e) ↦ omega (arith, books a old, e)
        | inr (gone, e) ↦ elim (zero_or_pos (occ_path a (z ∷ rest))) [
          | inl out ↦ omega (arith, out, e)
          | inr inside ↦ let (n, e') = on_way-IsAllocated a inside in cc (e', gone)
        ]
      ]

      pub Replaced-Represents : Represents h' r ys
      Replaced-Represents = record {
        s = m.s;
        q = m.q;
        p = m.p;
        tree = plug inner v;
        stored =
            subst (Stored h'.cells) (sym (whole-plug v))
              (plug-Stored h'.cells (z ∷ rest) v way c.there);
        crown = c.crown;
        ordered =
            plug-Ordered inner v (Ordered-plug inner u (subst Ordered shape m.ordered)).0 c.ordered
              c.bounded;
        listed = c.listed;
        positive = c.positive;
        unused = c.unused;
        accounted = λ a there.
            omega (arith, once a there, ap (occ a) (whole-plug v), occ-plug a (z ∷ rest) v);
        only = c.only;
      }
