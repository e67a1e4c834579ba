-- ===== src/Ebr/BonsaiTree/Made.antt =====
-- What a step of rebuilding the tree of ebr/bonsai_tree.rs leaves behind, and `mk_node`.
use pebr_benchmark.Base.{
  ℕ, ◌+◌, ◌≤◌, ◌<◌, ◌≡◌, refl, ◌++◌, [], ◌∷◌, none, some, arith, inl, inr, ◌==◌, Bool-cases, ◌∙◌,
}
use pebr_benchmark.SortedMap.{Entries}
use pebr_benchmark.Shared.{Shared, shared, hit, count, count-snoc}
use pebr_benchmark.World.{ok, quiet}
use pebr_benchmark.Ebr.BonsaiTree.Node.{Node, Heap, State, update, alloc}
use pebr_benchmark.Ebr.BonsaiTree.State.{add_new_node, mk_node}
use pebr_benchmark.Ebr.BonsaiTree.Tree.{
  Tree, node, entries, occ, ptr, cell, Stored, Keeps, Stored-mono, spot-ok, size-ok,
}

abbrev pub noted : State → ℕ → State
noted s a = record s { new_nodes = s.new_nodes ++ shared a 0 ∷ [] }

abbrev pub retiring : State → Shared → State
retiring s p = record s { retired_nodes = s.retired_nodes ++ p ∷ [] }

module _ {K V : Type 0} where
  -- The allocator and `new_nodes`: the addresses below `fresh` are allocated, and `new_nodes`
  -- lists just those from `base` on, each once.
  pub record IsGood (base : ℕ) (h : Heap K V) (s : State) : Type 0 where
    pub positive : 0 < base
    pub base_le : base ≤ h.fresh
    pub unused : (a : ℕ) → h.fresh ≤ a → h.cells a ≡ none
    pub live : (a : ℕ) → 0 < a → a < h.fresh → (n : Node K V) × (h.cells a ≡ some n)
    pub once : (a : ℕ) → base ≤ a → a < h.fresh → count a s.new_nodes ≡ 1
    pub old : (a : ℕ) → a < base → count a s.new_nodes ≡ 0
    pub future : (a : ℕ) → h.fresh ≤ a → count a s.new_nodes ≡ 0

  -- From one state to a later one: only unused cells are written.
  pub record Grows (base : ℕ) (h h' : Heap K V) (s' : State) : Type 0 where
    pub same_root : h'.root ≡ h.root
    pub same_deferred : h'.deferred ≡ h.deferred
    pub keeps : Keeps h.cells h'.cells
    pub good : IsGood base h' s'

  -- A pointer to a tree with the entries `xs`. Each address counts as often in the tree and the
  -- newly retired nodes as in what the tree was made of (`used`) and the newly allocated nodes.
  pub record Made (base : ℕ) (xs : Entries K V) (used : ℕ → ℕ) (h : Heap K V) (s : State)
      (p : Shared) (h' : Heap K V) (s' : State) : Type 0 where
    pub tree : Tree K V
    pub is_ptr : p ≡ ptr tree
    pub stored : Stored h'.cells tree
    pub holds : entries tree ≡ xs
    pub grows : Grows base h h' s'
    pub books :
        (a : ℕ)
        → occ a tree + count a s'.retired_nodes + count a s.new_nodes
          ≡ used a + count a s.retired_nodes + count a s'.new_nodes

  abbrev pub grown : Heap K V → Node K V → Heap K V
  grown h n = record h { cells = update h.cells h.fresh (some n); fresh = h.fresh + 1 }

  pub Grows-refl : {base : ℕ} {h : Heap K V} {s : State} → IsGood base h s → Grows base h h s
  Grows-refl g = record { same_root = refl; same_deferred = refl; keeps = λ a n e. e; good = g }

  pub Grows-trans :
      {base : ℕ} {h h' h'' : Heap K V} {s' s'' : State}
      → Grows base h h' s'
      → Grows base h' h'' s''
      → Grows base h h'' s''
  Grows-trans g k = record {
    same_root = k.same_root ∙ g.same_root;
    same_deferred = k.same_deferred ∙ g.same_deferred;
    keeps = λ a n e. k.keeps a n (g.keeps a n e);
    good = k.good;
  }

  pub Grows-grown :
      {base : ℕ} (h : Heap K V) (s : State) (n : Node K V)
      → IsGood base h s
      → Grows base h (grown h n) (noted s h.fresh)
  unfolding hit
  Grows-grown h s n g = record {
    same_root = refl;
    same_deferred = refl;
    keeps = λ a m e. ground (arith, g.unused a);
    good = record {
      positive = g.positive;
      base_le = omega (arith, g.base_le);
      unused = λ a b. ground (arith, g.unused a);
      live = λ a p q. elim (Bool-cases (a == h.fresh)) [
        | inl e ↦ (n, rw e)
        | inr e ↦ let (m, c) = g.live a p (ground arith) in (m, rw e c)
      ];
      once = λ a p q.
          ground (arith, g.once a, g.future a, count-snoc a s.new_nodes (shared h.fresh 0));
      old = λ a b. ground (arith, g.base_le, g.old a, count-snoc a s.new_nodes (shared h.fresh 0));
      future = λ a b. ground (arith, g.future a, count-snoc a s.new_nodes (shared h.fresh 0));
    };
  }

  pub Grows-retiring :
      {base : ℕ} {h h' : Heap K V} {s' : State} (p : Shared)
      → Grows base h h' s'
      → Grows base h h' (retiring s' p)
  Grows-retiring p g = record {
    same_root = g.same_root;
    same_deferred = g.same_deferred;
    keeps = g.keeps;
    good = record {
      positive = g.good.positive;
      base_le = g.good.base_le;
      unused = g.good.unused;
      live = g.good.live;
      once = g.good.once;
      old = g.good.old;
      future = g.good.future;
    };
  }

  pub mk_node-ok :
      (h : Heap K V) (s : State) (l r : Tree K V) (k : K) (v : V)
      → Stored h.cells l
      → Stored h.cells r
      → mk_node (ptr l) (ptr r) k v (quiet h s)
        ≡ ok (shared h.fresh 0) (quiet (grown h (cell l k v r)) (noted s h.fresh))
  unfolding mk_node alloc add_new_node
  mk_node-ok h s l r k v sl sr =
      rw (spot-ok h s l sl, spot-ok h s r sr, size-ok h s l sl, size-ok h s r sr)

  pub Stored-grown :
      {base : ℕ} (h : Heap K V) (s : State) (l r : Tree K V) (k : K) (v : V)
      → IsGood base h s
      → Stored h.cells l
      → Stored h.cells r
      → Stored (grown h (cell l k v r)).cells (node h.fresh l k v r)
  Stored-grown h s l r k v g sl sr =
      let keep = (Grows-grown h s (cell l k v r) g).keeps in
      (
        omega (arith, g.positive, g.base_le),
        ground arith,
        Stored-mono keep l sl,
        Stored-mono keep r sr,
      )
