-- ===== src/Ebr/BonsaiTree/Pull.antt =====
-- `pull_leftmost` and `pull_rightmost` of ebr/bonsai_tree.rs split off the first and last entry.
use pebr_benchmark.Base.{ℕ, zero, suc, ◌+◌, ◌<◌, ◌≡◌, refl, [], ◌++◌, ◌∷◌, arith, append_assoc}
use pebr_benchmark.SortedMap.{Entries}
use pebr_benchmark.Shared.{Shared, shared, hit, count, count-snoc}
use pebr_benchmark.World.{quiet}
use pebr_benchmark.World.Returns
use pebr_benchmark.World.Returns.{Returns, returns}
use pebr_benchmark.Ebr.BonsaiTree.Node.{Heap, State}
use pebr_benchmark.Ebr.BonsaiTree.State.{retire_node}
use pebr_benchmark.Ebr.BonsaiTree.Edit.{pull_leftmost, pull_rightmost}
use pebr_benchmark.Ebr.BonsaiTree.Tree.{
  Tree, leaf, node, entries, occ, ptr, cell, Stored, Stored-mono, not_null, deref-ok, load_left-ok,
  load_right-ok, spot-ok,
}
use pebr_benchmark.Ebr.BonsaiTree.Made.{
  IsGood, Grows, Grows-trans, Grows-grown, Grows-retiring, mk_node-ok, Stored-grown,
}
use pebr_benchmark.Ebr.BonsaiTree.Rebalance.{mk_balanced-Rebuilt}
use pebr_benchmark.Ebr.BonsaiTree.Insert.{height}

module _ {K V : Type 0} where
  -- The tree that is left, and the new node `at` for the entry split off, which `glue` puts back.
  pub record Pulled (base : ℕ) (glue : Entries K V → K × V → Entries K V) (t : Tree K V)
      (h : Heap K V) (s : State) (p : Shared × Shared) (h' : Heap K V) (s' : State) : Type 0 where
    pub tree : Tree K V
    pub at : ℕ
    pub key : K
    pub value : V
    pub is_ptr : p.0 ≡ ptr tree
    pub is_succ : p.1 ≡ shared at 0
    pub stored : Stored h'.cells tree
    pub succ_stored : Stored h'.cells (node at leaf key value leaf)
    pub split : entries t ≡ glue (entries tree) (key, value)
    pub grows : Grows base h h' s'
    pub books :
        (a : ℕ)
        → occ a tree + hit a at + count a s'.retired_nodes + count a s.new_nodes
          ≡ occ a t + count a s.retired_nodes + count a s'.new_nodes

  abbrev pub glue_last : Entries K V → K × V → Entries K V
  glue_last xs e = xs ++ e ∷ []

  abbrev pub glue_first : Entries K V → K × V → Entries K V
  glue_first xs e = e ∷ xs

module _ {K V : Type 0} (base : ℕ) where
  pub pull_rightmost-Pulled :
      (fuel : ℕ) (a : ℕ) (l : Tree K V) (k : K) (v : V) (r : Tree K V) (h : Heap K V) (s : State)
      → height (node a l k v r) < fuel
      → IsGood base h s
      → Stored h.cells (node a l k v r)
      → Returns
          (Pulled base glue_last (node a l k v r) h s)
          (pull_rightmost fuel (shared a 0) (quiet h s))
  unfolding pull_rightmost retire_node
  pull_rightmost-Pulled zero a l k v r h s f g st = absurd (omega arith)
  pull_rightmost-Pulled (suc fuel) a l k v leaf h s f g st =
      let grow = Grows-grown h s (cell leaf k v leaf) g in
      rw
        (
          spot-ok h s (node a l k v leaf) st,
          deref-ok h s a l k v leaf st,
          load_left-ok h s a l k v leaf st,
          load_right-ok h s a l k v leaf st,
          spot-ok h s l st.2,
          spot-ok h s leaf tt,
          mk_node-ok h s leaf leaf k v tt tt,
        )
        (returns (record {
          tree = l;
          at = h.fresh;
          key = k;
          value = v;
          is_ptr = refl;
          is_succ = refl;
          stored = Stored-mono grow.keeps l st.2;
          succ_stored = Stored-grown h s leaf leaf k v g tt tt;
          split = refl;
          grows = Grows-retiring (shared a 0) grow;
          books = λ b. omega (arith, count-snoc);
        }))
  pull_rightmost-Pulled (suc fuel) a l k v (node b rl rk rv rr) h s f g st =
      let r = node b rl rk rv rr in
      rw
        (
          spot-ok h s (node a l k v r) st,
          deref-ok h s a l k v r st,
          load_left-ok h s a l k v r st,
          load_right-ok h s a l k v r st,
          spot-ok h s l st.2,
          spot-ok h s r st.3,
          not_null b st.3.0,
        )
        (Returns.bind _ (pull_rightmost-Pulled fuel b rl rk rv rr h s (omega arith) g st.3)
          λ p h' s' m. rw (m.is_ptr) (
            Returns.bind _
              (mk_balanced-Rebuilt base h' s' a l k v r l m.tree m.grows.good
                (Stored-mono m.grows.keeps (node a l k v r) st) (Stored-mono m.grows.keeps l st.2)
                m.stored)
              λ q h'' s'' n. returns (record {
                tree = n.tree;
                at = m.at;
                key = m.key;
                value = m.value;
                is_ptr = n.is_ptr;
                is_succ = m.is_succ;
                stored = n.stored;
                succ_stored =
                    Stored-mono n.grows.keeps (node m.at leaf m.key m.value leaf) m.succ_stored;
                split = rw (n.holds, m.split) (simp append_assoc);
                grows = Grows-trans m.grows n.grows;
                books = λ c. omega (arith, m.books c, n.books c);
              })))

  pub pull_leftmost-Pulled :
      (fuel : ℕ) (a : ℕ) (l : Tree K V) (k : K) (v : V) (r : Tree K V) (h : Heap K V) (s : State)
      → height (node a l k v r) < fuel
      → IsGood base h s
      → Stored h.cells (node a l k v r)
      → Returns
          (Pulled base glue_first (node a l k v r) h s)
          (pull_leftmost fuel (shared a 0) (quiet h s))
  unfolding pull_leftmost retire_node
  pull_leftmost-Pulled zero a l k v r h s f g st = absurd (omega arith)
  pull_leftmost-Pulled (suc fuel) a leaf k v r h s f g st =
      let grow = Grows-grown h s (cell leaf k v leaf) g in
      rw
        (
          spot-ok h s (node a leaf k v r) st,
          deref-ok h s a leaf k v r st,
          load_left-ok h s a leaf k v r st,
          load_right-ok h s a leaf k v r st,
          spot-ok h s leaf tt,
          spot-ok h s r st.3,
          mk_node-ok h s leaf leaf k v tt tt,
        )
        (returns (record {
          tree = r;
          at = h.fresh;
          key = k;
          value = v;
          is_ptr = refl;
          is_succ = refl;
          stored = Stored-mono grow.keeps r st.3;
          succ_stored = Stored-grown h s leaf leaf k v g tt tt;
          split = refl;
          grows = Grows-retiring (shared a 0) grow;
          books = λ b. omega (arith, count-snoc);
        }))
  pull_leftmost-Pulled (suc fuel) a (node b ll lk lv lr) k v r h s f g st =
      let l = node b ll lk lv lr in
      rw
        (
          spot-ok h s (node a l k v r) st,
          deref-ok h s a l k v r st,
          load_left-ok h s a l k v r st,
          load_right-ok h s a l k v r st,
          spot-ok h s l st.2,
          spot-ok h s r st.3,
          not_null b st.2.0,
        )
        (Returns.bind _ (pull_leftmost-Pulled fuel b ll lk lv lr h s (omega arith) g st.2)
          λ p h' s' m. rw (m.is_ptr) (
            Returns.bind _
              (mk_balanced-Rebuilt base h' s' a l k v r m.tree r m.grows.good
                (Stored-mono m.grows.keeps (node a l k v r) st) m.stored
                (Stored-mono m.grows.keeps r st.3))
              λ q h'' s'' n. returns (record {
                tree = n.tree;
                at = m.at;
                key = m.key;
                value = m.value;
                is_ptr = n.is_ptr;
                is_succ = m.is_succ;
                stored = n.stored;
                succ_stored =
                    Stored-mono n.grows.keeps (node m.at leaf m.key m.value leaf) m.succ_stored;
                split = rw (n.holds, m.split);
                grows = Grows-trans m.grows n.grows;
                books = λ c. omega (arith, m.books c, n.books c);
              })))
