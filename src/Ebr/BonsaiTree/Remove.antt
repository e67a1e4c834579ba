-- ===== src/Ebr/BonsaiTree/Remove.antt =====
-- `do_remove` of ebr/bonsai_tree.rs removes from the dictionary.
use pebr_benchmark.Base.{
  ℕ, zero, suc, ◌+◌, ◌<◌, ◌≡◌, false, ◌==◌, inl, inr, refl, Option, some, ◌++◌, ◌∷◌, arith,
  append_assoc,
}
use pebr_benchmark.Ord.{Ord, Ordering-cases}
use pebr_benchmark.SortedMap.{lookup, remove, IsSorted}
use pebr_benchmark.SortedMap.Split.{
  IsSorted-left, IsSorted-right, IsSorted-Below, lookup_right, lookup_here, lookup_left,
  remove_right, remove_here, remove_left,
}
use pebr_benchmark.Shared.{Shared, shared, count-snoc}
use pebr_benchmark.World.{quiet}
use pebr_benchmark.World.Returns
use pebr_benchmark.World.Returns.{Returns, returns}
use pebr_benchmark.Ebr.BonsaiTree.Node.{Heap, State}
use pebr_benchmark.Ebr.BonsaiTree.State.{retire_node}
use pebr_benchmark.Ebr.BonsaiTree.Edit.{remove_found, do_remove}
use pebr_benchmark.Ebr.BonsaiTree.Tree.{
  Tree, leaf, node, size, entries, occ, ptr, cell, Stored, Stored-mono, not_null, deref-ok,
  load_left-ok, load_right-ok, spot-ok,
}
use pebr_benchmark.Ebr.BonsaiTree.Made.{
  IsGood, Grows, Made, retiring, Grows-refl, Grows-trans, Grows-retiring,
}
use pebr_benchmark.Ebr.BonsaiTree.Rebalance.{mk_balanced-Rebuilt}
use pebr_benchmark.Ebr.BonsaiTree.Insert.{height, Made-refl, rebuild_left, rebuild_right}
use pebr_benchmark.Ebr.BonsaiTree.Pull.{pull_leftmost-Pulled, pull_rightmost-Pulled}

module _ {K V : Type 0} (base : ℕ) (h : Heap K V) (s : State) where
  -- The root `a` is dropped, and its subtrees are joined.
  abbrev Found : ℕ → Tree K V → K → V → Tree K V → Shared × Option V → Heap K V → State → Type 0
  Found a l k v r (p, found) h' s' =
      (found ≡ some v)
      × Made base (entries l ++ entries r) (λ b. occ b (node a l k v r)) h s p h' s'

  module _ (g : IsGood base h s) where
    retired : (a : ℕ) → Grows base h h (retiring s (shared a 0))
    retired a = Grows-retiring (shared a 0) (Grows-refl g)

    remove_found-Found :
        (fuel a : ℕ) (l : Tree K V) (k : K) (v : V) (r : Tree K V)
        → height l < fuel
        → height r < fuel
        → Stored h.cells (node a l k v r)
        → Returns
            (Found a l k v r)
            (remove_found fuel (shared a 0) (cell l k v r) (ptr l) (ptr r) (quiet h s))
    unfolding remove_found retire_node
    remove_found-Found fuel a leaf k v leaf fl fr st = returns (
      refl,
      record {
        tree = leaf;
        is_ptr = refl;
        stored = tt;
        holds = refl;
        grows = retired a;
        books = λ b. omega (arith, count-snoc);
      },
    )
    remove_found-Found fuel a leaf k v (node b rl rk rv rr) fl fr st =
        let more : (0 + (size rl + size rr + 1) + 1 == 1) ≡ false = ground arith in
        rw more (
          Returns.bind _
            (pull_leftmost-Pulled base fuel b rl rk rv rr h (retiring s (shared a 0)) fr
              (retired a).good st.3)
            λ p h' s' m.
              rw (m.is_ptr, m.is_succ)
                (Returns.bind _
                  (mk_balanced-Rebuilt base h' s' m.at leaf m.key m.value leaf leaf m.tree
                    m.grows.good m.succ_stored tt m.stored)
                  λ q h'' s'' n. returns (
                    refl,
                    record {
                      tree = n.tree;
                      is_ptr = n.is_ptr;
                      stored = n.stored;
                      holds = rw (n.holds, m.split);
                      grows = Grows-trans (retired a) (Grows-trans m.grows n.grows);
                      books = λ c. omega (arith, m.books c, n.books c, count-snoc);
                    },
                  )))
    remove_found-Found fuel a (node b ll lk lv lr) k v r fl fr st =
        let more : (size ll + size lr + 1 + size r + 1 == 1) ≡ false = ground arith in
        rw (more, not_null b st.2.0)
          (Returns.bind _
            (pull_rightmost-Pulled base fuel b ll lk lv lr h (retiring s (shared a 0)) fl
              (retired a).good st.2)
            λ p h' s' m.
              rw (m.is_ptr, m.is_succ)
                (Returns.bind _
                  (mk_balanced-Rebuilt base h' s' m.at leaf m.key m.value leaf m.tree r m.grows.good
                    m.succ_stored m.stored (Stored-mono m.grows.keeps r st.3))
                  λ q h'' s'' n. returns (
                    refl,
                    record {
                      tree = n.tree;
                      is_ptr = n.is_ptr;
                      stored = n.stored;
                      holds = rw (n.holds, m.split) (simp append_assoc);
                      grows = Grows-trans (retired a) (Grows-trans m.grows n.grows);
                      books = λ c. omega (arith, m.books c, n.books c, count-snoc);
                    },
                  )))

module _ {K V : Type 0} ⦃o : Ord K⦄ (base : ℕ) (key : K) where
  abbrev pub Removed : Tree K V → Heap K V → State → Shared × Option V → Heap K V → State → Type 0
  Removed t h s (p, found) h' s' =
      (found ≡ lookup key (entries t))
      × Made base (remove key (entries t)) (λ a. occ a t) h s p h' s'

  pub do_remove-Removed :
      (fuel : ℕ) (t : Tree K V) (h : Heap K V) (s : State)
      → height t < fuel
      → IsSorted (entries t)
      → IsGood base h s
      → Stored h.cells t
      → Returns (Removed t h s) (do_remove fuel (ptr t) key (quiet h s))
  unfolding do_remove lookup remove
  do_remove-Removed zero t h s f so g st = absurd (omega arith)
  do_remove-Removed (suc fuel) leaf h s f so g st =
      rw (spot-ok h s leaf tt) (returns (refl, Made-refl base h s leaf g tt))
  do_remove-Removed (suc fuel) (node a l k v r) h s f so g st =
      let below = IsSorted-Below k v (entries r) (entries l) so in
      rw
        (
          spot-ok h s (node a l k v r) st,
          not_null a st.0,
          deref-ok h s a l k v r st,
          load_left-ok h s a l k v r st,
          load_right-ok h s a l k v r st,
          spot-ok h s l st.2,
          spot-ok h s r st.3,
        )
        (elim (Ordering-cases (o.cmp k key)) [
          | inl less ↦ rw less (
              Returns.bind _
                (do_remove-Removed fuel r h s (omega arith)
                  (IsSorted-right (entries l) ((k, v) ∷ entries r) so).1 g st.3)
                λ (p, b) h' s' (found, m).
                  Returns.bind _ (rebuild_right a l k v r st (remove key (entries r)) m)
                    λ q h'' s'' n. returns (
                      rw (lookup_right k v (entries r) key (entries l) below less) found,
                      rw (remove_right k v (entries r) key (entries l) below less) n,
                    ))
          | inr (inl same) ↦ rw same (
              Returns.weaken
                (remove_found-Found base h s g fuel a l k v r (omega arith) (omega arith) st)
                λ (p, b) h' s' (found, m). (
                  rw (lookup_here k v (entries r) key (entries l) below same) found,
                  rw (remove_here k v (entries r) key (entries l) below same) m,
                ))
          | inr (inr more) ↦ rw more (
              Returns.bind _
                (do_remove-Removed fuel l h s (omega arith)
                  (IsSorted-left (entries l) ((k, v) ∷ entries r) so) g st.2)
                λ (p, b) h' s' (found, m).
                  Returns.bind _ (rebuild_left a l k v r st (remove key (entries l)) m)
                    λ q h'' s'' n. returns (
                      rw (lookup_left k v (entries r) key (entries l) more) found,
                      rw (remove_left k v (entries r) key (entries l) more) n,
                    ))
        ])
