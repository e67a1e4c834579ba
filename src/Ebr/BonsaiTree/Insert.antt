-- ===== src/Ebr/BonsaiTree/Insert.antt =====
-- `do_insert` of ebr/bonsai_tree.rs inserts into the dictionary.
use Prim.Native.Nat.{max}
use pebr_benchmark.Base.{
  ℕ, zero, suc, ◌<◌, ◌≡◌, inl, inr, refl, ap, ◌∙◌, Bool, ◌++◌, ◌∷◌, arith, is_none,
}
use pebr_benchmark.Ord.{Ord, Ordering-cases}
use pebr_benchmark.SortedMap.{Entries, lookup, insert, IsSorted}
use pebr_benchmark.SortedMap.Split.{
  IsSorted-left, IsSorted-right, IsSorted-Below, lookup_right, lookup_here, lookup_left,
  insert_right, insert_here, insert_left,
}
use pebr_benchmark.Shared.{Shared, shared}
use pebr_benchmark.World.{quiet}
use pebr_benchmark.World.Returns
use pebr_benchmark.World.Returns.{Returns, returns}
use pebr_benchmark.Ebr.BonsaiTree.Node.{Heap, State}
use pebr_benchmark.Ebr.BonsaiTree.Balance.{mk_balanced}
use pebr_benchmark.Ebr.BonsaiTree.Edit.{do_insert}
use pebr_benchmark.Ebr.BonsaiTree.Tree.{
  Tree, leaf, node, entries, occ, ptr, Stored, Stored-mono, not_null, deref-ok, load_left-ok,
  load_right-ok, spot-ok,
}
use pebr_benchmark.Ebr.BonsaiTree.Made.{IsGood, Made, Grows-refl, Grows-trans}
use pebr_benchmark.Ebr.BonsaiTree.Rotate.{mk_node-Joined}
use pebr_benchmark.Ebr.BonsaiTree.Rebalance.{mk_balanced-Rebuilt}

module _ {K V : Type 0} where
  abbrev pub height : Tree K V → ℕ
  height leaf = 0
  height (node a l k v r) = suc (max (height l) (height r))

module _ {K V : Type 0} (base : ℕ) (h : Heap K V) (s : State) where
  abbrev pub Kept : Tree K V → Shared → Heap K V → State → Type 0
  Kept t = Made base (entries t) (λ a. occ a t) h s

  pub Made-refl : (t : Tree K V) → IsGood base h s → Stored h.cells t → Kept t (ptr t) h s
  Made-refl t g st = record {
    tree = t;
    is_ptr = refl;
    stored = st;
    holds = refl;
    grows = Grows-refl g;
    books = λ a. refl;
  }

module _ {K V : Type 0} {base : ℕ} {h : Heap K V} {s : State} (a : ℕ) (l : Tree K V) (k : K) (v : V)
    (r : Tree K V) (st : Stored h.cells (node a l k v r)) where
  -- `mk_balanced` after a new right subtree was made, and after a new left one.
  pub rebuild_right :
      (xs : Entries K V) {p : Shared} {h' : Heap K V} {s' : State}
      → Made base xs (λ b. occ b r) h s p h' s'
      → Returns
          (Made base (entries l ++ (k, v) ∷ xs) (λ b. occ b (node a l k v r)) h s)
          (mk_balanced (shared a 0) (ptr l) p (quiet h' s'))
  rebuild_right xs {h'} {s'} m = rw (m.is_ptr) (
      Returns.weaken
        (mk_balanced-Rebuilt base h' s' a l k v r l m.tree m.grows.good
          (Stored-mono m.grows.keeps (node a l k v r) st) (Stored-mono m.grows.keeps l st.2)
          m.stored)
        λ q h'' s'' n. record {
          tree = n.tree;
          is_ptr = n.is_ptr;
          stored = n.stored;
          holds = n.holds ∙ ap (λ ys. entries l ++ (k, v) ∷ ys) m.holds;
          grows = Grows-trans m.grows n.grows;
          books = λ b. omega (arith, m.books b, n.books b);
        })

  pub rebuild_left :
      (xs : Entries K V) {p : Shared} {h' : Heap K V} {s' : State}
      → Made base xs (λ b. occ b l) h s p h' s'
      → Returns
          (Made base (xs ++ (k, v) ∷ entries r) (λ b. occ b (node a l k v r)) h s)
          (mk_balanced (shared a 0) p (ptr r) (quiet h' s'))
  rebuild_left xs {h'} {s'} m = rw (m.is_ptr) (
      Returns.weaken
        (mk_balanced-Rebuilt base h' s' a l k v r m.tree r m.grows.good
          (Stored-mono m.grows.keeps (node a l k v r) st) m.stored
          (Stored-mono m.grows.keeps r st.3))
        λ q h'' s'' n. record {
          tree = n.tree;
          is_ptr = n.is_ptr;
          stored = n.stored;
          holds = n.holds ∙ ap (λ ys. ys ++ (k, v) ∷ entries r) m.holds;
          grows = Grows-trans m.grows n.grows;
          books = λ b. omega (arith, m.books b, n.books b);
        })

module _ {K V : Type 0} ⦃o : Ord K⦄ (base : ℕ) (key : K) (value : V) where
  abbrev pub Inserted : Tree K V → Heap K V → State → Shared × Bool → Heap K V → State → Type 0
  Inserted t h s (p, inserted) h' s' =
      (inserted ≡ is_none (lookup key (entries t)))
      × Made base (insert key value (entries t)) (λ a. occ a t) h s p h' s'

  pub do_insert-Inserted :
      (fuel : ℕ) (t : Tree K V) (h : Heap K V) (s : State)
      → height t < fuel
      → IsSorted (entries t)
      → IsGood base h s
      → Stored h.cells t
      → Returns (Inserted t h s) (do_insert fuel (ptr t) key value (quiet h s))
  unfolding do_insert lookup insert
  do_insert-Inserted zero t h s f so g st = absurd (omega arith)
  do_insert-Inserted (suc fuel) leaf h s f so g st = rw (spot-ok h s leaf tt) (
      Returns.bind _ (mk_node-Joined base h s leaf key value leaf g tt tt)
        λ p h' s' m. returns (refl, m))
  do_insert-Inserted (suc fuel) (node a l k v r) h s f so g st =
      let below = IsSorted-Below k v (entries r) (entries l) so in
      rw
        (
          spot-ok h s (node a l k v r) st,
          not_null a st.0,
          deref-ok h s a l k v r st,
          load_left-ok h s a l k v r st,
          load_right-ok h s a l k v r st,
          spot-ok h s l st.2,
          spot-ok h s r st.3,
        )
        (elim (Ordering-cases (o.cmp k key)) [
          | inl less ↦ rw less (
              Returns.bind _
                (do_insert-Inserted fuel r h s (omega arith)
                  (IsSorted-right (entries l) ((k, v) ∷ entries r) so).1 g st.3)
                λ (p, b) h' s' (found, m).
                  Returns.bind _ (rebuild_right a l k v r st (insert key value (entries r)) m)
                    λ q h'' s'' n. returns (
                      rw (lookup_right k v (entries r) key (entries l) below less) found,
                      rw (insert_right k v (entries r) key value (entries l) below less) n,
                    ))
          | inr (inl same) ↦ rw same (
              returns (
                rw (lookup_here k v (entries r) key (entries l) below same),
                rw (insert_here k v (entries r) key value (entries l) below same)
                    (Made-refl base h s (node a l k v r) g st),
              ))
          | inr (inr more) ↦ rw more (
              Returns.bind _
                (do_insert-Inserted fuel l h s (omega arith)
                  (IsSorted-left (entries l) ((k, v) ∷ entries r) so) g st.2)
                λ (p, b) h' s' (found, m).
                  Returns.bind _ (rebuild_left a l k v r st (insert key value (entries l)) m)
                    λ q h'' s'' n. returns (
                      rw (lookup_left k v (entries r) key (entries l) more) found,
                      rw (insert_left k v (entries r) key value (entries l) more) n,
                    ))
        ])
