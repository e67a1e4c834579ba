-- ===== src/Ebr/BonsaiTree/Rebalance.antt =====
-- `mk_balanced` of ebr/bonsai_tree.rs never dereferences a null child, keeps the entries and
-- accounts for every node.
use pebr_benchmark.Base.{ℕ, ◌+◌, ◌≤◌, ◌≡◌, true, false, inl, inr, ◌++◌, ◌∷◌, arith, ltb, Bool-cases}
use pebr_benchmark.Shared.{Shared, shared, hit, count-snoc}
use pebr_benchmark.World.{Run, quiet, pure, ◌>>◌, and_then}
use pebr_benchmark.World.Returns
use pebr_benchmark.World.Returns.{Returns, returns}
use pebr_benchmark.Ebr.BonsaiTree.Node.{Heap, State}
use pebr_benchmark.Ebr.BonsaiTree.State.{retire_node}
use pebr_benchmark.Ebr.BonsaiTree.Balance.{
  outweighs, double_left, double_right, mk_balanced_left, mk_balanced_right, mk_balanced,
}
use pebr_benchmark.Ebr.BonsaiTree.Tree.{
  Tree, leaf, node, size, entries, occ, ptr, Stored, deref-ok, load_left-ok, load_right-ok, spot-ok,
  size-ok,
}
use pebr_benchmark.Ebr.BonsaiTree.Made.{IsGood, Made, Grows-retiring}
use pebr_benchmark.Ebr.BonsaiTree.Rotate.{
  Joined, mk_node-Joined, single_left-Joined, double_left-Joined, single_right-Joined,
  double_right-Joined,
}

module _ {K V : Type 0} (base : ℕ) (h : Heap K V) (s : State) where
  -- Where the code chooses the double rotation, the inner child is no null pointer.
  double_left_any :
      (l : Tree K V) (k : K) (v : V) (a : ℕ) (rl : Tree K V) (rk : K) (rv : V) (rr : Tree K V)
      → 2 ≤ size rl + size rr
      → ltb (size rl) (size rr) ≡ false
      → IsGood base h s
      → Stored h.cells l
      → Stored h.cells (node a rl rk rv rr)
      → Returns
          (Joined base l k v (node a rl rk rv rr) h s)
          (double_left (ptr l) (shared a 0) (ptr rl) (ptr rr) k v (quiet h s))
  double_left_any l k v a leaf rk rv rr big more g sl sr = absurd (ground arith)
  double_left_any l k v a (node b rll rlk rlv rlr) rk rv rr big more g sl sr =
      double_left-Joined base h s l k v a b rll rlk rlv rlr rk rv rr g sl sr

  mk_balanced_left-Joined :
      (l : Tree K V) (k : K) (v : V) (a : ℕ) (rl : Tree K V) (rk : K) (rv : V) (rr : Tree K V)
      → 2 ≤ size rl + size rr
      → IsGood base h s
      → Stored h.cells l
      → Stored h.cells (node a rl rk rv rr)
      → Returns
          (Joined base l k v (node a rl rk rv rr) h s)
          (mk_balanced_left (ptr l) (shared a 0) k v (quiet h s))
  unfolding mk_balanced_left
  mk_balanced_left-Joined l k v a rl rk rv rr big g sl sr =
      rw
        (
          load_left-ok h s a rl rk rv rr sr,
          load_right-ok h s a rl rk rv rr sr,
          spot-ok h s rl sr.2,
          spot-ok h s rr sr.3,
          size-ok h s rl sr.2,
          size-ok h s rr sr.3,
        )
        (elim (Bool-cases (ltb (size rl) (size rr))) [
          | inl less ↦ rw less (single_left-Joined base h s l k v a rl rk rv rr g sl sr)
          | inr more ↦ rw more (double_left_any l k v a rl rk rv rr big more g sl sr)
        ])

  double_right_any :
      (a : ℕ) (ll : Tree K V) (lk : K) (lv : V) (lr : Tree K V) (k : K) (v : V) (r : Tree K V)
      → 2 ≤ size ll + size lr
      → ltb (size lr) (size ll) ≡ false
      → IsGood base h s
      → Stored h.cells (node a ll lk lv lr)
      → Stored h.cells r
      → Returns
          (Joined base (node a ll lk lv lr) k v r h s)
          (double_right (shared a 0) (ptr r) (ptr lr) (ptr ll) k v (quiet h s))
  double_right_any a ll lk lv leaf k v r big more g sl sr = absurd (ground arith)
  double_right_any a ll lk lv (node b lrl lrk lrv lrr) k v r big more g sl sr =
      double_right-Joined base h s a b ll lk lv lrl lrk lrv lrr k v r g sl sr

  mk_balanced_right-Joined :
      (a : ℕ) (ll : Tree K V) (lk : K) (lv : V) (lr : Tree K V) (k : K) (v : V) (r : Tree K V)
      → 2 ≤ size ll + size lr
      → IsGood base h s
      → Stored h.cells (node a ll lk lv lr)
      → Stored h.cells r
      → Returns
          (Joined base (node a ll lk lv lr) k v r h s)
          (mk_balanced_right (shared a 0) (ptr r) k v (quiet h s))
  unfolding mk_balanced_right
  mk_balanced_right-Joined a ll lk lv lr k v r big g sl sr =
      rw
        (
          load_right-ok h s a ll lk lv lr sl,
          load_left-ok h s a ll lk lv lr sl,
          spot-ok h s lr sl.3,
          spot-ok h s ll sl.2,
          size-ok h s lr sl.3,
          size-ok h s ll sl.2,
        )
        (elim (Bool-cases (ltb (size lr) (size ll))) [
          | inl less ↦ rw less (single_right-Joined base h s a ll lk lv lr k v r g sl sr)
          | inr more ↦ rw more (double_right_any a ll lk lv lr k v r big more g sl sr)
        ])

  left_heavy :
      (l : Tree K V) (k : K) (v : V) (r : Tree K V)
      → outweighs (size l) (size r) ≡ true
      → IsGood base h s
      → Stored h.cells l
      → Stored h.cells r
      → Returns (Joined base l k v r h s) (mk_balanced_right (ptr l) (ptr r) k v (quiet h s))
  left_heavy leaf k v r heavy g sl sr = absurd (ground arith)
  left_heavy (node a ll lk lv lr) k v r heavy g sl sr =
      mk_balanced_right-Joined a ll lk lv lr k v r (ground arith) g sl sr

  right_heavy :
      (l : Tree K V) (k : K) (v : V) (r : Tree K V)
      → outweighs (size r) (size l) ≡ true
      → IsGood base h s
      → Stored h.cells l
      → Stored h.cells r
      → Returns (Joined base l k v r h s) (mk_balanced_left (ptr l) (ptr r) k v (quiet h s))
  right_heavy l k v leaf heavy g sl sr = absurd (ground arith)
  right_heavy l k v (node a rl rk rv rr) heavy g sl sr =
      mk_balanced_left-Joined l k v a rl rk rv rr (ground arith) g sl sr

  -- What `mk_balanced` makes of the entry of `cur` and the two subtrees; `cur` is retired.
  abbrev pub Rebuilt : ℕ → Tree K V → K → V → Tree K V → Shared → Heap K V → State → Type 0
  Rebuilt c l k v r =
      Made base (entries l ++ (k, v) ∷ entries r) (λ b. hit b c + occ b l + occ b r) h s

  retire-Rebuilt :
      (c : ℕ) (l : Tree K V) (k : K) (v : V) (r : Tree K V) {m : Run (Heap K V) State Shared}
      → Returns (Joined base l k v r h s) m
      → Returns (Rebuilt c l k v r) (and_then m λ res. retire_node (shared c 0) >> pure res)
  unfolding retire_node
  retire-Rebuilt c l k v r made = Returns.bind _ made λ p h' s' m. returns (record {
    tree = m.tree;
    is_ptr = m.is_ptr;
    stored = m.stored;
    holds = m.holds;
    grows = Grows-retiring (shared c 0) m.grows;
    books = λ b. omega (arith, m.books b, count-snoc);
  })

  -- Undisturbed, `mk_balanced` on a node and two subtrees, all in the heap, returns, whatever the
  -- subtrees weigh. It makes a tree of the left entries, the node's entry and the right entries, in
  -- this order, writes unused cells only, and each address occurs as often in that tree and the
  -- newly retired nodes as in the node, the two subtrees and the newly allocated nodes.
  pub mk_balanced-Rebuilt :
      (c : ℕ) (cl : Tree K V) (k : K) (v : V) (cr : Tree K V) (l r : Tree K V)
      → IsGood base h s
      → Stored h.cells (node c cl k v cr)
      → Stored h.cells l
      → Stored h.cells r
      → Returns (Rebuilt c l k v r) (mk_balanced (shared c 0) (ptr l) (ptr r) (quiet h s))
  unfolding mk_balanced
  mk_balanced-Rebuilt c cl k v cr l r g sc sl sr =
      rw
        (
          spot-ok h s (node c cl k v cr) sc,
          spot-ok h s l sl,
          spot-ok h s r sr,
          deref-ok h s c cl k v cr sc,
          size-ok h s l sl,
          size-ok h s r sr,
        )
        (elim (Bool-cases (outweighs (size r) (size l))) [
          | inl heavy ↦ rw heavy (retire-Rebuilt c l k v r (right_heavy l k v r heavy g sl sr))
          | inr light ↦ rw light (elim (Bool-cases (outweighs (size l) (size r))) [
            | inl heavy ↦ rw heavy (retire-Rebuilt c l k v r (left_heavy l k v r heavy g sl sr))
            | inr even ↦
                rw even (retire-Rebuilt c l k v r (mk_node-Joined base h s l k v r g sl sr))
          ])
        ])
