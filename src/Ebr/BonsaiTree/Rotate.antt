-- ===== src/Ebr/BonsaiTree/Rotate.antt =====
-- The rotations of ebr/bonsai_tree.rs keep the entries and account for every node.
use pebr_benchmark.Base.{ℕ, ◌+◌, refl, ◌++◌, ◌∷◌, arith, append_assoc}
use pebr_benchmark.Shared.{Shared, shared, count-snoc}
use pebr_benchmark.World.{quiet}
use pebr_benchmark.World.Returns.{Returns, returns}
use pebr_benchmark.Ebr.BonsaiTree.Node.{Heap, State}
use pebr_benchmark.Ebr.BonsaiTree.State.{retire_node, mk_node}
use pebr_benchmark.Ebr.BonsaiTree.Balance.{single_left, double_left, single_right, double_right}
use pebr_benchmark.Ebr.BonsaiTree.Tree.{
  Tree, node, entries, occ, ptr, cell, Stored, Stored-mono, deref-ok, load_left-ok, load_right-ok,
  spot-ok,
}
use pebr_benchmark.Ebr.BonsaiTree.Made.{
  IsGood, Made, grown, noted, Grows-trans, Grows-grown, Grows-retiring, mk_node-ok, Stored-grown,
}

module _ {K V : Type 0} where
  -- `Made` of what a node over `l` and `r` would be made of.
  abbrev pub Joined :
      ℕ → Tree K V → K → V → Tree K V → Heap K V → State → Shared → Heap K V → State → Type 0
  Joined base l k v r = Made base (entries l ++ (k, v) ∷ entries r) (λ b. occ b l + occ b r)

  pub mk_node-Joined :
      (base : ℕ) (h : Heap K V) (s : State) (l : Tree K V) (k : K) (v : V) (r : Tree K V)
      → IsGood base h s
      → Stored h.cells l
      → Stored h.cells r
      → Returns (Joined base l k v r h s) (mk_node (ptr l) (ptr r) k v (quiet h s))
  mk_node-Joined base h s l k v r g sl sr = rw (mk_node-ok h s l r k v sl sr) (
      returns (record {
        tree = node h.fresh l k v r;
        is_ptr = refl;
        stored = Stored-grown h s l r k v g sl sr;
        holds = refl;
        grows = Grows-grown h s (cell l k v r) g;
        books = λ b. omega (arith, count-snoc);
      }))

  pub single_left-Joined :
      (base : ℕ) (h : Heap K V) (s : State) (l : Tree K V) (k : K) (v : V) (a : ℕ) (rl : Tree K V)
      (rk : K) (rv : V) (rr : Tree K V)
      → IsGood base h s
      → Stored h.cells l
      → Stored h.cells (node a rl rk rv rr)
      → Returns
          (Joined base l k v (node a rl rk rv rr) h s)
          (single_left (ptr l) (shared a 0) (ptr rl) (ptr rr) k v (quiet h s))
  unfolding single_left retire_node
  single_left-Joined base h s l k v a rl rk rv rr g sl sr =
      let h1 = grown h (cell l k v rl) in
      let s1 = noted s h.fresh in
      let t1 = node h.fresh l k v rl in
      let grow1 = Grows-grown h s (cell l k v rl) g in
      let st1 = Stored-grown h s l rl k v g sl sr.2 in
      let srr = Stored-mono grow1.keeps rr sr.3 in
      let grow2 = Grows-grown h1 s1 (cell t1 rk rv rr) grow1.good in
      rw
        (
          deref-ok h s a rl rk rv rr sr,
          mk_node-ok h s l rl k v sl sr.2,
          mk_node-ok h1 s1 t1 rr rk rv st1 srr,
        )
        (returns (record {
          tree = node h1.fresh t1 rk rv rr;
          is_ptr = refl;
          stored = Stored-grown h1 s1 t1 rr rk rv grow1.good st1 srr;
          holds = simp append_assoc;
          grows = Grows-retiring (shared a 0) (Grows-trans grow1 grow2);
          books = λ b. omega (arith, count-snoc);
        }))

  -- `rl` comes in its parts: the code dereferences it.
  pub double_left-Joined :
      (base : ℕ) (h : Heap K V) (s : State) (l : Tree K V) (k : K) (v : V) (a b : ℕ)
      (rll : Tree K V) (rlk : K) (rlv : V) (rlr : Tree K V) (rk : K) (rv : V) (rr : Tree K V)
      → IsGood base h s
      → Stored h.cells l
      → Stored h.cells (node a (node b rll rlk rlv rlr) rk rv rr)
      → Returns
          (Joined base l k v (node a (node b rll rlk rlv rlr) rk rv rr) h s)
          (double_left (ptr l) (shared a 0) (shared b 0) (ptr rr) k v (quiet h s))
  unfolding double_left retire_node
  double_left-Joined base h s l k v a b rll rlk rlv rlr rk rv rr g sl sr =
      let rl = node b rll rlk rlv rlr in
      let h1 = grown h (cell l k v rll) in
      let s1 = noted s h.fresh in
      let t1 = node h.fresh l k v rll in
      let grow1 = Grows-grown h s (cell l k v rll) g in
      let st1 = Stored-grown h s l rll k v g sl sr.2.2 in
      let srr = Stored-mono grow1.keeps rr sr.3 in
      let srlr = Stored-mono grow1.keeps rlr sr.2.3 in
      let h2 = grown h1 (cell rlr rk rv rr) in
      let s2 = noted s1 h1.fresh in
      let t2 = node h1.fresh rlr rk rv rr in
      let grow2 = Grows-grown h1 s1 (cell rlr rk rv rr) grow1.good in
      let st2 = Stored-grown h1 s1 rlr rr rk rv grow1.good srlr srr in
      let st1' = Stored-mono grow2.keeps t1 st1 in
      let grow3 = Grows-grown h2 s2 (cell t1 rlk rlv t2) grow2.good in
      rw
        (
          deref-ok h s a rl rk rv rr sr,
          deref-ok h s b rll rlk rlv rlr sr.2,
          load_left-ok h s b rll rlk rlv rlr sr.2,
          load_right-ok h s b rll rlk rlv rlr sr.2,
          spot-ok h s rll sr.2.2,
          spot-ok h s rlr sr.2.3,
          mk_node-ok h s l rll k v sl sr.2.2,
          mk_node-ok h1 s1 rlr rr rk rv srlr srr,
          mk_node-ok h2 s2 t1 t2 rlk rlv st1' st2,
        )
        (returns (record {
          tree = node h2.fresh t1 rlk rlv t2;
          is_ptr = refl;
          stored = Stored-grown h2 s2 t1 t2 rlk rlv grow2.good st1' st2;
          holds = simp append_assoc;
          grows =
              Grows-retiring (shared a 0)
                (Grows-retiring (shared b 0) (Grows-trans grow1 (Grows-trans grow2 grow3)));
          books = λ c. omega (arith, count-snoc);
        }))

  pub single_right-Joined :
      (base : ℕ) (h : Heap K V) (s : State) (a : ℕ) (ll : Tree K V) (lk : K) (lv : V)
      (lr : Tree K V) (k : K) (v : V) (r : Tree K V)
      → IsGood base h s
      → Stored h.cells (node a ll lk lv lr)
      → Stored h.cells r
      → Returns
          (Joined base (node a ll lk lv lr) k v r h s)
          (single_right (shared a 0) (ptr r) (ptr lr) (ptr ll) k v (quiet h s))
  unfolding single_right retire_node
  single_right-Joined base h s a ll lk lv lr k v r g sl sr =
      let h1 = grown h (cell lr k v r) in
      let s1 = noted s h.fresh in
      let t1 = node h.fresh lr k v r in
      let grow1 = Grows-grown h s (cell lr k v r) g in
      let st1 = Stored-grown h s lr r k v g sl.3 sr in
      let sll = Stored-mono grow1.keeps ll sl.2 in
      let grow2 = Grows-grown h1 s1 (cell ll lk lv t1) grow1.good in
      rw
        (
          deref-ok h s a ll lk lv lr sl,
          mk_node-ok h s lr r k v sl.3 sr,
          mk_node-ok h1 s1 ll t1 lk lv sll st1,
        )
        (returns (record {
          tree = node h1.fresh ll lk lv t1;
          is_ptr = refl;
          stored = Stored-grown h1 s1 ll t1 lk lv grow1.good sll st1;
          holds = simp append_assoc;
          grows = Grows-retiring (shared a 0) (Grows-trans grow1 grow2);
          books = λ b. omega (arith, count-snoc);
        }))

  pub double_right-Joined :
      (base : ℕ) (h : Heap K V) (s : State) (a b : ℕ) (ll : Tree K V) (lk : K) (lv : V)
      (lrl : Tree K V) (lrk : K) (lrv : V) (lrr : Tree K V) (k : K) (v : V) (r : Tree K V)
      → IsGood base h s
      → Stored h.cells (node a ll lk lv (node b lrl lrk lrv lrr))
      → Stored h.cells r
      → Returns
          (Joined base (node a ll lk lv (node b lrl lrk lrv lrr)) k v r h s)
          (double_right (shared a 0) (ptr r) (shared b 0) (ptr ll) k v (quiet h s))
  unfolding double_right retire_node
  double_right-Joined base h s a b ll lk lv lrl lrk lrv lrr k v r g sl sr =
      let lr = node b lrl lrk lrv lrr in
      let h1 = grown h (cell ll lk lv lrl) in
      let s1 = noted s h.fresh in
      let t1 = node h.fresh ll lk lv lrl in
      let grow1 = Grows-grown h s (cell ll lk lv lrl) g in
      let st1 = Stored-grown h s ll lrl lk lv g sl.2 sl.3.2 in
      let sr' = Stored-mono grow1.keeps r sr in
      let slrr = Stored-mono grow1.keeps lrr sl.3.3 in
      let h2 = grown h1 (cell lrr k v r) in
      let s2 = noted s1 h1.fresh in
      let t2 = node h1.fresh lrr k v r in
      let grow2 = Grows-grown h1 s1 (cell lrr k v r) grow1.good in
      let st2 = Stored-grown h1 s1 lrr r k v grow1.good slrr sr' in
      let st1' = Stored-mono grow2.keeps t1 st1 in
      let grow3 = Grows-grown h2 s2 (cell t1 lrk lrv t2) grow2.good in
      rw
        (
          deref-ok h s a ll lk lv lr sl,
          deref-ok h s b lrl lrk lrv lrr sl.3,
          load_left-ok h s b lrl lrk lrv lrr sl.3,
          load_right-ok h s b lrl lrk lrv lrr sl.3,
          spot-ok h s lrl sl.3.2,
          spot-ok h s lrr sl.3.3,
          mk_node-ok h s ll lrl lk lv sl.2 sl.3.2,
          mk_node-ok h1 s1 lrr r k v slrr sr',
          mk_node-ok h2 s2 t1 t2 lrk lrv st1' st2,
        )
        (returns (record {
          tree = node h2.fresh t1 lrk lrv t2;
          is_ptr = refl;
          stored = Stored-grown h2 s2 t1 t2 lrk lrv grow2.good st1' st2;
          holds = simp append_assoc;
          grows =
              Grows-retiring (shared a 0)
                (Grows-retiring (shared b 0) (Grows-trans grow1 (Grows-trans grow2 grow3)));
          books = λ c. omega (arith, count-snoc);
        }))
