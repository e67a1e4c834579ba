-- ===== src/Ebr/LinkedList/Drop.antt =====
-- `Drop` of ebr/list.rs: the value of a marked node was moved out by `remove`, so it is not dropped
-- with its node.
use Prim.Native.Nat.Ordering.{lt}
use pebr_benchmark.Base.{
  ℕ, zero, suc, ◌<◌, ◌≡◌, ◌∙◌, sym, refl, ap, inl, inr, Option, none, some, List, [], ◌∷◌, arith,
  length, ◌==◌, Bool-cases, if◌then◌else◌,
}
use pebr_benchmark.Ord.{Ord}
use pebr_benchmark.SortedMap.{Above, IsSorted}
use pebr_benchmark.Shared.{shared}
use pebr_benchmark.World.{quiet}
use pebr_benchmark.World.Returns.{Returns, returns}
use pebr_benchmark.Ebr.LinkedList.Heap.{Node, Heap, update, drop_value, free}
use pebr_benchmark.Ebr.LinkedList.Map.{drop_loop, drop}
use pebr_benchmark.Ebr.LinkedList.Chain.{
  Cell, first, next, stored, Chain, all_entries, not_null, load-ok,
}
use pebr_benchmark.Ebr.LinkedList.Get.{Leads, load_head-ok}

module _ {K V : Type 0} where
  -- The values of the unmarked nodes, the last first, on top of those that were dropped before.
  abbrev pub dropping : List (Cell K V) → List V → List V
  dropping [] vs = vs
  dropping (c ∷ cs) vs = dropping cs (if c.marked then vs else c.value ∷ vs)

  abbrev key_of : K → Option (Node K V) → K
  key_of k none = k
  key_of k (some n) = n.key

  abbrev freed : Heap K V → Cell K V → Heap K V
  freed h c = record h {
    cells = update h.cells c.addr none;
    dropped = if c.marked then h.dropped else c.value ∷ h.dropped;
  }

  drop_one :
      (fuel : ℕ) (h : Heap K V) (c : Cell K V) (cs : List (Cell K V)) (t : ℕ)
      → 0 < c.addr
      → h.cells c.addr ≡ some (stored c cs)
      → drop_loop (suc fuel) (shared c.addr t) (quiet h tt)
        ≡ drop_loop fuel (next c cs) (quiet (freed h c) tt)
  unfolding drop_loop drop_value free
  drop_one fuel h c cs t pos e =
      rw (not_null c.addr t pos, load-ok h c.addr (stored c cs) e)
        (elim (Bool-cases c.marked) [
          | inl marked ↦ rw (marked, e) refl
          | inr live ↦ rw (live, e, e) refl
        ])

module _ {K V : Type 0} ⦃o : Ord K⦄ where
  -- Keys that rise tell the nodes apart.
  Chain-freed :
      (h : Heap K V) (c : Cell K V) (rest : List (Cell K V)) (cs : List (Cell K V))
      → h.cells c.addr ≡ some (stored c rest)
      → Above c.key (all_entries cs)
      → Chain h.cells cs
      → Chain (freed h c).cells cs
  Chain-freed h c rest [] e above st = tt
  Chain-freed h c rest (d ∷ ds) e above st = elim (Bool-cases (d.addr == c.addr)) [
    | inl same ↦
        let at : d.addr ≡ c.addr = ground arith in
        let keys : d.key ≡ c.key = ap (key_of c.key) (sym st.1 ∙ ap h.cells at ∙ e) in
        let less : o.cmp c.key c.key ≡ lt = ap (λ k. o.cmp c.key k) (sym keys) ∙ above.0 in
        absurd (ground (arith, o.cmp_self c.key, less))
    | inr other ↦ (st.0, rw other st.1, Chain-freed h c rest ds e above.1 st.2)
  ]

  drop_loop-dropping :
      (fuel : ℕ) (cs : List (Cell K V)) (h : Heap K V) (t : ℕ)
      → length cs < fuel
      → Chain h.cells cs
      → IsSorted (all_entries cs)
      → Returns
          (λ _ h' s'. h'.dropped ≡ dropping cs h.dropped)
          (drop_loop fuel (shared (first cs) t) (quiet h tt))
  drop_loop-dropping zero cs h t f st so = absurd (omega arith)
  drop_loop-dropping (suc fuel) [] h t f st so = unfold drop_loop in returns refl
  drop_loop-dropping (suc fuel) (c ∷ cs) h t f st so = rw (drop_one fuel h c cs t st.0 st.1) (
      drop_loop-dropping fuel cs (freed h c) _ (omega arith) (Chain-freed h c cs cs st.1 so.0 st.2)
        so.1)

  -- Undisturbed, on a list whose keys rise strictly, with fuel above the number of nodes: `drop`
  -- returns, and has dropped the values of the unmarked nodes, each once, and of no others.
  pub drop-dropping :
      (fuel list : ℕ) {h : Heap K V} {cs : List (Cell K V)}
      → Leads h list cs
      → length cs < fuel
      → Returns (λ _ h' s'. h'.dropped ≡ dropping cs h.dropped) (drop fuel list (quiet h tt))
  unfolding drop
  drop-dropping fuel list {h} {cs} m enough =
      rw (load_head-ok h list (shared (first cs) 0) m.from)
        (drop_loop-dropping fuel cs h 0 enough m.chain m.rising)
