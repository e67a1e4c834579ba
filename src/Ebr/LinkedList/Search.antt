-- ===== src/Ebr/LinkedList/Search.antt =====
-- The searches of ebr/list.rs where they only read: that of Herlihy and Shavit on any list, that of
-- Harris and Michael on one without marked nodes.
use Prim.Native.Nat.Ordering.{lt, eq}
use pebr_benchmark.Base.{
  ap, ◌∙◌, ℕ, zero, suc, ◌<◌, ◌≡◌, refl, inl, inr, ◌⊎◌, Bool, true, false, Option, none, some, List,
  [], ◌∷◌, arith, length, Bool-cases, ◌==◌,
}
use pebr_benchmark.Ord.{Ord, Ordering-cases}
use pebr_benchmark.SortedMap.{lookup, IsSorted}
use pebr_benchmark.SortedMap.Sorted.{Above-trans}
use pebr_benchmark.Shared.{shared, is_null}
use pebr_benchmark.World.{quiet}
use pebr_benchmark.World.Returns
use pebr_benchmark.World.Returns.{Returns, returns}
use pebr_benchmark.Ebr.LinkedList.Heap.{Node, Heap, Place, Cursor}
use pebr_benchmark.Ebr.LinkedList.Find.{find_harris_michael, find_harris_herlihy_shavit, cursor_at}
use pebr_benchmark.Ebr.LinkedList.Chain.{
  AllLive, Cell, first, next, stored, Chain, all_entries, live_entries, not_null, deref-ok, load-ok,
  lookup_before, lookup_pass,
}

module _ {K V : Type 0} ⦃o : Ord K⦄ (key : K) (h : Heap K V) where
  -- The key is not there, or the cursor stands at its node.
  abbrev pub Answer : List (Cell K V) → Bool → Cursor → Type 0
  Answer cs found cursor =
      ((found ≡ false) × (lookup key (live_entries cs) ≡ none))
      ⊎ ((n : Node K V) × (found ≡ true)
          × (is_null cursor.curr ≡ false)
          × (h.cells cursor.curr.addr ≡ some n)
          × (lookup key (live_entries cs) ≡ some n.value))

  abbrev pub Seen : List (Cell K V) → Option Bool × Cursor → Heap K V → Unit {0} → Type 0
  Seen cs (r, cursor) h' s' = (h' ≡ h) × (found : Bool) × (r ≡ some found) × Answer cs found cursor

  pub Seen-pass :
      (c : Cell K V) (cs : List (Cell K V)) (a : Option Bool × Cursor) (h' : Heap K V)
      (s' : Unit {0})
      → o.cmp c.key key ≡ lt
      → Seen cs a h' s'
      → Seen (c ∷ cs) a h' s'
  Seen-pass c cs (r, cursor) h' s' less (same, found, e, a) =
      (same, found, e, rw (lookup_pass key c cs less) a)

  at_key :
      (c : Cell K V) (cs : List (Cell K V)) (prev : Place) (t : ℕ)
      → o.cmp c.key key ≡ eq
      → Chain h.cells (c ∷ cs)
      → IsSorted (all_entries (c ∷ cs))
      → Answer (c ∷ cs) ((next c cs).tag == 0) (cursor_at prev (shared c.addr t))
  unfolding lookup
  at_key c cs prev t equal st so = elim (Bool-cases c.marked) [
    | inl e ↦ rw e (inl (refl, lookup_before key cs (rw (← o.cmp_eq c.key key equal) so.0)))
    | inr e ↦ rw e (inr (stored c cs, refl, not_null c.addr t st.0, st.1, rw (equal, lookup) refl))
  ]

  pub find_harris_herlihy_shavit-Seen :
      (fuel : ℕ) (cs : List (Cell K V)) (prev : Place) (t : ℕ)
      → length cs < fuel
      → Chain h.cells cs
      → IsSorted (all_entries cs)
      → Returns
          (Seen cs)
          (find_harris_herlihy_shavit fuel key (cursor_at prev (shared (first cs) t)) (quiet h tt))
  unfolding find_harris_herlihy_shavit lookup
  find_harris_herlihy_shavit-Seen zero cs prev t f st so = absurd (omega arith)
  find_harris_herlihy_shavit-Seen (suc fuel) [] prev t f st so =
      returns (refl, false, refl, inl (refl, refl))
  find_harris_herlihy_shavit-Seen (suc fuel) (c ∷ cs) prev t f st so =
      rw (not_null c.addr t st.0, deref-ok h (shared c.addr t) (stored c cs) st.1)
        (elim (Ordering-cases (o.cmp c.key key)) [
          | inl less ↦
              rw (less, load-ok h c.addr (stored c cs) st.1)
                (Returns.weaken
                  (find_harris_herlihy_shavit-Seen fuel cs _ _ (omega arith) st.2 so.1)
                  λ a h' s' seen. Seen-pass c cs a h' s' less seen)
          | inr (inl equal) ↦
              rw (equal, load-ok h c.addr (stored c cs) st.1)
                (returns (refl, _, refl, at_key c cs prev t equal st so))
          | inr (inr greater) ↦
              let before = o.cmp_gt c.key key greater in
              rw greater (
                returns (
                  refl,
                  false,
                  refl,
                  inl (
                    refl,
                    lookup_before key (c ∷ cs)
                        (before, Above-trans key c.key (all_entries cs) before so.0),
                  ),
                ))
        ])

  pub find_harris_michael-Seen :
      (fuel : ℕ) (cs : List (Cell K V)) (prev : Place)
      → length cs < fuel
      → Chain h.cells cs
      → AllLive cs
      → IsSorted (all_entries cs)
      → Returns
          (Seen cs)
          (find_harris_michael fuel key (cursor_at prev (shared (first cs) 0)) (quiet h tt))
  unfolding find_harris_michael lookup
  find_harris_michael-Seen zero cs prev f st live so = absurd (omega arith)
  find_harris_michael-Seen (suc fuel) [] prev f st live so =
      returns (refl, false, refl, inl (refl, refl))
  find_harris_michael-Seen (suc fuel) (c ∷ cs) prev f st live so =
      let n : Node K V = record { next = shared (first cs) 0; key = c.key; value = c.value } in
      let clean : stored c cs ≡ n = rw (live.0) refl in
      let here : h.cells c.addr ≡ some n = st.1 ∙ ap some clean in
      rw (not_null c.addr 0 st.0, deref-ok h (shared c.addr 0) n here, load-ok h c.addr n here)
        (elim (Ordering-cases (o.cmp c.key key)) [
          | inl less ↦ rw less (
              Returns.weaken (find_harris_michael-Seen fuel cs _ (omega arith) st.2 live.1 so.1)
                λ a h' s' seen. Seen-pass c cs a h' s' less seen)
          | inr (inl equal) ↦ rw equal (
              returns (
                refl,
                true,
                refl,
                inr (
                  stored c cs,
                  refl,
                  not_null c.addr 0 st.0,
                  st.1,
                  rw (live.0, equal, lookup) refl,
                ),
              ))
          | inr (inr greater) ↦
              let before = o.cmp_gt c.key key greater in
              rw greater (
                returns (
                  refl,
                  false,
                  refl,
                  inl (
                    refl,
                    lookup_before key (c ∷ cs)
                        (before, Above-trans key c.key (all_entries cs) before so.0),
                  ),
                ))
        ])
