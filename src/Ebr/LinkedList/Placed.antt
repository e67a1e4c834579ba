-- ===== src/Ebr/LinkedList/Placed.antt =====
-- ebr/list.rs: where the searches of Harris and of Harris and Michael stop on a list without marked
-- nodes.
use Prim.Native.Nat.Ordering.{lt, eq}
use pebr_benchmark.Base.{
  ℕ, zero, suc, ◌<◌, ◌≡◌, refl, ap, ◌∙◌, Bool, true, false, some, ◌⊎◌, inl, inr, List, [], ◌∷◌,
  ◌++◌, length, arith,
}
use pebr_benchmark.Ord.{Ord, Ordering-cases}
use pebr_benchmark.SortedMap.{Above, Below, IsSorted}
use pebr_benchmark.SortedMap.Sorted.{Above-trans}
use pebr_benchmark.Shared.{shared, =ₚ-refl}
use pebr_benchmark.World.{quiet}
use pebr_benchmark.World.Returns
use pebr_benchmark.World.Returns.{Returns, returns}
use pebr_benchmark.Ebr.LinkedList.Heap.{Node, Heap, Place, next_of, Cursor}
use pebr_benchmark.Ebr.LinkedList.Find.{
  Finder, harris_walk, clean_up, find_harris, find_harris_michael, cursor_at,
}
use pebr_benchmark.Ebr.LinkedList.Chain.{
  AllLive, Cell, first, stored, Chain, all_entries, not_null, deref-ok, load-ok,
}
use pebr_benchmark.Ebr.LinkedList.Relink.{end_of}

module _ {K V : Type 0} ⦃o : Ord K⦄ (key : K) where
  -- Where the search stops in the nodes `cs` behind the pointer `p`: behind the nodes of smaller
  -- keys, before all others, of which the first may have the key.
  pub record Placed (p : Place) (cs : List (Cell K V)) (found : Bool) (cursor : Cursor)
      : Type 0 where
    pub before : List (Cell K V)
    pub after : List (Cell K V)
    pub split : cs ≡ before ++ after
    pub at : cursor ≡ cursor_at (end_of p before) (shared (first after) 0)
    pub below : Below key (all_entries before)
    pub spot :
        ((found ≡ false) × Above key (all_entries after))
        ⊎ (c : Cell K V) × (rest : List (Cell K V)) × (after ≡ c ∷ rest)
          × (found ≡ true)
          × (o.cmp c.key key ≡ eq)

  Placed-pass :
      (p : Place) (c : Cell K V) (cs : List (Cell K V)) (found : Bool) (cursor : Cursor)
      → o.cmp c.key key ≡ lt
      → Placed (next_of c.addr) cs found cursor
      → Placed p (c ∷ cs) found cursor
  Placed-pass p c cs found cursor less i = record {
    before = c ∷ i.before;
    after = i.after;
    split = ap (λ ds. c ∷ ds) i.split;
    at = i.at;
    below = (less, i.below);
    spot = i.spot;
  }

  pub Placed-end : (p : Place) → Placed p [] false (cursor_at p (shared 0 0))
  Placed-end p = record {
    before = [];
    after = [];
    split = refl;
    at = refl;
    below = tt;
    spot = inl (refl, tt);
  }

  module _ (p : Place) (c : Cell K V) (cs : List (Cell K V)) where
    pub Placed-at : o.cmp c.key key ≡ eq → Placed p (c ∷ cs) true (cursor_at p (shared c.addr 0))
    Placed-at equal = record {
      before = [];
      after = c ∷ cs;
      split = refl;
      at = refl;
      below = tt;
      spot = inr (c, cs, refl, refl, equal);
    }

    pub Placed-ahead :
        o.cmp key c.key ≡ lt
        → IsSorted (all_entries (c ∷ cs))
        → Placed p (c ∷ cs) false (cursor_at p (shared c.addr 0))
    Placed-ahead ahead so = record {
      before = [];
      after = c ∷ cs;
      split = refl;
      at = refl;
      below = tt;
      spot = inl (refl, (ahead, Above-trans key c.key (all_entries cs) ahead so.0));
    }

-- On a list without marked nodes, a search with enough fuel changes nothing and stops there.
abbrev pub Places : {K V : Type 0} ⦃o : Ord K⦄ → Finder K V → Type 0
Places {K = K} {V = V} finder =
    (key : K) (h : Heap K V) (fuel : ℕ) (cs : List (Cell K V)) (p : Place)
    → length cs < fuel
    → Chain h.cells cs
    → AllLive cs
    → IsSorted (all_entries cs)
    → Returns
        (λ (r, cursor) h' s'.
          (h' ≡ h) × (found : Bool) × (r ≡ some found) × Placed key p cs found cursor)
        (finder fuel key (cursor_at p (shared (first cs) 0)) (quiet h tt))

module _ {K V : Type 0} ⦃o : Ord K⦄ where
  pub find_harris_michael-Placed : Places {K = K} {V = V} find_harris_michael
  unfolding find_harris_michael
  find_harris_michael-Placed key h zero cs p f st live so = absurd (omega arith)
  find_harris_michael-Placed key h (suc fuel) [] p f st live so =
      returns (refl, false, refl, Placed-end key p)
  find_harris_michael-Placed key h (suc fuel) (c ∷ cs) p f st live so =
      let n : Node K V = record { next = shared (first cs) 0; key = c.key; value = c.value } in
      let clean : stored c cs ≡ n = rw (live.0) refl in
      let here : h.cells c.addr ≡ some n = st.1 ∙ ap some clean in
      rw (not_null c.addr 0 st.0, deref-ok h (shared c.addr 0) n here, load-ok h c.addr n here)
        (elim (Ordering-cases (o.cmp c.key key)) [
          | inl less ↦ rw less (
              Returns.weaken
                (find_harris_michael-Placed key h fuel cs (next_of c.addr) (omega arith) st.2 live.1
                  so.1)
                λ (r, cursor) h' s' (same, found, e, i).
                  (same, found, e, Placed-pass key p c cs found cursor less i))
          | inr (inl equal) ↦ rw equal (returns (refl, true, refl, Placed-at key p c cs equal))
          | inr (inr greater) ↦
              rw greater (
                returns
                  (refl, false, refl, Placed-ahead key p c cs (o.cmp_gt c.key key greater) so))
        ])

  harris_walk-Placed :
      (key : K) (h : Heap K V) (fuel : ℕ) (cs : List (Cell K V)) (p : Place)
      → length cs < fuel
      → Chain h.cells cs
      → AllLive cs
      → IsSorted (all_entries cs)
      → Returns
          (λ (found, cursor, prev_next) h' s'.
            (h' ≡ h) × Placed key p cs found cursor × (prev_next ≡ cursor.curr))
          (harris_walk fuel key
            (cursor_at p (shared (first cs) 0))
            (shared (first cs) 0)
            (quiet h tt))
  unfolding harris_walk
  harris_walk-Placed key h zero cs p f st live so = absurd (omega arith)
  harris_walk-Placed key h (suc fuel) [] p f st live so = returns (refl, Placed-end key p, refl)
  harris_walk-Placed key h (suc fuel) (c ∷ cs) p f st live so =
      let n : Node K V = record { next = shared (first cs) 0; key = c.key; value = c.value } in
      let clean : stored c cs ≡ n = rw (live.0) refl in
      let here : h.cells c.addr ≡ some n = st.1 ∙ ap some clean in
      rw (not_null c.addr 0 st.0, deref-ok h (shared c.addr 0) n here, load-ok h c.addr n here)
        (elim (Ordering-cases (o.cmp c.key key)) [
          | inl less ↦ rw less (
              Returns.weaken
                (harris_walk-Placed key h fuel cs (next_of c.addr) (omega arith) st.2 live.1 so.1)
                λ (found, cursor, prev_next) h' s' (same, i, e).
                  (same, Placed-pass key p c cs found cursor less i, e))
          | inr (inl equal) ↦ rw equal (returns (refl, Placed-at key p c cs equal, refl))
          | inr (inr greater) ↦
              rw greater
                (returns (refl, Placed-ahead key p c cs (o.cmp_gt c.key key greater) so, refl))
        ])

  pub find_harris-Placed : Places {K = K} {V = V} find_harris
  unfolding find_harris clean_up
  find_harris-Placed key h fuel cs p f st live so =
      Returns.bind _ (harris_walk-Placed key h fuel cs p f st live so)
        λ (found, cursor, prev_next) h' s' (same, i, e).
          rw (same, e, =ₚ-refl cursor.curr) (returns (refl, found, refl, i))
