-- ===== src/Pebr/LinkedList/Search.antt =====
-- The searches of pebr/list.rs where they only read, whatever shields answer: that of Herlihy and
-- Shavit on any list, that of Harris and Michael on one without marked nodes.
use Prim.Native.Nat.Ordering.{lt, eq}
use mathlib.Core.Path.{subst}
use pebr_benchmark.Base.{
  ℕ, zero, suc, ◌<◌, ◌≡◌, ◌∙◌, refl, ap, inl, inr, ◌⊎◌, Bool, true, false, none, some, List, [],
  ◌∷◌, length, ◌==◌, Bool-cases, arith,
}
use pebr_benchmark.Ord.{Ord, Ordering-cases, by_order}
use pebr_benchmark.SortedMap.{lookup, IsSorted}
use pebr_benchmark.SortedMap.Sorted.{Above-trans}
use pebr_benchmark.Shared.{Shared, shared}
use pebr_benchmark.World.{quiet}
use pebr_benchmark.World.Returns
use pebr_benchmark.World.Returns.{Returns, returns}
use pebr_benchmark.Ebr.LinkedList.Chain.{
  AllLive, Cell, first, next, all_entries, live_entries, not_null, lookup_before, lookup_pass,
}
use pebr_benchmark.Pebr.ShieldPool.{ShieldApi}
use pebr_benchmark.Pebr.LinkedList.Heap.{list_node, Node, Heap}
use pebr_benchmark.Pebr.LinkedList.Cursor.{
  Local, Outcome, done, ejected, fake_curr, defend_curr, swap,
}
use pebr_benchmark.Pebr.LinkedList.Find.{herlihy_shavit_loop, harris_michael_loop}
use pebr_benchmark.Pebr.LinkedList.Chain.{stored, Chain, deref-ok, load-ok}

not_both : {b : Bool} → b ≡ false → ¬ (b ≡ true)
not_both e f = ground arith

module _ (api : ShieldApi) where
  open api use {Guard, Shield, defend_shield, deref_shield, elapse}

  -- `curr` is defended.
  abbrev pub defended_curr : Local Shield Guard → Shared → Local Shield Guard
  defended_curr l p = record {
    cursor = record l.cursor { curr = (defend_shield l.cursor.curr p l.guard).0 };
    guard = elapse l.guard;
  }

  module _ {K V : Type 0} ⦃o : Ord K⦄ (key : K) (h : Heap K V) where
    -- The key is not there, or `curr` holds its node.
    abbrev pub Answer : List (Cell K V) → Bool → Local Shield Guard → Type 0
    Answer cs found l =
        ((found ≡ false) × (lookup key (live_entries cs) ≡ none))
        ⊎ ((n : Node K V) × (found ≡ true)
            × (h.cells (deref_shield l.cursor.curr).addr ≡ some (list_node n))
            × (lookup key (live_entries cs) ≡ some n.value))

    Answer-pass :
        (c : Cell K V) (cs : List (Cell K V)) (found : Bool) (l : Local Shield Guard)
        → o.cmp c.key key ≡ lt
        → Answer cs found l
        → Answer (c ∷ cs) found l
    Answer-pass c cs found l less a = rw (lookup_pass key c cs less) a

    Answer-before :
        (c : Cell K V) (cs : List (Cell K V)) (l : Local Shield Guard)
        → o.cmp key c.key ≡ lt
        → IsSorted (all_entries (c ∷ cs))
        → Answer (c ∷ cs) false l
    Answer-before c cs l before so = inl (
      refl,
      lookup_before key (c ∷ cs) (before, Above-trans key c.key (all_entries cs) before so.0),
    )

    Answer-at :
        (c : Cell K V) (cs : List (Cell K V)) (l : Local Shield Guard) (t : ℕ)
        → o.cmp c.key key ≡ eq
        → deref_shield l.cursor.curr ≡ shared c.addr t
        → Chain h.cells (c ∷ cs)
        → IsSorted (all_entries (c ∷ cs))
        → Answer (c ∷ cs) ((next c cs).tag == 0) l
    unfolding lookup
    Answer-at c cs l t equal held st so = elim (Bool-cases c.marked) [
      | inl e ↦ rw e (inl (refl, lookup_before key cs (rw (← o.cmp_eq c.key key equal) so.0)))
      | inr e ↦ rw e (inr (stored c cs, refl, rw held st.1, rw (equal, lookup) refl))
    ]

    -- `Calm` guards are those whose thread is not ejected until the guard is repinned.
    module _ (Calm : Guard → Type 0) where
      -- The memory stays; an ejection ends the search of a guard that is not calm, or it answers.
      abbrev pub Seen :
          List (Cell K V) → Guard → Outcome Bool → Heap K V → Local Shield Guard → Type 0
      Seen cs g r h' l =
          (h' ≡ h)
          × (((r ≡ ejected) × (¬ Calm g)) ⊎ ((found : Bool) × (r ≡ done found) × Answer cs found l))

      module _ (calm_elapse : (g : Guard) → Calm g → Calm (elapse g))
          (calm_defend : (s : Shield) (p : Shared) (g : Guard)
            → Calm g
            → (defend_shield s p g).1 ≡ true)
          (defended : (s : Shield) (p : Shared) (g : Guard)
            → (defend_shield s p g).1 ≡ true
            → deref_shield (defend_shield s p g).0 ≡ p) where
        Seen-pass :
            (c : Cell K V) (cs : List (Cell K V)) (g : Guard) (r : Outcome Bool) (h' : Heap K V)
            (l : Local Shield Guard)
            → o.cmp c.key key ≡ lt
            → Seen cs (elapse g) r h' l
            → Seen (c ∷ cs) g r h' l
        Seen-pass c cs g r h' l less (same, inl (e, restless)) =
            (same, inl (e, λ still. restless (calm_elapse g still)))
        Seen-pass c cs g r h' l less (same, inr (found, e, a)) =
            (same, inr (found, e, Answer-pass c cs found l less a))

        gone-Seen :
            (cs : List (Cell K V)) (l l' : Local Shield Guard) (p : Shared)
            → (defend_shield l.cursor.curr p l.guard).1 ≡ false
            → Seen cs l.guard ejected h l'
        gone-Seen cs l l' p gone =
            (refl, inl (refl, λ still. not_both gone (calm_defend l.cursor.curr p l.guard still)))

        pub herlihy_shavit_loop-Seen :
            (fuel : ℕ) (cs : List (Cell K V)) (t : ℕ) (l : Local Shield Guard)
            → length cs < fuel
            → Chain h.cells cs
            → IsSorted (all_entries cs)
            → Returns
                (Seen cs l.guard)
                (herlihy_shavit_loop api fuel key (shared (first cs) t) (quiet h l))
        unfolding herlihy_shavit_loop lookup fake_curr defend_curr swap by_order
        herlihy_shavit_loop-Seen zero cs t l f st so = absurd (omega arith)
        herlihy_shavit_loop-Seen (suc fuel) [] t l f st so =
            returns (refl, inr (false, refl, inl (refl, refl)))
        herlihy_shavit_loop-Seen (suc fuel) (c ∷ cs) t l f st so =
            let p : Shared = shared c.addr t in
            let l' = defended_curr l p in
            elim (Bool-cases (defend_shield l.cursor.curr p l.guard).1) [
              | inr gone ↦
                  rw (not_null c.addr t st.0, gone) (returns (gone-Seen (c ∷ cs) l l' p gone))
              | inl held ↦
                  rw (not_null c.addr t st.0, held, deref-ok h l' p (stored c cs) st.1)
                    (elim (Ordering-cases (o.cmp c.key key)) [
                      | inl less ↦
                          rw (less, load-ok h l' p (stored c cs) st.1)
                            (Returns.weaken
                              (herlihy_shavit_loop-Seen fuel cs _ _ (omega arith) st.2 so.1)
                              λ r h' s' seen. Seen-pass c cs l.guard r h' s' less seen)
                      | inr (inl equal) ↦
                          rw (equal, load-ok h l' p (stored c cs) st.1)
                            (returns (
                              refl,
                              inr (
                                _,
                                refl,
                                Answer-at c cs l' t equal (defended _ p l.guard held) st so,
                              ),
                            ))
                      | inr (inr greater) ↦ rw greater (
                          returns (
                            refl,
                            inr (
                              false,
                              refl,
                              Answer-before c cs l' (o.cmp_gt c.key key greater) so,
                            ),
                          ))
                    ])
            ]

        pub harris_michael_loop-Seen :
            (fuel : ℕ) (cs : List (Cell K V)) (l : Local Shield Guard)
            → length cs < fuel
            → Chain h.cells cs
            → AllLive cs
            → IsSorted (all_entries cs)
            → Returns
                (Seen cs l.guard)
                (harris_michael_loop api fuel key (shared (first cs) 0) (quiet h l))
        unfolding harris_michael_loop lookup fake_curr defend_curr swap by_order
        harris_michael_loop-Seen zero cs l f st live so = absurd (omega arith)
        harris_michael_loop-Seen (suc fuel) [] l f st live so =
            returns (refl, inr (false, refl, inl (refl, refl)))
        harris_michael_loop-Seen (suc fuel) (c ∷ cs) l f st live so =
            let p : Shared = shared c.addr 0 in
            let l' = defended_curr l p in
            let n : Node K V = record {
              next = shared (first cs) 0;
              key = c.key;
              value = c.value;
            } in
            let clean : stored c cs ≡ n = rw live.0 refl in
            let here : h.cells c.addr ≡ some (list_node n) =
              st.1 ∙ ap (λ m. some (list_node m)) clean in
            let untagged : ((next c cs).tag == 0) ≡ true = rw live.0 refl in
            elim (Bool-cases (defend_shield l.cursor.curr p l.guard).1) [
              | inr gone ↦
                  rw (not_null c.addr 0 st.0, gone) (returns (gone-Seen (c ∷ cs) l l' p gone))
              | inl held ↦
                  rw (not_null c.addr 0 st.0, held, deref-ok h l' p n here, load-ok h l' p n here)
                    (elim (Ordering-cases (o.cmp c.key key)) [
                      | inl less ↦ rw less (
                          Returns.weaken
                            (harris_michael_loop-Seen fuel cs _ (omega arith) st.2 live.1 so.1)
                            λ r h' s' seen. Seen-pass c cs l.guard r h' s' less seen)
                      | inr (inl equal) ↦ rw equal (
                          returns (
                            refl,
                            inr (
                              true,
                              refl,
                              subst (λ b. Answer (c ∷ cs) b l') untagged
                                  (Answer-at c cs l' 0 equal (defended _ p l.guard held) st so),
                            ),
                          ))
                      | inr (inr greater) ↦ rw greater (
                          returns (
                            refl,
                            inr (
                              false,
                              refl,
                              Answer-before c cs l' (o.cmp_gt c.key key greater) so,
                            ),
                          ))
                    ])
            ]
