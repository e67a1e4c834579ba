-- ===== src/SortedMap/Assign.antt =====
-- A dictionary as a function, and the sorted entries that stand for it.
use Prim.Native.Nat.Ordering.{lt, eq, gt}
use mathlib.Core.Path.{subst}
use pebr_benchmark.SortedMap.Sorted.{Above-trans}
use pebr_benchmark.Base.{◌≡◌, ◌≢◌, refl, inl, inr, Option, none, some, [], ◌∷◌, sym, arith}
use pebr_benchmark.Ord.{Ord, ◌≺◌, Ordering-cases}
use pebr_benchmark.SortedMap.{Entries, lookup, insert, remove, Above, IsSorted}

-- A key that is there keeps its value.
abbrev pub or_else : {V : Type 0} → V → Option V → Option V
or_else v none = some v
or_else v (some w) = some w

module _ {K V : Type 0} ⦃o : Ord K⦄ where
  abbrev pub assign : K → V → (K → Option V) → K → Option V
  assign k v m j = elim (o.cmp j k) [ lt ↦ m j | eq ↦ or_else v (m k) | gt ↦ m j ]

  abbrev pub erase : K → (K → Option V) → K → Option V
  erase k m j = elim (o.cmp j k) [ lt ↦ m j | eq ↦ none | gt ↦ m j ]

  lookup_missing : (k : K) (m : Entries K V) → Above k m → lookup k m ≡ none
  unfolding lookup
  lookup_missing k [] above = refl
  lookup_missing k ((j, w) ∷ m) above = ground (arith, o.cmp_lt k j)

  module _ (k : K) where
    lookup-insert_here :
        (v : V) (m : Entries K V) → lookup k (insert k v m) ≡ or_else v (lookup k m)
    unfolding lookup insert
    lookup-insert_here v [] = ground (arith, o.cmp_self k)
    lookup-insert_here v ((i, w) ∷ m) = ground (arith, o.cmp_self k, lookup-insert_here v m)

    lookup-remove_here : (m : Entries K V) → IsSorted m → lookup k (remove k m) ≡ none
    unfolding lookup remove
    lookup-remove_here [] so = refl
    lookup-remove_here ((i, w) ∷ m) so =
        let gone : o.cmp i k ≡ eq → lookup k m ≡ none =
          λ e. lookup_missing k m (subst (λ z. Above z m) (o.cmp_eq i k e) so.0) in
        ground (arith, gone, lookup-remove_here m so.1)

    module _ (j : K) where
      lookup-insert_before :
          (v : V) (m : Entries K V) → j ≺ k → lookup j (insert k v m) ≡ lookup j m
      unfolding lookup insert
      lookup-insert_before v [] less = ground (arith, o.cmp_lt j k less)
      lookup-insert_before v ((i, w) ∷ m) less = ground (
        arith,
        lookup-insert_before v m less,
        o.cmp_lt j k less,
        o.cmp_gt i k,
        o.cmp_trans j k i,
        o.cmp_lt j i,
      )

      lookup-insert_behind :
          (v : V) (m : Entries K V) → k ≺ j → lookup j (insert k v m) ≡ lookup j m
      unfolding lookup insert
      lookup-insert_behind v [] less = ground arith
      lookup-insert_behind v ((i, w) ∷ m) less = ground (arith, lookup-insert_behind v m less)

      lookup-remove_before :
          (m : Entries K V) → IsSorted m → j ≺ k → lookup j (remove k m) ≡ lookup j m
      unfolding lookup remove
      lookup-remove_before [] so less = refl
      lookup-remove_before ((i, w) ∷ m) so less =
          let gone : o.cmp i k ≡ eq → lookup j m ≡ none = λ e.
            lookup_missing j m
              (Above-trans j i m (subst (λ z. j ≺ z) (sym (o.cmp_eq i k e)) less) so.0) in
          ground (arith, gone, lookup-remove_before m so.1 less, o.cmp_lt j k less, o.cmp_eq i k)

      lookup-remove_behind : (m : Entries K V) → k ≺ j → lookup j (remove k m) ≡ lookup j m
      unfolding lookup remove
      lookup-remove_behind [] less = refl
      lookup-remove_behind ((i, w) ∷ m) less =
          ground (arith, lookup-remove_behind m less, o.cmp_eq i k)

      pub lookup-insert_any :
          (v : V) (m : Entries K V) → lookup j (insert k v m) ≡ assign k v (λ i. lookup i m) j
      lookup-insert_any v m = elim (Ordering-cases (o.cmp j k)) [
        | inl less ↦ rw (less, assign) (lookup-insert_before v m less)
        | inr (inl e) ↦
            rw (e, assign)
              (subst (λ z. lookup z (insert k v m) ≡ or_else v (lookup k m)) (sym (o.cmp_eq j k e))
                (lookup-insert_here v m))
        | inr (inr more) ↦ rw (more, assign) (lookup-insert_behind v m (o.cmp_gt j k more))
      ]

      pub lookup-remove_any :
          (m : Entries K V) → IsSorted m → lookup j (remove k m) ≡ erase k (λ i. lookup i m) j
      lookup-remove_any m so = elim (Ordering-cases (o.cmp j k)) [
        | inl less ↦ rw (less, erase) (lookup-remove_before m so less)
        | inr (inl e) ↦
            rw (e, erase)
              (subst (λ z. lookup z (remove k m) ≡ none) (sym (o.cmp_eq j k e))
                (lookup-remove_here m so))
        | inr (inr more) ↦ rw (more, erase) (lookup-remove_behind m (o.cmp_gt j k more))
      ]

      pub assign-agree :
          (v : V) (m m' : K → Option V) → m j ≡ m' j → m k ≡ m' k → assign k v m j ≡ assign k v m' j
      assign-agree v m m' e f = elim (Ordering-cases (o.cmp j k)) [
        | inl less ↦ rw (less, assign) e
        | inr (inl same) ↦ rw (same, assign, f) refl
        | inr (inr more) ↦ rw (more, assign) e
      ]

      pub assign_other : (v : V) (m : K → Option V) → j ≢ k → assign k v m j ≡ m j
      assign_other v m ne = elim (Ordering-cases (o.cmp j k)) [
        | inl less ↦ rw (less, assign) refl
        | inr (inl same) ↦ absurd (ne (o.cmp_eq j k same))
        | inr (inr more) ↦ rw (more, assign) refl
      ]

      pub erase-agree : (m m' : K → Option V) → m j ≡ m' j → erase k m j ≡ erase k m' j
      erase-agree m m' e = elim (Ordering-cases (o.cmp j k)) [
        | inl less ↦ rw (less, erase) e
        | inr (inl same) ↦ rw (same, erase) refl
        | inr (inr more) ↦ rw (more, erase) e
      ]

      pub erase_other : (m : K → Option V) → j ≢ k → erase k m j ≡ m j
      erase_other m ne = elim (Ordering-cases (o.cmp j k)) [
        | inl less ↦ rw (less, erase) refl
        | inr (inl same) ↦ absurd (ne (o.cmp_eq j k same))
        | inr (inr more) ↦ rw (more, erase) refl
      ]
