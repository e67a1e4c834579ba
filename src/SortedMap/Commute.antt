-- ===== src/SortedMap/Commute.antt =====
-- Two insertions commute, unless they give one key two values.
use pebr_benchmark.Base.{◌≡◌, inl, inr, [], ◌∷◌, arith}
use pebr_benchmark.Ord.{Ord, Ordering-cases}
use pebr_benchmark.SortedMap.{Entries, insert}

module _ {K V : Type 0} ⦃o : Ord K⦄ where
  -- Insertions of `value_of` the key commute.
  pub insert_comm :
      (value_of : K → V) (j k : K) (m : Entries K V)
      → insert j (value_of j) (insert k (value_of k) m)
        ≡ insert k (value_of k) (insert j (value_of j) m)
  unfolding insert
  insert_comm f j k [] = elim (Ordering-cases (o.cmp j k)) [
    | inl e ↦ ground (arith, o.cmp_lt j k e)
    | inr (inl e) ↦ ground (arith, o.cmp_eq j k e, o.cmp_self j, o.cmp_self k)
    | inr (inr e) ↦ ground (arith, o.cmp_gt j k e)
  ]
  insert_comm f j k ((i, w) ∷ m) = ground (
    arith,
    insert_comm f j k m,
    o.cmp_lt j k,
    o.cmp_gt j k,
    o.cmp_lt k j,
    o.cmp_gt i j,
    o.cmp_gt i k,
    o.cmp_trans j i k,
    o.cmp_trans k i j,
    o.cmp_eq i j,
    o.cmp_eq i k,
    o.cmp_eq j k,
    o.cmp_self j,
    o.cmp_self k,
  )
