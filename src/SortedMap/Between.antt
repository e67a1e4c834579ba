-- ===== src/SortedMap/Between.antt =====
-- The dictionary operations at a key that lies between two parts of a dictionary.
use pebr_benchmark.Base.{◌≡◌, refl, ap, none, [], ◌∷◌, ◌++◌}
use pebr_benchmark.Ord.{Ord}
use pebr_benchmark.SortedMap.{Entries, lookup, insert, remove, Above, Below}

module _ {K V : Type 0} ⦃o : Ord K⦄ (k : K) where
  pub lookup_between : (xs ys : Entries K V) → Below k xs → Above k ys → lookup k (xs ++ ys) ≡ none
  unfolding lookup
  lookup_between [] [] b a = refl
  lookup_between [] (y ∷ ys) b a = rw (o.cmp_lt k y.0 a.0, lookup) refl
  lookup_between (x ∷ xs) ys b a = rw (b.0, lookup) (lookup_between xs ys b.1 a)

  pub insert_between :
      (v : V) (xs ys : Entries K V)
      → Below k xs
      → Above k ys
      → insert k v (xs ++ ys) ≡ xs ++ (k, v) ∷ ys
  unfolding insert
  insert_between v [] [] b a = refl
  insert_between v [] (y ∷ ys) b a = rw (o.cmp_lt k y.0 a.0, insert) refl
  insert_between v (x ∷ xs) ys b a =
      rw (b.0, insert) (ap (λ m. x ∷ m) (insert_between v xs ys b.1 a))

  pub remove_between :
      (xs ys : Entries K V) → Below k xs → Above k ys → remove k (xs ++ ys) ≡ xs ++ ys
  unfolding remove
  remove_between [] [] b a = refl
  remove_between [] (y ∷ ys) b a = rw (o.cmp_lt k y.0 a.0, remove) refl
  remove_between (x ∷ xs) ys b a = rw (b.0, remove) (ap (λ m. x ∷ m) (remove_between xs ys b.1 a))
