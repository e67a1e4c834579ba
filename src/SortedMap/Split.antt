-- ===== src/SortedMap/Split.antt =====
-- The dictionary operations on entries that are split at a key, as a search tree splits them.
use Prim.Native.Nat.Ordering.{eq, gt}
use pebr_benchmark.Base.{◌≡◌, ap, some, [], ◌∷◌, ◌++◌, All-left, All-right, arith}
use pebr_benchmark.Ord.{Ord, ◌≺◌}
use pebr_benchmark.SortedMap.{Entries, lookup, insert, remove, Below, IsSorted}

module _ {K V : Type 0} ⦃o : Ord K⦄ where
  pub IsSorted-left : (xs ys : Entries K V) → IsSorted (xs ++ ys) → IsSorted xs
  IsSorted-left [] ys s = tt
  IsSorted-left (x ∷ xs) ys s = (All-left _ xs ys s.0, IsSorted-left xs ys s.1)

  pub IsSorted-right : (xs ys : Entries K V) → IsSorted (xs ++ ys) → IsSorted ys
  IsSorted-right [] ys s = s
  IsSorted-right (x ∷ xs) ys s = IsSorted-right xs ys s.1

module _ {K V : Type 0} ⦃o : Ord K⦄ (j : K) (w : V) (ys : Entries K V) where
  pub IsSorted-Below : (xs : Entries K V) → IsSorted (xs ++ (j, w) ∷ ys) → Below j xs
  IsSorted-Below [] s = tt
  IsSorted-Below (x ∷ xs) s = ((All-right _ xs ((j, w) ∷ ys) s.0).0, IsSorted-Below xs s.1)

  pub lookup_right :
      (k : K) (xs : Entries K V) → Below j xs → j ≺ k → lookup k (xs ++ (j, w) ∷ ys) ≡ lookup k ys
  unfolding lookup
  lookup_right k [] b h = rw (h, lookup)
  lookup_right k (x ∷ xs) b h = rw (o.cmp_trans x.0 j k b.0 h, lookup) (lookup_right k xs b.1 h)

  pub lookup_here :
      (k : K) (xs : Entries K V)
      → Below j xs
      → o.cmp j k ≡ eq
      → lookup k (xs ++ (j, w) ∷ ys) ≡ some w
  unfolding lookup
  lookup_here k [] b h = rw (h, lookup)
  lookup_here k (x ∷ xs) b h = ground (arith, lookup_here k xs b.1 h, o.cmp_eq j k h, b.0)

  pub lookup_left :
      (k : K) (xs : Entries K V) → o.cmp j k ≡ gt → lookup k (xs ++ (j, w) ∷ ys) ≡ lookup k xs
  unfolding lookup
  lookup_left k [] h = rw (h, lookup)
  lookup_left k (x ∷ xs) h = ground (arith, lookup_left k xs h)

  pub insert_right :
      (k : K) (v : V) (xs : Entries K V)
      → Below j xs
      → j ≺ k
      → insert k v (xs ++ (j, w) ∷ ys) ≡ xs ++ (j, w) ∷ insert k v ys
  unfolding insert
  insert_right k v [] b h = rw (h, insert)
  insert_right k v (x ∷ xs) b h =
      rw (o.cmp_trans x.0 j k b.0 h, insert) (ap (λ m. x ∷ m) (insert_right k v xs b.1 h))

  pub insert_here :
      (k : K) (v : V) (xs : Entries K V)
      → Below j xs
      → o.cmp j k ≡ eq
      → insert k v (xs ++ (j, w) ∷ ys) ≡ xs ++ (j, w) ∷ ys
  unfolding insert
  insert_here k v [] b h = rw (h, insert)
  insert_here k v (x ∷ xs) b h = ground (arith, insert_here k v xs b.1 h, o.cmp_eq j k h, b.0)

  pub insert_left :
      (k : K) (v : V) (xs : Entries K V)
      → o.cmp j k ≡ gt
      → insert k v (xs ++ (j, w) ∷ ys) ≡ insert k v xs ++ (j, w) ∷ ys
  unfolding insert
  insert_left k v [] h = rw (h, insert)
  insert_left k v (x ∷ xs) h = ground (arith, insert_left k v xs h)

  pub remove_right :
      (k : K) (xs : Entries K V)
      → Below j xs
      → j ≺ k
      → remove k (xs ++ (j, w) ∷ ys) ≡ xs ++ (j, w) ∷ remove k ys
  unfolding remove
  remove_right k [] b h = rw (h, remove)
  remove_right k (x ∷ xs) b h =
      rw (o.cmp_trans x.0 j k b.0 h, remove) (ap (λ m. x ∷ m) (remove_right k xs b.1 h))

  pub remove_here :
      (k : K) (xs : Entries K V)
      → Below j xs
      → o.cmp j k ≡ eq
      → remove k (xs ++ (j, w) ∷ ys) ≡ xs ++ ys
  unfolding remove
  remove_here k [] b h = rw (h, remove)
  remove_here k (x ∷ xs) b h = ground (arith, remove_here k xs b.1 h, o.cmp_eq j k h, b.0)

  pub remove_left :
      (k : K) (xs : Entries K V)
      → o.cmp j k ≡ gt
      → remove k (xs ++ (j, w) ∷ ys) ≡ remove k xs ++ (j, w) ∷ ys
  unfolding remove
  remove_left k [] h = rw (h, remove)
  remove_left k (x ∷ xs) h = ground (arith, remove_left k xs h)
