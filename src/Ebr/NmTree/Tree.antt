-- ===== src/Ebr/NmTree/Tree.antt =====
-- ebr/natarajan_mittal_tree.rs: an external tree in memory, and the entries of its leaves.
use mathlib.Core.Path.{subst}
use Prim.Native.Nat.{max}
use Prim.Native.Nat.Ordering.{lt, eq, gt}
use pebr_benchmark.Base.{
  ℕ, suc, ◌<◌, ◌⊎◌, ◌≡◌, refl, ap, ◌∙◌, sym, Option, none, some, inl, inr, [], ◌∷◌, ◌++◌,
  append-nil, All, All-imp, arith,
}
use pebr_benchmark.Ord.{Ord, ◌≺◌, Ordering-cases}
use pebr_benchmark.SortedMap.{Entries, lookup, Above, Below}
use pebr_benchmark.Shared.{shared}
use pebr_benchmark.Ebr.NmTree.Node.{
  Key, fin, inf, key_cmp, Node, new_leaf, Direction, to_left, to_right,
}
use pebr_benchmark.Ebr.NmTree.Seek.{side}

-- A leaf has an entry, or the infinite key.
pub data Tree (K V : Type 0) : Type 0 where
  tip : ℕ → Option (K × V) → Tree K V
  fork : ℕ → Key K → Tree K V → Tree K V → Tree K V

module _ {K V : Type 0} where
  abbrev pub root : Tree K V → ℕ
  root (tip a p) = a
  root (fork a k l r) = a

  abbrev pub leaf_node : Option (K × V) → Node K V
  leaf_node none = new_leaf inf none
  leaf_node (some (k, v)) = new_leaf (fin k) (some v)

  abbrev pub fork_node : Key K → Tree K V → Tree K V → Node K V
  fork_node k l r = record {
    key = k;
    value = none;
    left = shared (root l) 0;
    right = shared (root r) 0;
  }

  -- No edge is flagged or tagged.
  abbrev pub Stored : (ℕ → Option (Node K V)) → Tree K V → Type 0
  Stored mem (tip a p) = (0 < a) × (mem a ≡ some (leaf_node p))
  Stored mem (fork a k l r) =
      (0 < a) × (mem a ≡ some (fork_node k l r)) × Stored mem l × Stored mem r

  abbrev pub height : Tree K V → ℕ
  height (tip a p) = 1
  height (fork a k l r) = suc (max (height l) (height r))

  abbrev pub entries : Tree K V → Entries K V
  entries (tip a none) = []
  entries (tip a (some e)) = e ∷ []
  entries (fork a k l r) = entries l ++ entries r

  abbrev pub child_of : Tree K V → Tree K V → Direction → Tree K V
  child_of l r to_left = l
  child_of l r to_right = r

module _ {K : Type 0} ⦃o : Ord K⦄ where
  -- Left of a key are the smaller ones, right of it the others; right of the infinite key is none.
  abbrev pub Allowed : Key K → Direction → K → Type 0
  Allowed (fin k) to_left j = j ≺ k
  Allowed (fin k) to_right j = (o.cmp j k ≡ lt) → ⊥
  Allowed inf to_left j = Unit
  Allowed inf to_right j = ⊥

module _ {K V : Type 0} ⦃o : Ord K⦄ where
  abbrev pub Ordered : Tree K V → Type 0
  Ordered (tip a p) = Unit
  Ordered (fork a k l r) =
      All (λ e. Allowed k to_left e.0) (entries l)
      × All (λ e. Allowed k to_right e.0) (entries r)
      × Ordered l
      × Ordered r

  -- The leaf that a walk ends at: its address and its entry.
  abbrev pub reach : K → Tree K V → ℕ × Option (K × V)
  reach key (tip a p) = (a, p)
  reach key (fork a k l r) = elim (side (key_cmp k key)) [
    | to_left ↦ reach key l
    | to_right ↦ reach key r
  ]

  abbrev pub answer : K → Option (K × V) → Option V
  answer key none = none
  answer key (some (k, v)) = elim (o.cmp k key) [ eq ↦ some v | lt ↦ none | gt ↦ none ]

  lookup_left_part :
      (key : K) (xs ys : Entries K V) → Above key ys → lookup key (xs ++ ys) ≡ lookup key xs
  unfolding lookup
  lookup_left_part key [] [] above = refl
  lookup_left_part key [] (y ∷ ys) above = rw (o.cmp_lt key y.0 above.0, lookup) refl
  lookup_left_part key (x ∷ xs) ys above = ground (arith, lookup_left_part key xs ys above)

  lookup_right_part :
      (key : K) (xs ys : Entries K V) → Below key xs → lookup key (xs ++ ys) ≡ lookup key ys
  unfolding lookup
  lookup_right_part key [] ys below = refl
  lookup_right_part key (x ∷ xs) ys below =
      rw (below.0, lookup) (lookup_right_part key xs ys below.1)

  Above-side :
      (k key : K) (ys : Entries K V)
      → o.cmp k key ≡ gt
      → All (λ e. (o.cmp e.0 k ≡ lt) → ⊥) ys
      → Above key ys
  Above-side k key ys greater = All-imp (λ e apart. smaller e.0 apart) ys
    where
      smaller : (j : K) → ((o.cmp j k ≡ lt) → ⊥) → key ≺ j
      smaller j apart = elim (Ordering-cases (o.cmp j k)) [
        | inl less ↦ absurd (apart less)
        | inr (inl equal) ↦ ground (arith, o.cmp_eq j k equal, o.cmp_gt k key greater)
        | inr (inr more) ↦ o.cmp_trans key k j (o.cmp_gt k key greater) (o.cmp_gt j k more)
      ]

  Below-side :
      (k key : K) (xs : Entries K V)
      → (o.cmp k key ≡ lt) ⊎ (o.cmp k key ≡ eq)
      → Below k xs
      → Below key xs
  Below-side k key xs le =
      All-imp
        (λ e less. elim le [
          | inl more ↦ o.cmp_trans e.0 k key less more
          | inr equal ↦ subst (λ j. e.0 ≺ j) (o.cmp_eq k key equal) less
        ])
        xs

  All-none : (xs : Entries K V) → All (λ e. ⊥) xs → xs ≡ []
  All-none [] none_there = refl
  All-none (x ∷ xs) none_there = absurd none_there.0

  pub reach-lookup :
      (key : K) (t : Tree K V) → Ordered t → answer key (reach key t).1 ≡ lookup key (entries t)
  unfolding lookup
  reach-lookup key (tip a none) so = refl
  reach-lookup key (tip a (some e)) so = ground arith
  reach-lookup key (fork a inf l r) so =
      rw (All-none (entries r) so.1)
        (reach-lookup key l so.2 ∙ ap (lookup key) (sym (append-nil (entries l))))
  reach-lookup key (fork a (fin k) l r) so = elim (Ordering-cases (o.cmp k key)) [
    | inl less ↦
        rw (less, reach)
          (reach-lookup key r so.3
            ∙ sym (
                lookup_right_part key (entries l) (entries r)
                  (Below-side k key (entries l) (inl less) so.0)))
    | inr (inl equal) ↦
        rw (equal, reach)
          (reach-lookup key r so.3
            ∙ sym (
                lookup_right_part key (entries l) (entries r)
                  (Below-side k key (entries l) (inr equal) so.0)))
    | inr (inr greater) ↦
        rw (greater, reach)
          (reach-lookup key l so.2
            ∙ sym (
                lookup_left_part key (entries l) (entries r)
                  (Above-side k key (entries r) greater so.1)))
  ]
