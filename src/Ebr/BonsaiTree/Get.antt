-- ===== src/Ebr/BonsaiTree/Get.antt =====
-- `get` of ebr/bonsai_tree.rs reads the dictionary and changes nothing.
use Prim.Native.Nat.Ordering.{lt, eq, gt}
use pebr_benchmark.Base.{
  ℕ, zero, suc, ◌<◌, ◌≡◌, refl, ap, ◌∙◌, inl, inr, Option, none, some, ◌∷◌, arith, if◌then◌else◌,
}
use pebr_benchmark.Ord.{Ord, Ordering-cases}
use pebr_benchmark.SortedMap.{Entries, lookup, IsSorted}
use pebr_benchmark.SortedMap.Split.{
  IsSorted-left, IsSorted-right, IsSorted-Below, lookup_right, lookup_here, lookup_left,
}
use pebr_benchmark.Shared.{is_null}
use pebr_benchmark.World.{ok, quiet, pure, ◌>>=◌}
use pebr_benchmark.Ebr.BonsaiTree.Node.{Node, Heap, State, deref}
use pebr_benchmark.Ebr.BonsaiTree.Map
use pebr_benchmark.Ebr.BonsaiTree.Tree.{
  Tree, leaf, node, entries, ptr, Stored, not_null, deref-ok, load_left-ok, load_right-ok, spot-ok,
}
use pebr_benchmark.Ebr.BonsaiTree.Insert.{height}
use pebr_benchmark.Ebr.BonsaiTree.Update.{Holds, load_root-ok}

module _ {K V : Type 0} ⦃o : Ord K⦄ (key : K) where
  -- The subtree where the search ends.
  descend : Tree K V → Tree K V
  descend leaf = leaf
  descend (node a l k v r) = elim (o.cmp key k) [
    | lt ↦ descend l
    | eq ↦ node a l k v r
    | gt ↦ descend r
  ]

  abbrev root_value : Tree K V → Option V
  root_value leaf = none
  root_value (node a l k v r) = some v

  module _ (a : ℕ) (l : Tree K V) (k : K) (v : V) (r : Tree K V) where
    descend-lt : o.cmp key k ≡ lt → descend (node a l k v r) ≡ descend l
    unfolding descend
    descend-lt h = rw (h, descend)

    descend-eq : o.cmp key k ≡ eq → descend (node a l k v r) ≡ node a l k v r
    unfolding descend
    descend-eq h = rw (h, descend)

    descend-gt : o.cmp key k ≡ gt → descend (node a l k v r) ≡ descend r
    unfolding descend
    descend-gt h = rw (h, descend)

  descend-lookup :
      (t : Tree K V) → IsSorted (entries t) → root_value (descend t) ≡ lookup key (entries t)
  descend-lookup leaf so = unfold descend lookup in refl
  descend-lookup (node a l k v r) so =
      let below = IsSorted-Below k v (entries r) (entries l) so in
      elim (Ordering-cases (o.cmp key k)) [
        | inl less ↦
            rw
              (
                descend-lt a l k v r less,
                lookup_left k v (entries r) key (entries l) (o.cmp_lt key k less),
              )
              (descend-lookup l (IsSorted-left (entries l) ((k, v) ∷ entries r) so))
        | inr (inl same) ↦
            let here : o.cmp k key ≡ eq = rw (o.cmp_eq key k same) (o.cmp_self k) in
            rw (descend-eq a l k v r same, lookup_here k v (entries r) key (entries l) below here)
        | inr (inr more) ↦
            rw
              (
                descend-gt a l k v r more,
                lookup_right k v (entries r) key (entries l) below (o.cmp_gt key k more),
              )
              (descend-lookup r (IsSorted-right (entries l) ((k, v) ∷ entries r) so).1)
      ]

  descend-Stored : (c : ℕ → Option (Node K V)) (t : Tree K V) → Stored c t → Stored c (descend t)
  descend-Stored c leaf st = unfold descend in tt
  descend-Stored c (node a l k v r) st = elim (Ordering-cases (o.cmp key k)) [
    | inl less ↦ rw (descend-lt a l k v r less) (descend-Stored c l st.2)
    | inr (inl same) ↦ rw (descend-eq a l k v r same) st
    | inr (inr more) ↦ rw (descend-gt a l k v r more) (descend-Stored c r st.3)
  ]

  walk-descend :
      (fuel : ℕ) (t : Tree K V) (h : Heap K V) (s : State)
      → height t < fuel
      → Stored h.cells t
      → Map.walk fuel (ptr t) key (quiet h s) ≡ ok (ptr (descend t)) (quiet h s)
  unfolding Map.walk
  walk-descend zero t h s f st = absurd (omega arith)
  walk-descend (suc fuel) leaf h s f st = unfold descend in refl
  walk-descend (suc fuel) (node a l k v r) h s f st =
      rw (not_null a st.0, deref-ok h s a l k v r st)
        (elim (Ordering-cases (o.cmp key k)) [
          | inl less ↦
              rw (descend-lt a l k v r less, less, load_left-ok h s a l k v r st)
                (walk-descend fuel l h s (omega arith) st.2)
          | inr (inl same) ↦ rw (descend-eq a l k v r same, same)
          | inr (inr more) ↦
              rw (descend-gt a l k v r more, more, load_right-ok h s a l k v r st)
                (walk-descend fuel r h s (omega arith) st.3)
        ])

  read_root :
      (t : Tree K V) (h : Heap K V) (s : State)
      → Stored h.cells t
      → (if is_null (ptr t) then pure none else (deref (ptr t) >>= λ n. pure (some n.value)))
          (quiet h s)
        ≡ ok (root_value t) (quiet h s)
  read_root leaf h s st = refl
  read_root (node a l k v r) h s st = rw (not_null a st.0, deref-ok h s a l k v r st)

  -- Undisturbed, on a map that holds the sorted entries `xs`, with a round and a depth above the
  -- tree's height, `get` returns what `xs` has at the key, and changes nothing.
  pub get-lookup :
      (rounds depth : ℕ) {h : Heap K V} {xs : Entries K V} (s : State) (m : Holds h xs)
      → height m.tree < depth
      → Map.get (suc rounds) depth key (quiet h s) ≡ ok (lookup key xs) (quiet h s)
  unfolding Map.get
  get-lookup rounds depth {h} s m enough =
      let found = descend m.tree in
      let st = descend-Stored h.cells m.tree m.owns.stored in
      rw
        (
          load_root-ok h s (ptr m.tree) m.owns.root,
          walk-descend depth m.tree h s enough m.owns.stored,
          spot-ok h s found st,
        )
        (read_root found h s st
          ∙ ap (λ v. ok v (quiet h s))
              (descend-lookup m.tree (rw (m.listed) m.sorted) ∙ ap (lookup key) m.listed))
