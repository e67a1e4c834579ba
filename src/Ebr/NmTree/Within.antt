-- ===== src/Ebr/NmTree/Within.antt =====
-- ebr/natarajan_mittal_tree.rs: the keys that a way through an ordered tree leads to.
use mathlib.Core.Path.{subst}
use pebr_benchmark.Base.{
  ℕ, sym, inl, inr, List, [], ◌∷◌, All, All-append, All-both, All-left, All-right, All-imp,
}
use pebr_benchmark.Ord.{Ord, ◌≺◌, Ordering-cases}
use pebr_benchmark.SortedMap.{Entries, Above, Below}
use pebr_benchmark.Ebr.NmTree.Node.{Key, fin, inf, Direction, to_left, to_right, opposite}
use pebr_benchmark.Ebr.NmTree.Tree.{Tree, entries, Allowed, Ordered}
use pebr_benchmark.Ebr.NmTree.Path.{Frame, join, plug, before, behind, lefts, rights}

module _ {K : Type 0} ⦃o : Ord K⦄ where
  -- What is left of a key is smaller than what is right of it.
  sides_apart : (k : Key K) (i j : K) → Allowed k to_left i → Allowed k to_right j → i ≺ j
  sides_apart inf i j left right = absurd right
  sides_apart (fin k) i j left right = elim (Ordering-cases (o.cmp j k)) [
    | inl less ↦ absurd (right less)
    | inr (inl equal) ↦ subst (λ z. i ≺ z) (sym (o.cmp_eq j k equal)) left
    | inr (inr more) ↦ o.cmp_trans i k j left (o.cmp_gt j k more)
  ]

module _ {K V : Type 0} ⦃o : Ord K⦄ where
  abbrev pub Within : List (Frame K V) → K → Type 0
  Within [] j = Unit
  Within (x ∷ path) j = Allowed x.key x.dir j × Within path j

  abbrev pub Bounded : List (Frame K V) → Entries K V → Type 0
  Bounded path xs = All (λ e. Within path e.0) xs

  abbrev pub OrderedPath : List (Frame K V) → Type 0
  OrderedPath [] = Unit
  OrderedPath (x ∷ path) =
      All (λ e. Allowed x.key (opposite x.dir) e.0) (entries x.sibling)
      × Bounded path (entries x.sibling)
      × Ordered x.sibling
      × OrderedPath path

  pub Bounded-join :
      (path : List (Frame K V)) (a : ℕ) (k : Key K) (d : Direction) (u v : Tree K V)
      → Bounded path (entries u)
      → Bounded path (entries v)
      → Bounded path (entries (join a k d u v))
  Bounded-join path a k to_left u v bu bv = All-append _ (entries u) (entries v) bu bv
  Bounded-join path a k to_right u v bu bv = All-append _ (entries v) (entries u) bv bu

  join-Bounded :
      (path : List (Frame K V)) (a : ℕ) (k : Key K) (d : Direction) (u v : Tree K V)
      → Bounded path (entries (join a k d u v))
      → Bounded path (entries u) × Bounded path (entries v)
  join-Bounded path a k to_left u v b =
      (All-left _ (entries u) (entries v) b, All-right _ (entries u) (entries v) b)
  join-Bounded path a k to_right u v b =
      (All-right _ (entries v) (entries u) b, All-left _ (entries v) (entries u) b)

  pub Ordered-join :
      (a : ℕ) (k : Key K) (d : Direction) (u v : Tree K V)
      → All (λ e. Allowed k d e.0) (entries u)
      → All (λ e. Allowed k (opposite d) e.0) (entries v)
      → Ordered u
      → Ordered v
      → Ordered (join a k d u v)
  Ordered-join a k to_left u v p q su sv = (p, q, su, sv)
  Ordered-join a k to_right u v p q su sv = (q, p, sv, su)

  join-Ordered :
      (a : ℕ) (k : Key K) (d : Direction) (u v : Tree K V)
      → Ordered (join a k d u v)
      → All (λ e. Allowed k d e.0) (entries u)
        × All (λ e. Allowed k (opposite d) e.0) (entries v)
        × Ordered u
        × Ordered v
  join-Ordered a k to_left u v so = so
  join-Ordered a k to_right u v so = (so.1, so.0, so.3, so.2)

  -- Another subtree may stand at the end of the way if its keys are ones that the way leads to.
  pub plug-Ordered :
      (path : List (Frame K V)) (u : Tree K V)
      → OrderedPath path
      → Ordered u
      → Bounded path (entries u)
      → Ordered (plug path u)
  plug-Ordered [] u op so b = so
  plug-Ordered (x ∷ path) u op so b =
      plug-Ordered path (join x.addr x.key x.dir u x.sibling) op.3
        (Ordered-join x.addr x.key x.dir u x.sibling (All-imp (λ e w. w.0) (entries u) b) op.0 so
          op.2)
        (Bounded-join path x.addr x.key x.dir u x.sibling (All-imp (λ e w. w.1) (entries u) b) op.1)

  pub Ordered-plug :
      (path : List (Frame K V)) (u : Tree K V)
      → Ordered (plug path u)
      → OrderedPath path × Ordered u × Bounded path (entries u)
  Ordered-plug [] u so = (tt, so, All-trivial (entries u))
    where
      All-trivial : (xs : Entries K V) → All (λ e. Unit {0}) xs
      All-trivial [] = tt
      All-trivial (x ∷ xs) = (tt, All-trivial xs)
  Ordered-plug (x ∷ path) u so =
      let (op, here, b) = Ordered-plug path (join x.addr x.key x.dir u x.sibling) so in
      let (p, q, su, sv) = join-Ordered x.addr x.key x.dir u x.sibling here in
      let (bu, bv) = join-Bounded path x.addr x.key x.dir u x.sibling b in
      ((q, bv, sv, op), su, All-both _ _ (entries u) p bu)

  before-Below :
      (key : K) (k : Key K) (d : Direction) (xs : Entries K V)
      → Allowed k d key
      → All (λ e. Allowed k (opposite d) e.0) xs
      → Below key (before d xs)
  before-Below key k to_left xs here there = tt
  before-Below key k to_right xs here there =
      All-imp (λ e left. sides_apart k e.0 key left here) xs there

  behind-Above :
      (key : K) (k : Key K) (d : Direction) (xs : Entries K V)
      → Allowed k d key
      → All (λ e. Allowed k (opposite d) e.0) xs
      → Above key (behind d xs)
  behind-Above key k to_left xs here there =
      All-imp (λ e right. sides_apart k key e.0 here right) xs there
  behind-Above key k to_right xs here there = tt

  -- On the way to a key, smaller entries lie on the left, larger ones on the right.
  pub lefts-Below :
      (key : K) (path : List (Frame K V))
      → OrderedPath path
      → Within path key
      → Below key (lefts path)
  lefts-Below key [] op w = tt
  lefts-Below key (x ∷ path) op w =
      All-append _ (lefts path) (before x.dir (entries x.sibling)) (lefts-Below key path op.3 w.1)
        (before-Below key x.key x.dir (entries x.sibling) w.0 op.0)

  pub rights-Above :
      (key : K) (path : List (Frame K V))
      → OrderedPath path
      → Within path key
      → Above key (rights path)
  rights-Above key [] op w = tt
  rights-Above key (x ∷ path) op w =
      All-append _ (behind x.dir (entries x.sibling)) (rights path)
        (behind-Above key x.key x.dir (entries x.sibling) w.0 op.0) (rights-Above key path op.3 w.1)
