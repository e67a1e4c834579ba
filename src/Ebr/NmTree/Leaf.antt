-- ===== src/Ebr/NmTree/Leaf.antt =====
-- ebr/natarajan_mittal_tree.rs: the leaf at the end of the way to a key, and what it says of the key.
use Prim.Native.Nat.{Ordering}
use Prim.Native.Nat.Ordering.{lt, eq, gt}
use pebr_benchmark.Base.{
  ℕ, ◌≡◌, ap, ◌∙◌, sym, Option, none, some, List, [], ◌∷◌, ◌++◌, append_assoc, All, All-append,
}
use pebr_benchmark.Ord.{Ord}
use mathlib.Core.Path.{subst}
use pebr_benchmark.SortedMap.{Entries, lookup, insert, remove, Above, Below}
use pebr_benchmark.SortedMap.Between.{lookup_between, insert_between, remove_between}
use pebr_benchmark.SortedMap.Split.{lookup_here, insert_here, remove_here}
use pebr_benchmark.Ebr.NmTree.Node.{Key, fin, inf, key_cmp, Direction, to_left, to_right}
use pebr_benchmark.Ebr.NmTree.Tree.{Tree, tip, fork, leaf_node, entries, Allowed}
use pebr_benchmark.Ebr.NmTree.Path.{Frame, join, plug, lefts, rights, entries-plug}
use pebr_benchmark.Ebr.NmTree.Within.{Within, OrderedPath, lefts-Below, rights-Above}
use pebr_benchmark.Ebr.NmTree.Landing.{IsCrown}

module _ {K V : Type 0} ⦃o : Ord K⦄ (key : K) where
  join-IsCrown :
      (a : ℕ) (k : Key K) (d : Direction) (u v w : Tree K V)
      → Allowed k d key
      → IsCrown (join a k d u w)
      → IsCrown (join a k d v w)
  join-IsCrown a (fin k) to_left u v w side crown = absurd crown
  join-IsCrown a (fin k) to_right u v w side crown = absurd crown
  join-IsCrown a inf to_right u v w side crown = absurd side
  join-IsCrown a inf to_left u v (tip b none) side crown = tt
  join-IsCrown a inf to_left u v w side crown = absurd crown

  -- Below its topmost node the crown may change.
  pub plug-IsCrown :
      (x : Frame K V) (path : List (Frame K V)) (u v : Tree K V)
      → Within (x ∷ path) key
      → IsCrown (plug (x ∷ path) u)
      → IsCrown (plug (x ∷ path) v)
  plug-IsCrown x [] u v w crown = join-IsCrown x.addr x.key x.dir u v x.sibling w.0 crown
  plug-IsCrown x (y ∷ path) u v w crown =
      plug-IsCrown y path (join x.addr x.key x.dir u x.sibling)
        (join x.addr x.key x.dir v x.sibling) w.1 crown

  -- A node of the crown with one of its subtrees is cut off.
  pub cut-IsCrown :
      (x : Frame K V) (path : List (Frame K V)) (u : Tree K V)
      → Within (x ∷ path) key
      → IsCrown (plug (x ∷ path) u)
      → IsCrown (plug path x.sibling)
  cut-IsCrown x [] u w crown = go x.addr x.key x.dir x.sibling w.0 crown
    where
      go :
          (a : ℕ) (k : Key K) (d : Direction) (v : Tree K V)
          → Allowed k d key
          → IsCrown (join a k d u v)
          → IsCrown v
      go a (fin k) to_left v side crown = absurd crown
      go a (fin k) to_right v side crown = absurd crown
      go a inf to_right v side crown = absurd side
      go a inf to_left (tip b none) side crown = tt
      go a inf to_left v side crown = absurd crown
  cut-IsCrown x (y ∷ path) u w crown =
      plug-IsCrown y path (join x.addr x.key x.dir u x.sibling) x.sibling w.1 crown

  -- How the leaf's key compares with the key that is looked for.
  abbrev pub leaf_cmp : Option (K × V) → Ordering
  leaf_cmp e = key_cmp (leaf_node e).key key

  pub larger-Allowed :
      (e : Option (K × V)) → leaf_cmp e ≡ gt → Allowed (leaf_node e).key to_left key
  larger-Allowed none more = tt
  larger-Allowed (some (k, w)) more = o.cmp_gt k key more

  pub leaf-Allowed :
      (e : Option (K × V)) (a : ℕ)
      → All (λ x. Allowed (leaf_node e).key to_right x.0) (entries (tip a e))
  leaf-Allowed none a = tt
  leaf-Allowed (some (k, w)) a = ((λ less. cc (less, o.cmp_self k)), tt)

  pub larger-Above : (e : Option (K × V)) (a : ℕ) → leaf_cmp e ≡ gt → Above key (entries (tip a e))
  larger-Above none a more = tt
  larger-Above (some (k, w)) a more = (o.cmp_gt k key more, tt)

  pub smaller-Below : (e : Option (K × V)) (a : ℕ) → leaf_cmp e ≡ lt → Below key (entries (tip a e))
  smaller-Below none a less = cc
  smaller-Below (some (k, w)) a less = (less, tt)

  module _ (a b f : ℕ) (v : V) where
    pub IsCrown-larger :
        (inner : List (Frame K V)) (e : Option (K × V))
        → Within inner key
        → IsCrown (plug inner (tip a e))
        → IsCrown (plug inner (join b (leaf_node e).key to_left (tip f (some (key, v))) (tip a e)))
    IsCrown-larger [] none w crown = tt
    IsCrown-larger [] (some e) w crown = absurd crown
    IsCrown-larger (x ∷ path) e w crown = plug-IsCrown x path (tip a e) _ w crown

    pub IsCrown-smaller :
        (inner : List (Frame K V)) (e : Option (K × V))
        → leaf_cmp e ≡ lt
        → Within inner key
        → IsCrown (plug inner (tip a e))
        → IsCrown (plug inner (join b (fin key) to_right (tip f (some (key, v))) (tip a e)))
    IsCrown-smaller [] none less w crown = cc
    IsCrown-smaller [] (some e) less w crown = absurd crown
    IsCrown-smaller (x ∷ path) e less w crown = plug-IsCrown x path (tip a e) _ w crown

  module _ (inner : List (Frame K V)) (op : OrderedPath inner) (w : Within inner key) (a : ℕ) where
    module _ (e : Option (K × V)) where
      abbrev here : Entries K V
      here = entries (plug inner (tip a e))

      split_before : here ≡ lefts inner ++ (entries (tip a e) ++ rights inner)
      split_before =
          entries-plug inner (tip a e)
          ∙ append_assoc (lefts inner) (entries (tip a e)) (rights inner)

      module _ (b f : ℕ) (v : V) where
        pub insert_larger :
            leaf_cmp e ≡ gt
            → (lookup key here ≡ none)
              × (insert key v here
                  ≡ entries (
                      plug inner
                        (join b (leaf_node e).key to_left (tip f (some (key, v))) (tip a e))))
        insert_larger more =
            let left = lefts-Below key inner op w in
            let right : Above key (entries (tip a e) ++ rights inner) =
              All-append _ (entries (tip a e)) (rights inner) (larger-Above e a more)
                (rights-Above key inner op w) in
            (
              ap (lookup key) split_before ∙ lookup_between key (lefts inner) _ left right,
              ap (insert key v) split_before
                  ∙ insert_between key v (lefts inner) _ left right
                  ∙ simp (
                    entries-plug inner (fork b (leaf_node e).key (tip f (some (key, v))) (tip a e)),
                    append_assoc,
                  ),
            )

        pub insert_smaller :
            leaf_cmp e ≡ lt
            → (lookup key here ≡ none)
              × (insert key v here
                  ≡ entries
                      (plug inner (join b (fin key) to_right (tip f (some (key, v))) (tip a e))))
        insert_smaller less =
            let left : Below key (lefts inner ++ entries (tip a e)) =
              All-append _ (lefts inner) (entries (tip a e)) (lefts-Below key inner op w)
                (smaller-Below e a less) in
            let right = rights-Above key inner op w in
            (
              ap (lookup key) (entries-plug inner (tip a e))
                  ∙ lookup_between key _ (rights inner) left right,
              ap (insert key v) (entries-plug inner (tip a e))
                  ∙ insert_between key v _ (rights inner) left right
                  ∙ simp (
                    entries-plug inner (fork b (fin key) (tip a e) (tip f (some (key, v)))),
                    append_assoc,
                  ),
            )

      -- `remove` finds nothing.
      pub remove_larger : leaf_cmp e ≡ gt → (lookup key here ≡ none) × (remove key here ≡ here)
      remove_larger more =
          let left = lefts-Below key inner op w in
          let right : Above key (entries (tip a e) ++ rights inner) =
            All-append _ (entries (tip a e)) (rights inner) (larger-Above e a more)
              (rights-Above key inner op w) in
          (
            ap (lookup key) split_before ∙ lookup_between key (lefts inner) _ left right,
            ap (remove key) split_before
                ∙ remove_between key (lefts inner) (entries (tip a e) ++ rights inner) left right
                ∙ sym split_before,
          )

      pub remove_smaller : leaf_cmp e ≡ lt → (lookup key here ≡ none) × (remove key here ≡ here)
      remove_smaller less =
          let left : Below key (lefts inner ++ entries (tip a e)) =
            All-append _ (lefts inner) (entries (tip a e)) (lefts-Below key inner op w)
              (smaller-Below e a less) in
          let right = rights-Above key inner op w in
          let there = entries-plug inner (tip a e) in
          (
            ap (lookup key) there ∙ lookup_between key _ (rights inner) left right,
            ap (remove key) there
                ∙ remove_between key (lefts inner ++ entries (tip a e)) (rights inner) left right
                ∙ sym there,
          )

    module _ (k : K) (v : V) (same : o.cmp k key ≡ eq) where
      below : Below k (lefts inner)
      below = lefts-Below k inner op (subst (Within inner) (sym (o.cmp_eq k key same)) w)

      pub lookup_leaf : lookup key (entries (plug inner (tip a (some (k, v))))) ≡ some v
      lookup_leaf =
          ap (lookup key) (split_before (some (k, v)))
          ∙ lookup_here k v (rights inner) key (lefts inner) below same

      pub insert_leaf :
          (v' : V)
          → insert key v' (entries (plug inner (tip a (some (k, v)))))
            ≡ entries (plug inner (tip a (some (k, v))))
      insert_leaf v' =
          ap (insert key v') (split_before (some (k, v)))
          ∙ insert_here k v (rights inner) key v' (lefts inner) below same
          ∙ sym (split_before (some (k, v)))

      pub remove_leaf :
          remove key (entries (plug inner (tip a (some (k, v))))) ≡ lefts inner ++ rights inner
      remove_leaf =
          ap (remove key) (split_before (some (k, v)))
          ∙ remove_here k v (rights inner) key (lefts inner) below same
