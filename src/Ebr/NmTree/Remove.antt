-- ===== src/Ebr/NmTree/Remove.antt =====
-- ebr/natarajan_mittal_tree.rs: `remove` as an operation of the dictionary.
use mathlib.Core.Path.{subst}
use Prim.Native.Nat.Ordering.{eq}
use pebr_benchmark.Base.{
  Option-cases, ℕ, suc, ◌≤◌, ◌<◌, ◌≡◌, refl, ap, ◌∙◌, sym, Option, none, some, inl, inr, List, [],
  ◌∷◌, ◌++◌, append_assoc, append-nil,
}
use pebr_benchmark.Ord.{Ord, Ordering-cases}
use pebr_benchmark.SortedMap.{Entries, lookup, remove}
use pebr_benchmark.Shared.{shared}
use pebr_benchmark.World.{ok, quiet}
use pebr_benchmark.World.Returns
use pebr_benchmark.World.Returns.{Returns, returns}
use pebr_benchmark.Ebr.NmTree.Node.{Direction, to_left, to_right, Heap, put_cell, deref}
use pebr_benchmark.Ebr.NmTree.Seek.{SeekRecord}
use pebr_benchmark.Ebr.NmTree.Map
use pebr_benchmark.Ebr.NmTree.Map.{flagged, cleanup}
use pebr_benchmark.Ebr.NmTree.Tree.{tip, leaf_node, height, entries, Ordered}
use pebr_benchmark.Ebr.NmTree.Access.{deref-ok}
use pebr_benchmark.Ebr.NmTree.Path.{
  Frame, plug, before, behind, lefts, rights, entries-plug, frame_node,
}
use pebr_benchmark.Ebr.NmTree.Within.{Within, OrderedPath, Ordered-plug}
use pebr_benchmark.Ebr.NmTree.Leaf.{
  leaf_cmp, lookup_leaf, remove_leaf, remove_larger, remove_smaller,
}
use pebr_benchmark.Ebr.NmTree.Landing.{topmost, IsCrown, edges, Landing, seek-Lands}
use pebr_benchmark.Ebr.NmTree.Represents
use pebr_benchmark.Ebr.NmTree.Represents.{
  Represents, IsAllocated, Replaced, allocated_below, occ-IsAllocated, hit_same, update_here,
}
use pebr_benchmark.Ebr.NmTree.Swing.{compare_and_set-ok, child-frame}
use pebr_benchmark.Ebr.NmTree.Cleanup.{flagged_node}
use pebr_benchmark.Ebr.NmTree.Cut.{cut-ok, after-Represents}

module _ {K V : Type 0} where
  -- What is left when the end of a way is cut off with the last node.
  cut-entries :
      (x : Frame K V) (path : List (Frame K V))
      → entries (plug path x.sibling) ≡ lefts (x ∷ path) ++ rights (x ∷ path)
  cut-entries x path = entries-plug path x.sibling ∙ go x.dir (entries x.sibling)
    where
      go :
          (d : Direction) (xs : Entries K V)
          → lefts path ++ xs ++ rights path
            ≡ (lefts path ++ before d xs) ++ (behind d xs ++ rights path)
      go to_left xs = simp (append-nil, append_assoc)
      go to_right xs = refl

module _ {K V : Type 0} ⦃o : Ord K⦄ (key : K) {h : Heap K V} {r : ℕ} {xs : Entries K V}
    (m : Represents h r xs) where
  -- What `remove` answers, and the map that it leaves.
  abbrev Removed : Option V → Heap K V → Unit {0} → Type 0
  Removed found h' s' = (found ≡ lookup key xs) × Represents h' r (remove key xs)

  -- The parent is below the two topmost nodes.
  peel :
      (inner base outer : List (Frame K V)) (x y : Frame K V) (a : ℕ) (p : K × V)
      → inner ++ base ≡ x ∷ y ∷ outer
      → IsCrown (plug inner (tip a (some p)))
      → (rest : List (Frame K V)) × (inner ≡ x ∷ rest) × (rest ++ base ≡ y ∷ outer)
  peel [] base outer x y a p e crown = absurd crown
  peel (z ∷ rest) base outer x y a p e crown = (rest, cc, cc)

  module _ {rec : SeekRecord} (l : Landing key (topmost r m.s m.q m.p) m.tree rec) where
    open l use {inner, parent, grand, outer, leaf, entry, shape, whole, within}

    op : OrderedPath inner
    op = (Ordered-plug inner (tip leaf entry) (subst Ordered shape m.ordered)).0

    listed : entries (plug inner (tip leaf entry)) ≡ xs
    listed = ap entries (sym shape) ∙ m.listed

    missing-Removed :
        (lookup key (entries (plug inner (tip leaf entry))) ≡ none)
          × (remove key (entries (plug inner (tip leaf entry)))
              ≡ entries (plug inner (tip leaf entry)))
        → Returns Removed (ok none (quiet h tt))
    missing-Removed (missing, same) = returns (
      sym (ap (lookup key) (sym listed) ∙ missing),
      subst (Represents h r) (sym listed ∙ sym same ∙ ap (remove key) listed) m,
    )

    parent_there : h.cells parent.addr ≡ some (frame_node parent leaf)
    parent_there =
        (Represents.parts m inner parent (grand ∷ outer) (tip leaf entry) shape whole).0.1

    here :
        (e : Option (K × V))
        → entry ≡ e
        → deref (shared leaf 0) (quiet h tt) ≡ ok (leaf_node e) (quiet h tt)
    here e at = deref-ok h leaf 0 (leaf_node e) (
        (Represents.parts m inner parent (grand ∷ outer) (tip leaf entry) shape whole).1.1
        ∙ ap (λ p. some (leaf_node p)) at)

    flagged-Removed :
        (rounds depth : ℕ) (k : K) (w : V)
        → 6 ≤ depth
        → entry ≡ some (k, w)
        → o.cmp k key ≡ eq
        → Returns Removed (
            flagged rounds depth
              (shared r 0)
              key
              (edges parent grand leaf)
              w
              (quiet (put_cell h parent.addr (flagged_node parent leaf)) tt))
    unfolding flagged
    flagged-Removed rounds depth k w enough e equal =
        let shape' : m.tree ≡ plug inner (tip leaf (some (k, w))) =
          shape ∙ ap (λ p. plug inner (tip leaf p)) e in
        let (rest, is_cons, whole') =
          peel inner (topmost r m.s m.q m.p) outer parent grand leaf (k, w) whole
            (subst IsCrown shape' m.crown) in
        let shape'' : m.tree ≡ plug (parent ∷ rest) (tip leaf (some (k, w))) =
          shape' ∙ ap (λ path. plug path (tip leaf (some (k, w)))) is_cons in
        let there : entries (plug inner (tip leaf (some (k, w)))) ≡ xs =
          ap entries (sym shape') ∙ m.listed in
        rw (cut-ok m parent grand rest outer leaf (some (k, w)) shape'' whole' depth enough) (
          returns (
            sym (ap (lookup key) (sym there) ∙ lookup_leaf key inner op within leaf k w equal),
            after-Represents m parent grand rest outer leaf (some (k, w)) shape'' whole' key
                (subst (λ path. Within path key) is_cons within)
                (cut-entries parent rest
                  ∙ ap (λ path. lefts path ++ rights path) (sym is_cons)
                  ∙ sym (remove_leaf key inner op within leaf k w equal)
                  ∙ ap (remove key) there),
          ))

  -- Undisturbed, on a map that holds the sorted entries `xs`, with a round, a depth of six or more
  -- and above the height of the tree below the two topmost nodes: `remove` returns. It answers what
  -- `xs` has at the key, and the map then holds `xs` without the key, every allocated node in the
  -- tree or with the collector, just once.
  pub remove-Represents :
      (rounds depth : ℕ)
      → height m.tree < depth
      → 6 ≤ depth
      → Returns Removed (Map.remove (suc rounds) depth (shared r 0) key (quiet h tt))
  unfolding Map.remove
  remove-Represents rounds depth enough six =
      Returns.bind _ (seek-Lands key h r m.s m.q m.p depth m.tree m.crown enough m.stored)
        λ rec h' s' (same, l).
          rw (same, l.at)
            (elim (Option-cases l.entry) [
              | inl e ↦ rw (here l none e) (
                  missing-Removed l (
                    remove_larger key l.inner (op l) l.within l.leaf l.entry (ap (leaf_cmp key) e)))
              | inr ((k, w), e) ↦ rw (here l (some (k, w)) e) (elim (Ordering-cases (o.cmp k key)) [
                | inl less ↦ rw less (
                    missing-Removed l (
                      remove_smaller key l.inner (op l) l.within l.leaf l.entry
                        (ap (leaf_cmp key) e ∙ less)))
                | inr (inl equal) ↦
                    rw
                      (
                        equal,
                        l.at,
                        compare_and_set-ok h l.parent.addr 0 l.parent.dir
                            (frame_node l.parent l.leaf) (shared l.leaf 0) (shared l.leaf 2)
                            (parent_there l) (child-frame l.parent l.leaf),
                        l.at,
                      )
                      (flagged-Removed l rounds depth k w six e equal)
                | inr (inr more) ↦ rw more (
                    missing-Removed l (
                      remove_larger key l.inner (op l) l.within l.leaf l.entry
                        (ap (leaf_cmp key) e ∙ more)))
              ])
            ])
