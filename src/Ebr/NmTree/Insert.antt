-- ===== src/Ebr/NmTree/Insert.antt =====
-- ebr/natarajan_mittal_tree.rs: `insert` as an operation of the dictionary.
use Prim.Native.Nat.Ordering.{lt, eq, gt}
use pebr_benchmark.Base.{
  Option-cases, ℕ, suc, ◌+◌, ◌<◌, ◌≡◌, refl, ap, ◌∙◌, sym, Option, none, some, inl, inr, ◌∷◌,
  is_none, if◌then◌else◌, arith,
}
use pebr_benchmark.Ord.{Ord, Ordering-cases}
use mathlib.Core.Path.{subst}
use pebr_benchmark.SortedMap.{Entries, lookup, insert}
use pebr_benchmark.Shared.{shared}
use pebr_benchmark.World.{ok, quiet}
use pebr_benchmark.World.Returns
use pebr_benchmark.World.Returns.{Returns, returns}
use pebr_benchmark.Ebr.NmTree.Node.{
  fin, inf, new_leaf, to_left, to_right, Heap, update, deref, alloc,
}
use pebr_benchmark.Ebr.NmTree.Seek.{SeekRecord}
use pebr_benchmark.Ebr.NmTree.Map
use pebr_benchmark.Ebr.NmTree.Map.{give_back, inject, insert_loop}
use pebr_benchmark.Ebr.NmTree.Tree.{tip, leaf_node, Stored, height, entries, Ordered}
use pebr_benchmark.Ebr.NmTree.Access.{deref-ok}
use pebr_benchmark.Ebr.NmTree.Path.{plug, Stored-frame}
use pebr_benchmark.Ebr.NmTree.Within.{OrderedPath, Ordered-plug}
use pebr_benchmark.Ebr.NmTree.Leaf.{
  leaf_cmp, IsCrown-larger, IsCrown-smaller, larger-Allowed, leaf-Allowed, smaller-Below,
  insert_larger, insert_smaller, insert_leaf, lookup_leaf,
}
use pebr_benchmark.Ebr.NmTree.Landing.{topmost, IsCrown, Landing, seek-Lands}
use pebr_benchmark.Ebr.NmTree.Represents
use pebr_benchmark.Ebr.NmTree.Represents.{
  Represents, IsAllocated, allocated_below, occ-IsAllocated, Replaced-Represents,
}
use pebr_benchmark.Ebr.NmTree.Graft.{prepared, prepared-same, grafted, grafted-Replaced}
use pebr_benchmark.Ebr.NmTree.Swing.{free-ok}
use pebr_benchmark.Ebr.NmTree.Inject.{leaf_made, leaf_here, inject_left-ok, inject_right-ok}

module _ {K V : Type 0} ⦃o : Ord K⦄ (key : K) (value : V) {h : Heap K V} {r : ℕ} {xs : Entries K V}
    (m : Represents h r xs) where
  abbrev g : Heap K V
  g = prepared key value h

  g-Stored : Stored g.cells (plug (topmost r m.s m.q m.p) m.tree)
  g-Stored =
      Stored-frame (plug (topmost r m.s m.q m.p) m.tree)
        (λ a inside.
          prepared-same key value m a
            (occ-IsAllocated h (plug (topmost r m.s m.q m.p) m.tree) a m.stored inside).1)
        m.stored

  -- What `insert` answers, and the map that it leaves.
  abbrev Inserted : Option (K × V) → Heap K V → Unit {0} → Type 0
  Inserted left h' s' =
      (left ≡ (if is_none (lookup key xs) then none else some (key, value)))
      × Represents h' r (insert key value xs)

  -- Both new nodes are freed again.
  abbrev given_back : Heap K V
  given_back = record g { cells = update (update g.cells h.fresh none) (h.fresh + 1) none }

  give_back-ok :
      give_back (shared h.fresh 0) (shared (h.fresh + 1) 0) key (quiet g tt)
      ≡ ok (some (key, value)) (quiet given_back tt)
  unfolding give_back
  give_back-ok =
      rw
        (
          deref-ok g h.fresh 0 (leaf_node (some (key, value))) (leaf_made key value m),
          free-ok g h.fresh 0 (leaf_node (some (key, value))) (leaf_made key value m),
          free-ok (record g { cells = update g.cells h.fresh none }) (h.fresh + 1) 0
              (new_leaf inf none) (ground arith),
        )
        refl

  given_back-Represents : Represents given_back r xs
  given_back-Represents =
      let same : (a : ℕ) → IsAllocated h a → given_back.cells a ≡ h.cells a =
        λ a there. ground (arith, allocated_below m a there) in
      record {
        s = m.s;
        q = m.q;
        p = m.p;
        tree = m.tree;
        stored =
            Stored-frame (plug (topmost r m.s m.q m.p) m.tree)
              (λ a inside.
                same a
                  (occ-IsAllocated h (plug (topmost r m.s m.q m.p) m.tree) a m.stored inside).1)
              m.stored;
        crown = m.crown;
        ordered = m.ordered;
        listed = m.listed;
        positive = omega arith;
        unused = λ a beyond. ground (arith, m.unused a);
        accounted = λ a there. m.accounted a (back a there);
        only = λ a there. let (n, e) = m.only a there in (n, same a (n, e) ∙ e);
      }
    where
      back : (a : ℕ) → IsAllocated given_back a → IsAllocated h a
      back a (n, e) = (n, ground (arith, m.unused a))

  module _ {rec : SeekRecord} (l : Landing key (topmost r m.s m.q m.p) m.tree rec) where
    open l use {inner, parent, grand, outer, leaf, entry, shape, whole, within}

    op : OrderedPath inner
    op = (Ordered-plug inner (tip leaf entry) (subst Ordered shape m.ordered)).0

    listed : entries (plug inner (tip leaf entry)) ≡ xs
    listed = ap entries (sym shape) ∙ m.listed

    crown : IsCrown (plug inner (tip leaf entry))
    crown = subst IsCrown shape m.crown

    new_one :
        lookup key (entries (plug inner (tip leaf entry))) ≡ none
        → ◌≡◌ {A = Option (K × V)} none
            (if is_none (lookup key xs) then none else some (key, value))
    new_one missing =
        let e : lookup key xs ≡ none = ap (lookup key) (sym listed) ∙ missing in rw e refl

    larger-Inserted :
        leaf_cmp key entry ≡ gt
        → Returns Inserted (
            ok none (
              quiet
                (grafted key value m inner parent
                  (grand ∷ outer)
                  leaf
                  entry
                  shape
                  whole
                  (leaf_node entry).key
                  to_left)
                tt))
    larger-Inserted more =
        let (missing, inserted) =
          insert_larger key inner op within leaf entry (h.fresh + 1) h.fresh value more in
        returns (
          new_one missing,
          Represents.Replaced-Represents m inner parent (grand ∷ outer) (tip leaf entry) shape whole
              (grafted-Replaced key value m inner parent (grand ∷ outer) leaf entry shape whole
                (leaf_node entry).key to_left (larger-Allowed key entry more)
                (leaf-Allowed key entry leaf) within
                (IsCrown-larger key leaf (h.fresh + 1) h.fresh value inner entry within crown)
                (sym inserted ∙ ap (insert key value) listed)),
        )

    smaller-Inserted :
        leaf_cmp key entry ≡ lt
        → Returns Inserted (
            ok none (
              quiet
                (grafted key value m inner parent
                  (grand ∷ outer)
                  leaf
                  entry
                  shape
                  whole
                  (fin key)
                  to_right)
                tt))
    smaller-Inserted less =
        let (missing, inserted) =
          insert_smaller key inner op within leaf entry (h.fresh + 1) h.fresh value less in
        returns (
          new_one missing,
          Represents.Replaced-Represents m inner parent (grand ∷ outer) (tip leaf entry) shape whole
              (grafted-Replaced key value m inner parent (grand ∷ outer) leaf entry shape whole
                (fin key) to_right (λ back. cc (back, o.cmp_self key))
                (smaller-Below key entry leaf less) within
                (IsCrown-smaller key leaf (h.fresh + 1) h.fresh value inner entry less within crown)
                (sym inserted ∙ ap (insert key value) listed)),
        )

    given_back-Inserted :
        (k : K) (w : V)
        → entry ≡ some (k, w)
        → o.cmp k key ≡ eq
        → Returns Inserted (ok (some (key, value)) (quiet given_back tt))
    given_back-Inserted k w e equal =
        let here : entries (plug inner (tip leaf (some (k, w)))) ≡ xs =
          ap (λ p. entries (plug inner (tip leaf p))) (sym e) ∙ listed in
        let found : lookup key xs ≡ some w =
          ap (lookup key) (sym here) ∙ lookup_leaf key inner op within leaf k w equal in
        let unchanged : xs ≡ insert key value xs =
          sym here
          ∙ sym (insert_leaf key inner op within leaf k w equal value)
          ∙ ap (insert key value) here in
        returns (rw found refl, subst (Represents given_back r) unchanged given_back-Represents)

  -- Undisturbed, on a map that holds the sorted entries `xs`, with a round and a depth above the
  -- height of the tree below the two topmost nodes: `insert` returns. It answers `Ok(())` if the key
  -- was missing and otherwise gives the entry back, and the map then holds `xs` with the entry
  -- inserted (a key that is there keeps its value), every allocated node in the tree or with the
  -- collector, just once.
  pub insert-Represents :
      (rounds depth : ℕ)
      → height m.tree < depth
      → Returns Inserted (Map.insert (suc rounds) depth (shared r 0) key value (quiet h tt))
  unfolding Map.insert alloc insert_loop
  insert-Represents rounds depth enough =
      Returns.bind _ (seek-Lands key g r m.s m.q m.p depth m.tree m.crown enough g-Stored)
        λ rec h' s' (same, l).
          let here : (e : Option (K × V))
              → l.entry ≡ e
              → deref (shared l.leaf 0) (quiet g tt) ≡ ok (leaf_node e) (quiet g tt) =
            λ e at. deref-ok g l.leaf 0 (leaf_node e) (
              leaf_here key value m l.inner l.parent l.grand (l.grand ∷ l.outer) l.leaf l.entry
                l.shape l.whole
              ∙ ap (λ p. some (leaf_node p)) at) in
          let left =
            inject_left-ok key value m l.inner l.parent l.grand (l.grand ∷ l.outer) l.leaf l.entry
              l.shape l.whole in
          let right =
            inject_right-ok key value m l.inner l.parent l.grand (l.grand ∷ l.outer) l.leaf l.entry
              l.shape l.whole in
          rw (same, l.at)
            (elim (Option-cases l.entry) [
              | inl e ↦ rw (here none e, l.at, left) (larger-Inserted l (ap (leaf_cmp key) e))
              | inr ((k, w), e) ↦ rw (here (some (k, w)) e) (elim (Ordering-cases (o.cmp k key)) [
                | inl less ↦
                    rw (less, l.at, right) (smaller-Inserted l (ap (leaf_cmp key) e ∙ less))
                | inr (inl equal) ↦ rw (equal, give_back-ok) (given_back-Inserted l k w e equal)
                | inr (inr more) ↦
                    rw (more, l.at, left) (larger-Inserted l (ap (leaf_cmp key) e ∙ more))
              ])
            ])
