-- ===== src/Ebr/LinkedList/Unlink.antt =====
-- ebr/list.rs: the marking and the unlinking of a node, on a list without marked nodes.
use Prim.Native.Nat.Ordering.{eq}
use mathlib.Core.Path.{subst}
use pebr_benchmark.Base.{
  ℕ, ◌≡◌, refl, ap, ◌∙◌, true, some, List, [], ◌∷◌, ◌++◌, All-left, All-right, All-append, arith,
}
use pebr_benchmark.Ord.{Ord}
use pebr_benchmark.SortedMap.{Entries, lookup, Above, Below, IsSorted}
use pebr_benchmark.SortedMap
use pebr_benchmark.SortedMap.Sorted.{remove-IsSorted}
use pebr_benchmark.SortedMap.Split.{lookup_here, remove_here, IsSorted-Below}
use pebr_benchmark.Shared.{shared, with_tag}
use pebr_benchmark.World.{ok, quiet}
use pebr_benchmark.Ebr.LinkedList.Heap.{
  Node, Heap, head, update, read, write, mark_next, defer_destroy,
}
use pebr_benchmark.Ebr.LinkedList.Find.{cursor_at}
use pebr_benchmark.Ebr.LinkedList.Map.{unlink}
use pebr_benchmark.Ebr.LinkedList.Chain.{Cell, first, stored, all_entries}
use pebr_benchmark.Ebr.LinkedList.Relink.{end_of, Off, Apart, Chain-right, Chain-mark, Apart-mark}
use pebr_benchmark.Ebr.LinkedList.Position.{Linked, read-Linked, write-Linked, compare_and_set-ok}
use pebr_benchmark.Ebr.LinkedList.Alone.{Alone, Alone-trans, update-Alone, write-Alone}
use pebr_benchmark.Ebr.LinkedList.Update.{all_entries-append, write-kept, Clean}

module _ {K V : Type 0} where
  pub mark_next-ok :
      (h : Heap K V) (a : ℕ) (n : Node K V)
      → h.cells a ≡ some n
      → mark_next (shared a 0) (quiet h tt)
        ≡ ok n.next (
            quiet
              (record h { cells = update h.cells a (some (record n { next = with_tag n.next 1 })) })
              tt)
  unfolding mark_next read write
  mark_next-ok h a n e = rw (e, mark_next) (rw (e, write) refl)

  Apart-remove :
      (before : List (Cell K V)) (c : Cell K V) (rest : List (Cell K V))
      → Apart (before ++ c ∷ rest)
      → Apart (before ++ rest)
  Apart-remove [] c rest a = a.1
  Apart-remove (b ∷ bs) c rest a = (
    All-append _ bs rest (All-left _ bs (c ∷ rest) a.0) (All-right _ bs (c ∷ rest) a.0).1,
    Apart-remove bs c rest a.1,
  )

  first-mark :
      (before : List (Cell K V)) (c : Cell K V) (rest : List (Cell K V))
      → first (before ++ record c { marked = true } ∷ rest) ≡ first (before ++ c ∷ rest)
  first-mark [] c rest = refl
  first-mark (b ∷ bs) c rest = refl

module _ {K V : Type 0} ⦃o : Ord K⦄ (h : Heap K V) (list : ℕ) (before : List (Cell K V))
    (c : Cell K V) (rest : List (Cell K V)) (i : Clean h list (before ++ c ∷ rest)) where
  abbrev pub node : Node K V
  node = record { next = shared (first rest) 0; key = c.key; value = c.value }

  abbrev pub marked_heap : Heap K V
  marked_heap = record h {
    cells = update h.cells c.addr (some (record node { next = shared (first rest) 1 }));
  }

  abbrev pub removed_heap : Heap K V
  removed_heap =
      let w = write marked_heap (end_of (head list) before) (shared (first rest) 0) in
      record w { deferred = shared c.addr 0 ∷ w.deferred }

  pub stored_node : h.cells c.addr ≡ some node
  stored_node =
      let (pos, here, behind) = Chain-right h.cells before (c ∷ rest) i.linked.chain in
      let live = (All-right _ before (c ∷ rest) i.live).0 in
      let clean : stored c rest ≡ node = rw live refl in here ∙ ap some clean

  marked-Linked : Linked marked_heap list (before ++ record c { marked = true } ∷ rest)
  marked-Linked = record {
    from = rw (first-mark before c rest) i.linked.from;
    chain = Chain-mark h.cells before c rest i.linked.chain i.linked.apart;
    apart = Apart-mark before c rest i.linked.apart;
  }

  pub unlink-removed :
      unlink
        (cursor_at (end_of (head list) before) (shared c.addr 0))
        (shared (first rest) 0)
        (quiet marked_heap tt)
      ≡ ok tt (quiet removed_heap tt)
  unfolding unlink defer_destroy
  unlink-removed =
      let swung =
        compare_and_set-ok marked_heap (end_of (head list) before) (shared c.addr 0)
          (shared (first rest) 0)
          (read-Linked marked_heap list before (record c { marked = true } ∷ rest) marked-Linked
            (All-left _ before (c ∷ rest) i.live)) in
      rw swung refl

  node-Below : Below c.key (all_entries before)
  node-Below =
      let listed = all_entries-append before (c ∷ rest) in
      IsSorted-Below c.key c.value (all_entries rest) (all_entries before)
        (subst (λ m. IsSorted m) listed i.rising)

  pub removed_entries :
      (key : K)
      → o.cmp c.key key ≡ eq
      → SortedMap.remove key (all_entries (before ++ c ∷ rest)) ≡ all_entries (before ++ rest)
  removed_entries key equal =
      rw (all_entries-append before (c ∷ rest), all_entries-append before rest)
        (remove_here c.key c.value (all_entries rest) key (all_entries before) node-Below equal)

  pub looked_up :
      (key : K)
      → o.cmp c.key key ≡ eq
      → lookup key (all_entries (before ++ c ∷ rest)) ≡ some c.value
  looked_up key equal =
      rw (all_entries-append before (c ∷ rest))
        (lookup_here c.key c.value (all_entries rest) key (all_entries before) node-Below equal)

  pub removed-Clean : Clean removed_heap list (before ++ rest)
  removed-Clean =
      let live = All-left _ before (c ∷ rest) i.live in
      let behind =
        (Chain-right marked_heap.cells before (record c { marked = true } ∷ rest)
          marked-Linked.chain).2 in
      let relinked =
        write-Linked marked_heap list before (record c { marked = true } ∷ rest) rest marked-Linked
          live behind (Apart-remove before c rest i.linked.apart) in
      let kept = write-kept marked_heap (end_of (head list) before) (shared (first rest) 0) in
      record {
        linked = record { from = relinked.from; chain = relinked.chain; apart = relinked.apart };
        live = All-append _ before rest live (All-right _ before (c ∷ rest) i.live).1;
        rising =
            subst (λ m. IsSorted m) (removed_entries c.key (o.cmp_self c.key))
              (remove-IsSorted c.key _ i.rising);
        bounded = rw kept.0 (
            All-append _ before rest (All-left _ before (c ∷ rest) i.bounded)
              (All-right _ before (c ∷ rest) i.bounded).1);
        allocates = rw kept.0 i.allocates;
      }

  removed-joined : (a : ℕ) (bs : List (Cell K V)) → Off a (bs ++ c ∷ rest) → Off a (bs ++ rest)
  removed-joined a bs out =
      All-append _ bs rest (All-left _ bs (c ∷ rest) out) (All-right _ bs (c ∷ rest) out).1

  pub removed-Alone : Alone h.fresh h removed_heap list (before ++ c ∷ rest) (before ++ rest)
  removed-Alone =
      let marked : Alone h.fresh h marked_heap list (before ++ c ∷ rest) (before ++ c ∷ rest) =
        update-Alone h list c.addr _ (before ++ c ∷ rest)
          λ a low out. (All-right _ before (c ∷ rest) out).0 in
      Alone-trans marked (
        Alone-trans (write-Alone marked_heap list (shared (first rest) 0) before (c ∷ rest))
          (record {
            heads = λ i ne. refl;
            cells = λ a low out. refl;
            grows = omega arith;
            joined = λ a low out. removed-joined a before out;
          }))
