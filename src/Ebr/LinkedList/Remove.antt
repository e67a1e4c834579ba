-- ===== src/Ebr/LinkedList/Remove.antt =====
-- The removal of ebr/list.rs by the search of Harris and Michael, on an undisturbed list.
use Prim.Native.Nat.Ordering.{eq}
use mathlib.Core.Path.{subst}
use pebr_benchmark.Base.{
  ℕ, suc, ◌+◌, ◌<◌, ◌≡◌, refl, ap, ◌∙◌, sym, Option, none, some, inl, inr, List, ◌∷◌, ◌++◌, length,
  arith,
}
use pebr_benchmark.Ord.{Ord}
use pebr_benchmark.SortedMap.{Entries, lookup, Above, Below, IsSorted}
use pebr_benchmark.SortedMap
use pebr_benchmark.SortedMap.Between.{lookup_between, remove_between}
use pebr_benchmark.Shared.{shared}
use pebr_benchmark.World.{quiet}
use pebr_benchmark.World.Returns
use pebr_benchmark.World.Returns.{Returns, returns}
use pebr_benchmark.Ebr.LinkedList.Heap.{Heap, head}
use pebr_benchmark.Ebr.LinkedList.Map
use pebr_benchmark.Ebr.LinkedList.Map.{unlink}
use pebr_benchmark.Ebr.LinkedList.Variants.{harris_remove, harris_michael_remove}
use pebr_benchmark.Ebr.LinkedList.Find.{Finder, find_harris, find_harris_michael}
use pebr_benchmark.Ebr.LinkedList.Placed.{Places, find_harris-Placed, find_harris_michael-Placed}
use pebr_benchmark.Ebr.LinkedList.Chain.{Cell, first, all_entries, not_null, deref-ok}
use pebr_benchmark.Ebr.LinkedList.Relink.{end_of, Chain-right}
use pebr_benchmark.Ebr.LinkedList.Alone.{Alone, Alone-refl}
use pebr_benchmark.Ebr.LinkedList.Update.{all_entries-append, write-kept, Clean, Holds, find-Placed}
use pebr_benchmark.Ebr.LinkedList.Insert.{length-all_entries}
use pebr_benchmark.Ebr.LinkedList.Unlink.{
  removed-Alone, mark_next-ok, stored_node, unlink-removed, removed-Clean, removed_entries,
  looked_up, marked_heap, removed_heap,
}

abbrev pub taken : {V : Type 0} → Option V → ℕ
taken none = 0
taken (some _) = 1

module _ {K V : Type 0} ⦃o : Ord K⦄ where
  abbrev pub Removed :
      Heap K V → ℕ → List (Cell K V) → K → Entries K V → Option V → Heap K V → Type 0
  Removed h list cs key xs found h' =
      (found ≡ lookup key xs)
      × (m : Holds h' list (SortedMap.remove key xs)) × (length h'.deferred
          ≡ length h.deferred + taken found)
      × Alone h.fresh h h' list cs m.cells

  absent-Removed :
      (h : Heap K V) (list : ℕ) (key : K) (before after : List (Cell K V))
      → Clean h list (before ++ after)
      → Below key (all_entries before)
      → Above key (all_entries after)
      → Removed h list (before ++ after) key (all_entries (before ++ after)) none h
  absent-Removed h list key before after i below above =
      let listed = all_entries-append before after in
      let missing = lookup_between key (all_entries before) (all_entries after) below above in
      let same = remove_between key (all_entries before) (all_entries after) below above in
      (
        rw (listed, missing) refl,
        record { cells = before ++ after; clean = i; listed = rw listed (sym same) },
        omega arith,
        Alone-refl h list (before ++ after),
      )

  present-Removed :
      (h : Heap K V) (list : ℕ) (key : K) (before : List (Cell K V)) (c : Cell K V)
      → (rest : List (Cell K V)) → (i : Clean h list (before ++ c ∷ rest)) → o.cmp c.key key ≡ eq
      → Removed h list
          (before ++ c ∷ rest)
          key
          (all_entries (before ++ c ∷ rest))
          (some c.value)
          (removed_heap h list before c rest i)
  present-Removed h list key before c rest i equal =
      let marked = marked_heap h list before c rest i in
      let kept = write-kept marked (end_of (head list) before) (shared (first rest) 0) in
      (
        sym (looked_up h list before c rest i key equal),
        record {
          cells = before ++ rest;
          clean = removed-Clean h list before c rest i;
          listed = sym (removed_entries h list before c rest i key equal);
        },
        omega (arith, ap length kept.1),
        removed-Alone h list before c rest i,
      )

  -- Whichever of the searches is used; with what the other lists are left with.
  remove-Alone :
      (finder : Finder K V)
      → Places finder
      → (rounds depth list : ℕ) (key : K) (h : Heap K V) (xs : Entries K V) → (i : Holds h list xs)
      → length xs < depth
      → Returns
          (λ found h' s'. Removed h list i.cells key xs found h')
          (Map.remove finder (suc rounds) depth list key (quiet h tt))
  unfolding Map.remove
  remove-Alone finder places rounds depth list key h xs i enough =
      Returns.bind _
        (find-Placed finder places rounds depth list key h i.cells i.clean
          (omega (arith, length-all_entries i.cells, ap length i.listed)))
        λ (found, cursor) h' s' (same, p). elim p.spot [
          | inl (no_key, above) ↦
              let listed = ap all_entries (sym p.split) ∙ i.listed in
              let clean = subst (λ ds. Clean h list ds) p.split i.clean in
              let answer = absent-Removed h list key p.before p.after clean p.below above in
              rw (same, no_key)
                (returns (
                  subst (λ ds. Removed h list ds key xs none h) (sym p.split)
                    (subst (λ ys. Removed h list (p.before ++ p.after) key ys none h) listed
                      answer)))
          | inr (c, rest, there, found_key, equal) ↦
              let split_at : i.cells ≡ p.before ++ c ∷ rest =
                p.split ∙ ap (λ ds. p.before ++ ds) there in
              let listed = ap all_entries (sym split_at) ∙ i.listed in
              let clean = subst (λ ds. Clean h list ds) split_at i.clean in
              let answer = present-Removed h list key p.before c rest clean equal in
              let here = stored_node h list p.before c rest clean in
              let pos = (Chain-right h.cells p.before (c ∷ rest) clean.linked.chain).0 in
              rw
                (
                  same,
                  found_key,
                  p.at,
                  there,
                  not_null c.addr 0 pos,
                  deref-ok h (shared c.addr 0) _ here,
                  mark_next-ok h c.addr _ here,
                  unlink-removed h list p.before c rest clean,
                )
                (returns (
                  subst
                    (λ ds.
                      Removed h list ds key xs (some c.value)
                        (removed_heap h list p.before c rest clean))
                    (sym split_at)
                    (subst
                      (λ ys.
                        Removed h list (p.before ++ c ∷ rest) key ys (some c.value)
                          (removed_heap h list p.before c rest clean))
                      listed answer)))
        ]

  pub harris_michael_remove-Alone :
      (rounds depth list : ℕ) (key : K) (h : Heap K V) (xs : Entries K V)
      → (i : Holds h list xs) → length xs < depth
      → Returns
          (λ found h' s'. Removed h list i.cells key xs found h')
          (harris_michael_remove (suc rounds) depth list key (quiet h tt))
  unfolding harris_michael_remove
  harris_michael_remove-Alone = remove-Alone find_harris_michael find_harris_michael-Placed

  -- Undisturbed, on a list without marked nodes that holds the sorted entries xs, with a round and
  -- a depth above their number: the removal of Harris and Michael returns, answers what xs has at
  -- the key, leaves such a list of xs without the key, and defers one node if there was one.
  pub harris_michael_remove-Holds :
      (rounds depth list : ℕ) (key : K) (h : Heap K V) (xs : Entries K V)
      → Holds h list xs
      → length xs < depth
      → Returns
          (λ found h' s'.
            (found ≡ lookup key xs)
            × Holds h' list (SortedMap.remove key xs)
            × (length h'.deferred ≡ length h.deferred + taken found))
          (harris_michael_remove (suc rounds) depth list key (quiet h tt))
  harris_michael_remove-Holds rounds depth list key h xs i enough =
      Returns.weaken (harris_michael_remove-Alone rounds depth list key h xs i enough)
        λ found h' s' (answer, m, deferred, alone). (answer, m, deferred)

  -- Undisturbed, on a list without marked nodes that holds the sorted entries xs, with a round and
  -- a depth above their number: the removal of Harris's list returns, answers what xs has at
  -- the key, leaves such a list of xs without the key, and defers one node if there was one.
  pub harris_remove-Holds :
      (rounds depth list : ℕ) (key : K) (h : Heap K V) (xs : Entries K V)
      → Holds h list xs
      → length xs < depth
      → Returns
          (λ found h' s'.
            (found ≡ lookup key xs)
            × Holds h' list (SortedMap.remove key xs)
            × (length h'.deferred ≡ length h.deferred + taken found))
          (harris_remove (suc rounds) depth list key (quiet h tt))
  unfolding harris_remove
  harris_remove-Holds rounds depth list key h xs i enough =
      Returns.weaken
        (remove-Alone find_harris find_harris-Placed rounds depth list key h xs i enough)
        λ found h' s' (answer, m, deferred, alone). (answer, m, deferred)
