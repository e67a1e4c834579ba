-- ===== src/Ebr/LinkedList/Insert.antt =====
-- The insertion of ebr/list.rs by the search of Harris and Michael, on an undisturbed list.
use Prim.Native.Nat.Ordering.{eq}
use mathlib.Core.Path.{subst}
use pebr_benchmark.Base.{
  ℕ, suc, ◌+◌, ◌<◌, ◌≡◌, ◌≢◌, refl, ap, ◌∙◌, sym, Bool, true, false, none, some, inl, inr, List, [],
  ◌∷◌, ◌++◌, length, ◌==◌, All-imp, is_none, arith,
}
use pebr_benchmark.Ord.{Ord}
use pebr_benchmark.SortedMap.{Entries, lookup, IsSorted}
use pebr_benchmark.SortedMap
use pebr_benchmark.SortedMap.Between.{lookup_between}
use pebr_benchmark.SortedMap.Split.{lookup_here, insert_here, IsSorted-Below}
use pebr_benchmark.Shared.{Shared, shared, null}
use pebr_benchmark.World.{quiet}
use pebr_benchmark.World.Returns
use pebr_benchmark.World.Returns.{Returns, returns}
use pebr_benchmark.Ebr.LinkedList.Heap.{Node, Heap, head, update, alloc, write}
use pebr_benchmark.Ebr.LinkedList.Find.{Finder, find_harris, find_harris_michael}
use pebr_benchmark.Ebr.LinkedList.Map
use pebr_benchmark.Ebr.LinkedList.Map.{insert_loop}
use pebr_benchmark.Ebr.LinkedList.Variants.{harris_insert, harris_michael_insert}
use pebr_benchmark.Ebr.LinkedList.Placed.{Places, find_harris-Placed, find_harris_michael-Placed}
use pebr_benchmark.Ebr.LinkedList.Chain.{Cell, all_entries, deref-ok}
use pebr_benchmark.Ebr.LinkedList.Relink.{end_of, Off, Chain-update}
use pebr_benchmark.Ebr.LinkedList.Alone.{Alone, Alone-trans}
use pebr_benchmark.Ebr.LinkedList.Update.{
  all_entries-append, Clean, Holds, find-Placed, link-Holds, discard-Clean, drop_value-ok, free-ok,
}

module _ {K V : Type 0} ⦃o : Ord K⦄ where
  pub length-all_entries : (cs : List (Cell K V)) → length (all_entries cs) ≡ length cs
  length-all_entries [] = refl
  length-all_entries (c ∷ cs) = ap suc (length-all_entries cs)

  module _ (finder : Finder K V) (places : Places finder) (rounds depth list x : ℕ) (key : K)
      (value : V) (next : Shared) (h : Heap K V) where
    abbrev Inserted : List (Cell K V) → Bool → Heap K V → Unit {0} → Type 0
    Inserted cs inserted h' s' =
        (inserted ≡ is_none (lookup key (all_entries cs)))
        × (m : Holds h' list (SortedMap.insert key value (all_entries cs))) × Alone x h h' list cs
            m.cells

    -- The key is there: the list stays as it is.
    present :
        (before : List (Cell K V)) (c : Cell K V) (rest : List (Cell K V)) (h' : Heap K V)
        → o.cmp c.key key ≡ eq
        → Clean h' list (before ++ c ∷ rest)
        → Alone x h h' list (before ++ c ∷ rest) (before ++ c ∷ rest)
        → Inserted (before ++ c ∷ rest) false h' tt
    present before c rest h' equal i alone =
        let listed = all_entries-append before (c ∷ rest) in
        let sorted = subst (λ m. IsSorted m) listed i.rising in
        let below = IsSorted-Below c.key c.value (all_entries rest) (all_entries before) sorted in
        let here =
          lookup_here c.key c.value (all_entries rest) key (all_entries before) below equal in
        let same =
          insert_here c.key c.value (all_entries rest) key value (all_entries before) below equal in
        (
          rw (listed, here) refl,
          record { cells = before ++ c ∷ rest; clean = i; listed = rw listed (sym same) },
          alone,
        )

    insert_loop-Inserted :
        (cs : List (Cell K V))
        → 0 < x
        → x < h.fresh
        → h.cells x ≡ some (record { next = next; key = key; value = value })
        → Off x cs
        → Clean h list cs
        → length cs < depth
        → Returns
            (Inserted cs)
            (insert_loop finder (suc rounds) depth list (shared x 0) (quiet h tt))
    unfolding insert_loop
    insert_loop-Inserted cs pos low here off i enough = rw (deref-ok h (shared x 0) _ here) (
        Returns.bind _ (find-Placed finder places rounds depth list key h cs i enough)
          λ (found, cursor) h' s' (same, p). elim p.spot [
            | inl (no_key, above) ↦
                let (h2, stored_next, linked, holds, alone) =
                  link-Holds h list x key value next p.before p.after pos low here
                    (subst (λ ds. Off x ds) p.split off) (subst (λ ds. Clean h list ds) p.split i)
                    p.below above in
                let answer : true ≡ is_none (lookup key (all_entries (p.before ++ p.after))) =
                  rw
                    (
                      all_entries-append p.before p.after,
                      lookup_between key (all_entries p.before) (all_entries p.after) p.below above,
                    )
                    refl in
                rw (same, no_key, p.at, stored_next, linked)
                  (returns (
                    subst
                      (λ ds.
                        Inserted ds true (write h2 (end_of (head list) p.before) (shared x 0)) tt)
                      (sym p.split) (answer, holds, alone)))
            | inr (c, rest, there, found_key, equal) ↦
                let split_at : cs ≡ p.before ++ c ∷ rest =
                  p.split ∙ ap (λ ds. p.before ++ ds) there in
                let discarded : Heap K V = record h {
                  cells = update h.cells x none;
                  dropped = value ∷ h.dropped;
                } in
                let kept =
                  present p.before c rest discarded equal
                    (discard-Clean h list x value _ (subst (λ ds. Off x ds) split_at off)
                      (subst (λ ds. Clean h list ds) split_at i))
                    (record {
                      heads = λ j ne. refl;
                      cells = λ a before_x out.
                          let apart : x ≢ a = (λ e. omega (arith, e)) in ground arith;
                      grows = omega arith;
                      joined = λ a before_x out. out;
                    }) in
                rw
                  (
                    same,
                    found_key,
                    drop_value-ok h x _ here,
                    free-ok (record h { dropped = value ∷ h.dropped }) x _ here,
                  )
                  (returns (subst (λ ds. Inserted ds false discarded tt) (sym split_at) kept))
          ])

  -- Whichever of the searches is used; with what the other lists are left with.
  insert-Alone :
      (finder : Finder K V)
      → Places finder
      → (rounds depth list : ℕ) (key : K) (value : V) (h : Heap K V) (xs : Entries K V)
      → (i : Holds h list xs) → length xs < depth
      → Returns
          (λ inserted h' s'.
            (inserted ≡ is_none (lookup key xs))
            × (m : Holds h' list (SortedMap.insert key value xs)) × Alone h.fresh h h' list i.cells
                m.cells)
          (Map.insert finder (suc rounds) depth list key value (quiet h tt))
  unfolding Map.insert alloc
  insert-Alone finder places rounds depth list key value h xs i enough =
      let node : Node K V = record { next = null; key = key; value = value } in
      let h1 : Heap K V = record h {
        cells = update h.cells h.fresh (some node);
        fresh = h.fresh + 1;
      } in
      let self : (h.fresh == h.fresh) ≡ true = ground arith in
      let off : Off h.fresh i.cells = All-imp (λ c low e. omega arith) i.cells i.clean.bounded in
      let clean : Clean h1 list i.cells = record {
        linked = record {
          from = i.clean.linked.from;
          chain = Chain-update h.cells h.fresh (some node) i.cells off i.clean.linked.chain;
          apart = i.clean.linked.apart;
        };
        live = i.clean.live;
        rising = i.clean.rising;
        bounded = All-imp (λ c low. omega arith) i.cells i.clean.bounded;
        allocates = omega arith;
      } in
      let allocated : Alone h.fresh h h1 list i.cells i.cells = record {
        heads = λ j ne. refl;
        cells = λ a old out. ground arith;
        grows = omega arith;
        joined = λ a old out. out;
      } in
      let few : length i.cells < depth =
        omega (arith, length-all_entries i.cells, ap length i.listed) in
      subst
        (λ ys.
          Returns
            (λ inserted h' s'.
              (inserted ≡ is_none (lookup key ys))
              × (m : Holds h' list (SortedMap.insert key value ys)) × Alone h.fresh h h' list
                  i.cells m.cells)
            (Map.insert finder (suc rounds) depth list key value (quiet h tt)))
        i.listed
        (Returns.weaken
          (insert_loop-Inserted finder places rounds depth list h.fresh key value null h1 i.cells
            i.clean.allocates (omega arith) (rw self refl) off clean few)
          λ inserted h' s' (answer, m, alone). (answer, m, Alone-trans allocated alone))

  pub harris_michael_insert-Alone :
      (rounds depth list : ℕ) (key : K) (value : V) (h : Heap K V) (xs : Entries K V)
      → (i : Holds h list xs) → length xs < depth
      → Returns
          (λ inserted h' s'.
            (inserted ≡ is_none (lookup key xs))
            × (m : Holds h' list (SortedMap.insert key value xs)) × Alone h.fresh h h' list i.cells
                m.cells)
          (harris_michael_insert (suc rounds) depth list key value (quiet h tt))
  unfolding harris_michael_insert
  harris_michael_insert-Alone = insert-Alone find_harris_michael find_harris_michael-Placed

  -- Undisturbed, on a list without marked nodes that holds the sorted entries xs, with a round and
  -- a depth above their number: the insertion of Harris and Michael returns, answers whether the key
  -- was missing, and leaves such a list of xs with the entry inserted.
  pub harris_michael_insert-Holds :
      (rounds depth list : ℕ) (key : K) (value : V) (h : Heap K V) (xs : Entries K V)
      → Holds h list xs
      → length xs < depth
      → Returns
          (λ inserted h' s'.
            (inserted ≡ is_none (lookup key xs)) × Holds h' list (SortedMap.insert key value xs))
          (harris_michael_insert (suc rounds) depth list key value (quiet h tt))
  harris_michael_insert-Holds rounds depth list key value h xs i enough =
      Returns.weaken (harris_michael_insert-Alone rounds depth list key value h xs i enough)
        λ inserted h' s' (answer, m, alone). (answer, m)

  -- Undisturbed, on a list without marked nodes that holds the sorted entries xs, with a round and
  -- a depth above their number: the insertion of Harris's list returns, answers whether the key
  -- was missing, and leaves such a list of xs with the entry inserted.
  pub harris_insert-Holds :
      (rounds depth list : ℕ) (key : K) (value : V) (h : Heap K V) (xs : Entries K V)
      → Holds h list xs
      → length xs < depth
      → Returns
          (λ inserted h' s'.
            (inserted ≡ is_none (lookup key xs)) × Holds h' list (SortedMap.insert key value xs))
          (harris_insert (suc rounds) depth list key value (quiet h tt))
  unfolding harris_insert
  harris_insert-Holds rounds depth list key value h xs i enough =
      Returns.weaken
        (insert-Alone find_harris find_harris-Placed rounds depth list key value h xs i enough)
        λ inserted h' s' (answer, m, alone). (answer, m)
