-- ===== src/Ebr/LinkedList/Update.antt =====
-- ebr/list.rs: the lists without marked nodes, and what linking or freeing a node does to them.
use pebr_benchmark.Base.{
  ℕ, suc, ◌<◌, ◌≡◌, refl, ap, sym, true, false, Option, none, some, List, [], ◌∷◌, ◌++◌, length,
  ◌==◌, All, All-left, All-right, All-append, arith,
}
use pebr_benchmark.Ord.{Ord}
use pebr_benchmark.SortedMap.{Entries, lookup, Above, Below, IsSorted}
use pebr_benchmark.SortedMap
use pebr_benchmark.SortedMap.Sorted.{insert-IsSorted}
use pebr_benchmark.SortedMap.Between.{insert_between}
use pebr_benchmark.Shared.{Shared, shared}
use pebr_benchmark.World.{ok, quiet}
use pebr_benchmark.World.Returns
use pebr_benchmark.World.Returns.{Returns, returns}
use pebr_benchmark.Ebr.LinkedList.Heap.{
  Node, Heap, Place, head, next_of, write, update, compare_and_set, store_next, drop_value, free,
}
use pebr_benchmark.Ebr.LinkedList.Find.{Finder}
use pebr_benchmark.Ebr.LinkedList.Map.{find}
use pebr_benchmark.Ebr.LinkedList.Chain.{AllLive, Cell, first, all_entries}
use pebr_benchmark.Ebr.LinkedList.Relink.{end_of, Off, Apart, Chain-update, Chain-right}
use pebr_benchmark.Ebr.LinkedList.Alone.{Alone, Alone-trans, write-Alone, update-Alone}
use pebr_benchmark.Ebr.LinkedList.Position.{Linked, read-Linked, write-Linked, compare_and_set-ok}
use pebr_benchmark.Ebr.LinkedList.Placed.{Placed, Places}
use pebr_benchmark.Ebr.LinkedList.Get.{load_head-ok}

module _ {K V : Type 0} where
  pub all_entries-append :
      (xs ys : List (Cell K V)) → all_entries (xs ++ ys) ≡ all_entries xs ++ all_entries ys
  all_entries-append [] ys = refl
  all_entries-append (x ∷ xs) ys = ap (λ m. (x.key, x.value) ∷ m) (all_entries-append xs ys)

  -- A write changes neither the allocator nor what is deferred.
  pub write-kept :
      (h : Heap K V) (p : Place) (q : Shared)
      → ((write h p q).fresh ≡ h.fresh) × ((write h p q).deferred ≡ h.deferred)
  unfolding write
  write-kept h (head i) q = (refl, refl)
  write-kept h (next_of a) q = kept_on (h.cells a)
    where
      kept_on :
          (o : Option (Node K V))
          → let h' : Heap K V = elim o as (λ _. Heap K V) [
            | none ↦ h
            | some n ↦ record h { cells = update h.cells a (some (record n { next = q })) }
          ] in
            (h'.fresh ≡ h.fresh) × (h'.deferred ≡ h.deferred)
      kept_on none = (refl, refl)
      kept_on (some n) = (refl, refl)

  store_next-ok :
      (h : Heap K V) (a : ℕ) (p : Shared) (n : Node K V)
      → h.cells a ≡ some n
      → store_next (shared a 0) p (quiet h tt)
        ≡ ok tt (quiet (record h { cells = update h.cells a (some (record n { next = p })) }) tt)
  unfolding store_next write
  store_next-ok h a p n e = rw (e, store_next) (rw (e, write) refl)

  pub drop_value-ok :
      (h : Heap K V) (a : ℕ) (n : Node K V)
      → h.cells a ≡ some n
      → drop_value (shared a 0) (quiet h tt)
        ≡ ok tt (quiet (record h { dropped = n.value ∷ h.dropped }) tt)
  unfolding drop_value
  drop_value-ok h a n e = rw e refl

  pub free-ok :
      (h : Heap K V) (a : ℕ) (n : Node K V)
      → h.cells a ≡ some n
      → free (shared a 0) (quiet h tt)
        ≡ ok tt (quiet (record h { cells = update h.cells a none }) tt)
  unfolding free
  free-ok h a n e = rw e refl

  Apart-insert :
      (x : Cell K V) (before after : List (Cell K V))
      → Apart (before ++ after)
      → Off x.addr (before ++ after)
      → Apart (before ++ x ∷ after)
  Apart-insert x [] after a off = (off, a)
  Apart-insert x (b ∷ bs) after a off = (
    All-append _ bs (x ∷ after) (All-left _ bs after a.0)
        ((λ e. off.0 (sym e)), All-right _ bs after a.0),
    Apart-insert x bs after a.1 off.1,
  )

module _ {K V : Type 0} ⦃o : Ord K⦄ where
  -- A list without marked nodes, whose keys rise strictly.
  pub record Clean (h : Heap K V) (list : ℕ) (cs : List (Cell K V)) : Type 0 where
    pub linked : Linked h list cs
    pub live : AllLive cs
    pub rising : IsSorted (all_entries cs)
    pub bounded : All (λ c. c.addr < h.fresh) cs
    pub allocates : 0 < h.fresh

  -- Such a list of the entries `xs`.
  pub record Holds (h : Heap K V) (list : ℕ) (xs : Entries K V) : Type 0 where
    pub cells : List (Cell K V)
    pub clean : Clean h list cells
    pub listed : all_entries cells ≡ xs

  pub find-Placed :
      (finder : Finder K V)
      → Places finder
      → (rounds depth list : ℕ) (key : K) (h : Heap K V) (cs : List (Cell K V)) → Clean h list cs
      → length cs < depth
      → Returns
          (λ (found, cursor) h' s'. (h' ≡ h) × Placed key (head list) cs found cursor)
          (find finder (suc rounds) depth list key (quiet h tt))
  unfolding find
  find-Placed finder places rounds depth list key h cs i enough =
      rw (load_head-ok h list (shared (first cs) 0) i.linked.from) (
        Returns.bind _ (places key h depth cs (head list) enough i.linked.chain i.live i.rising)
          λ (r, cursor) h' s' (same, found, e, p). rw e (returns (same, p)))

  -- A node that is not linked yet is linked between two parts of the list.
  pub link-Holds :
      (h : Heap K V) (list x : ℕ) (key : K) (value : V) (next : Shared)
      → (before after : List (Cell K V)) → 0 < x
      → x < h.fresh
      → h.cells x ≡ some (record { next = next; key = key; value = value })
      → Off x (before ++ after)
      → Clean h list (before ++ after)
      → Below key (all_entries before)
      → Above key (all_entries after)
      → (h' : Heap K V) × (store_next (shared x 0) (shared (first after) 0) (quiet h tt)
          ≡ ok tt (quiet h' tt))
        × (compare_and_set
              (end_of (head list) before)
              (shared (first after) 0)
              (shared x 0)
              (quiet h' tt)
            ≡ ok true (quiet (write h' (end_of (head list) before) (shared x 0)) tt))
        × (m : Holds
            (write h' (end_of (head list) before) (shared x 0))
            list
            (SortedMap.insert key value (all_entries (before ++ after))))
        × Alone x h
            (write h' (end_of (head list) before) (shared x 0))
            list
            (before ++ after)
            m.cells
  link-Holds h list x key value next before after pos low here off i below above =
      let node : Node K V = record { next = shared (first after) 0; key = key; value = value } in
      let h' : Heap K V = record h { cells = update h.cells x (some node) } in
      let new : Cell K V = record { addr = x; key = key; value = value; marked = false } in
      let self : (x == x) ≡ true = ground arith in
      let linked : Linked h' list (before ++ after) = record {
        from = i.linked.from;
        chain = Chain-update h.cells x (some node) (before ++ after) off i.linked.chain;
        apart = i.linked.apart;
      } in
      let live = All-left _ before after i.live in
      let relinked =
        write-Linked h' list before after (new ∷ after) linked live
          (pos, rw self refl, Chain-right h'.cells before after linked.chain)
          (Apart-insert new before after i.linked.apart off) in
      let listed : all_entries (before ++ new ∷ after)
          ≡ SortedMap.insert key value (all_entries (before ++ after)) =
        rw (all_entries-append before (new ∷ after), all_entries-append before after)
          (sym (insert_between key value (all_entries before) (all_entries after) below above)) in
      (
        h',
        store_next-ok h x (shared (first after) 0) _ here,
        compare_and_set-ok h' (end_of (head list) before) (shared (first after) 0) (shared x 0)
            (read-Linked h' list before after linked live),
        record {
          cells = before ++ new ∷ after;
          clean = record {
            linked = relinked;
            live = All-append _ before (new ∷ after) live (refl, All-right _ before after i.live);
            rising = rw listed (insert-IsSorted key value _ i.rising);
            bounded = rw (write-kept h' (end_of (head list) before) (shared x 0)).0 (
                All-append _ before (new ∷ after) (All-left _ before after i.bounded)
                  (low, All-right _ before after i.bounded));
            allocates = rw (write-kept h' (end_of (head list) before) (shared x 0)).0 i.allocates;
          };
          listed = listed;
        },
        Alone-trans
            (update-Alone h list x (some node) (before ++ after) λ a low out e. omega (arith, e))
            (Alone-trans (write-Alone h' list (shared x 0) before after) (record {
              heads = λ i ne. refl;
              cells = λ a low out. refl;
              grows = omega arith;
              joined = λ a low out.
                  All-append _ before (new ∷ after) (All-left _ before after out)
                    ((λ e. omega (arith, e)), All-right _ before after out);
            })),
      )

  -- A node that is not linked is freed.
  pub discard-Clean :
      (h : Heap K V) (list x : ℕ) (value : V) (cs : List (Cell K V))
      → Off x cs
      → Clean h list cs
      → Clean (record h { cells = update h.cells x none; dropped = value ∷ h.dropped }) list cs
  discard-Clean h list x value cs off i = record {
    linked = record {
      from = i.linked.from;
      chain = Chain-update h.cells x none cs off i.linked.chain;
      apart = i.linked.apart;
    };
    live = i.live;
    rising = i.rising;
    bounded = i.bounded;
    allocates = i.allocates;
  }
