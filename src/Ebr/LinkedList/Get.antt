-- ===== src/Ebr/LinkedList/Get.antt =====
-- The lookup of ebr/list.rs by the search that only reads.
use pebr_benchmark.Base.{ℕ, suc, ◌<◌, ◌≡◌, refl, inl, inr, Bool, some, List, length, get_elem?}
use pebr_benchmark.Ord.{Ord}
use pebr_benchmark.SortedMap.{lookup, IsSorted}
use pebr_benchmark.Shared.{Shared, shared}
use pebr_benchmark.World.{ok, quiet}
use pebr_benchmark.World.Returns
use pebr_benchmark.World.Returns.{Returns, returns}
use pebr_benchmark.Ebr.LinkedList.Heap.{Heap, head, Cursor, load, read}
use pebr_benchmark.Ebr.LinkedList.Find.{
  Finder, cursor_at, find_harris_michael, find_harris_herlihy_shavit,
}
use pebr_benchmark.Ebr.LinkedList.Map.{find, get}
use pebr_benchmark.Ebr.LinkedList.Variants.{harris_michael_get, harris_herlihy_shavit_get}
use pebr_benchmark.Ebr.LinkedList.Chain.{
  AllLive, Cell, first, Chain, all_entries, live_entries, deref-ok,
}
use pebr_benchmark.Ebr.LinkedList.Search.{
  Answer, Seen, find_harris_michael-Seen, find_harris_herlihy_shavit-Seen,
}

-- The head leads to the nodes `cs`, whose keys rise strictly, marked ones included.
pub record Leads {K V : Type 0} ⦃o : Ord K⦄ (h : Heap K V) (list : ℕ) (cs : List (Cell K V))
    : Type 0 where
  pub from : get_elem? h.heads list ≡ some (shared (first cs) 0)
  pub chain : Chain h.cells cs
  pub rising : IsSorted (all_entries cs)

module _ {K V : Type 0} where
  pub load_head-ok :
      (h : Heap K V) (list : ℕ) (p : Shared)
      → get_elem? h.heads list ≡ some p
      → load (head list) (quiet h tt) ≡ ok p (quiet h tt)
  unfolding load read
  load_head-ok h list p e = rw e

module _ {K V : Type 0} ⦃o : Ord K⦄ (rounds depth list : ℕ) (key : K) {h : Heap K V}
    {cs : List (Cell K V)} (m : Leads h list cs) (enough : length cs < depth) where
  abbrev Found : Bool × Cursor → Heap K V → Unit {0} → Type 0
  Found (found, cursor) h' s' = (h' ≡ h) × Answer key h cs found cursor

  module _ (finder : Finder K V)
      (seen : Returns
        (Seen key h cs)
        (finder depth key (cursor_at (head list) (shared (first cs) 0)) (quiet h tt))) where
    find-Found : Returns Found (find finder (suc rounds) depth list key (quiet h tt))
    unfolding find
    find-Found =
        rw (load_head-ok h list (shared (first cs) 0) m.from)
          (Returns.bind _ seen λ (r, cursor) h' s' (same, found, e, a). rw e (returns (same, a)))

    -- A search that changes nothing finds what `get` returns.
    get-Found :
        get finder (suc rounds) depth list key (quiet h tt)
        ≡ ok (lookup key (live_entries cs)) (quiet h tt)
    unfolding get
    get-Found = Returns.exact (
        Returns.bind _ find-Found λ (found, cursor) h' s' (same, a). elim a [
          | inl (e, out) ↦ rw (e, out, same) (returns (refl, refl, refl))
          | inr (n, e, there, cell, value) ↦
              rw (e, there, same, deref-ok h cursor.curr n cell, value) (returns (refl, refl, refl))
        ])

  -- Undisturbed, with a round and a depth above the number of nodes, on a list whose keys rise
  -- strictly: the lookup returns what the unmarked nodes have at the key, and changes nothing.
  pub harris_herlihy_shavit_get-lookup :
      harris_herlihy_shavit_get (suc rounds) depth list key (quiet h tt)
      ≡ ok (lookup key (live_entries cs)) (quiet h tt)
  unfolding harris_herlihy_shavit_get
  harris_herlihy_shavit_get-lookup =
      get-Found find_harris_herlihy_shavit
        (find_harris_herlihy_shavit-Seen key h depth cs (head list) 0 enough m.chain m.rising)

  -- Undisturbed, with a round and a depth above the number of nodes, on a list whose keys rise
  -- strictly and in which no node is marked: the lookup of Harris and Michael returns what the list
  -- has at the key, and changes nothing.
  pub harris_michael_get-lookup :
      AllLive cs
      → harris_michael_get (suc rounds) depth list key (quiet h tt)
        ≡ ok (lookup key (live_entries cs)) (quiet h tt)
  unfolding harris_michael_get
  harris_michael_get-lookup live =
      get-Found find_harris_michael
        (find_harris_michael-Seen key h depth cs (head list) enough m.chain live m.rising)
