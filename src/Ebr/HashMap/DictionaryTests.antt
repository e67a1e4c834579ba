-- ===== src/Ebr/HashMap/DictionaryTests.antt =====
-- The dictionary of ebr/michael_hash_map.rs at two buckets of one node each.
use pebr_benchmark.Base.{
  ℕ, zero, suc, ◌<◌, ◌≡◌, ◌≢◌, refl, false, Option, none, some, is_none, List, [], ◌∷◌, get_elem?,
  ◌%◌, ◌==◌, if◌then◌else◌, arith,
}
use pebr_benchmark.Ord.{nat_ord}
use pebr_benchmark.SortedMap.{lookup}
use pebr_benchmark.SortedMap.Assign.{assign, erase}
use pebr_benchmark.Shared.{shared, null}
use pebr_benchmark.World.{ok, quiet}
use pebr_benchmark.World.Returns.{Returns}
use pebr_benchmark.Ebr.LinkedList.Heap.{Heap, Node, empty}
use pebr_benchmark.Ebr.LinkedList.Chain.{Cell, all_entries}
use pebr_benchmark.Ebr.LinkedList.Update.{Clean}
use pebr_benchmark.Ebr.HashMap.{HashMap, with_capacity, get, insert, remove}
use pebr_benchmark.Ebr.HashMap.Disjoint.{Disjoint}
use pebr_benchmark.Ebr.HashMap.Table.{Maps}
use pebr_benchmark.Ebr.HashMap.Dictionary.{get-Maps, insert-Maps, remove-Maps}
use pebr_benchmark.Ebr.HashMap.Empty.{with_capacity-Maps}

abbrev same : ℕ → ℕ
same k = k

abbrev two_buckets : HashMap
two_buckets = record { buckets = 0 ∷ 1 ∷ [] }

abbrev node : ℕ → ℕ → Option (Node ℕ ℕ)
node key value = some (record { next = null; key = key; value = value })

abbrev two_lists : Heap ℕ ℕ
two_lists = record empty {
  heads = shared 1 0 ∷ shared 2 0 ∷ [];
  cells = λ a. if a == 1 then node 4 40 else if a == 2 then node 3 30 else none;
  fresh = 3;
}

abbrev even_cell : Cell ℕ ℕ
even_cell = record { addr = 1; key = 4; value = 40; marked = false }

abbrev odd_cell : Cell ℕ ℕ
odd_cell = record { addr = 2; key = 3; value = 30; marked = false }

abbrev two_cells : ℕ → List (Cell ℕ ℕ)
two_cells zero = even_cell ∷ []
two_cells (suc i) = odd_cell ∷ []

two_listed : (i : ℕ) → i < 2 → get_elem? two_buckets.buckets i ≡ some i
two_listed zero low = refl
two_listed (suc zero) low = refl
two_listed (suc (suc i)) low = absurd (omega (arith, low))

two_clean : (i : ℕ) → i < 2 → Clean two_lists i (two_cells i)
two_clean zero low = record {
  linked = record { from = refl; chain = (omega arith, refl, tt); apart = (tt, tt) };
  live = (refl, tt);
  rising = (tt, tt);
  bounded = (omega arith, tt);
  allocates = omega arith;
}
two_clean (suc zero) low = record {
  linked = record { from = refl; chain = (omega arith, refl, tt); apart = (tt, tt) };
  live = (refl, tt);
  rising = (tt, tt);
  bounded = (omega arith, tt);
  allocates = omega arith;
}
two_clean (suc (suc i)) low = absurd (omega (arith, low))

two_apart : (i j : ℕ) → i < 2 → j < 2 → i ≢ j → Disjoint (two_cells i) (two_cells j)
two_apart zero zero low_i low_j ne = absurd (ne refl)
two_apart zero (suc j) low_i low_j ne = (((λ e. omega (arith, e)), tt), tt)
two_apart (suc i) zero low_i low_j ne = (((λ e. omega (arith, e)), tt), tt)
two_apart (suc i) (suc j) low_i low_j ne = absurd (ne (omega (arith, low_i, low_j)))

abbrev dictionary : ℕ → Option ℕ
dictionary k = lookup k (all_entries (two_cells (k % 2)))

abbrev two_Maps : Maps same two_lists two_buckets dictionary
two_Maps = record {
  some_buckets = omega arith;
  list = same;
  listed = two_listed;
  distinct = λ i j low_i low_j ne. ne;
  cells = two_cells;
  clean = two_clean;
  apart = two_apart;
  view = λ k. refl;
}

get-Maps_example :
    get same 1 2 two_buckets 3 (quiet two_lists tt) ≡ ok (dictionary 3) (quiet two_lists tt)
get-Maps_example = get-Maps same 0 2 two_buckets 3 two_lists dictionary two_Maps (omega arith)

insert-Maps_example :
    Returns
      (λ inserted h' s'.
        (inserted ≡ is_none (dictionary 6)) × Maps same h' two_buckets (assign 6 60 dictionary))
      (insert same 1 2 two_buckets 6 60 (quiet two_lists tt))
insert-Maps_example =
    insert-Maps same 0 2 two_buckets 6 two_lists dictionary two_Maps (omega arith) 60

remove-Maps_example :
    Returns
      (λ found h' s'. (found ≡ dictionary 3) × Maps same h' two_buckets (erase 3 dictionary))
      (remove same 1 2 two_buckets 3 (quiet two_lists tt))
remove-Maps_example = remove-Maps same 0 2 two_buckets 3 two_lists dictionary two_Maps (omega arith)

with_capacity-Maps_example :
    Returns (λ map h' s'. Maps same h' map (λ k. none)) (with_capacity 2 (quiet two_lists tt))
with_capacity-Maps_example = with_capacity-Maps same 2 two_lists (omega arith) (omega arith)
