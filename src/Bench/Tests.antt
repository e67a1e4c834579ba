-- ===== src/Bench/Tests.antt =====
-- Runs of main.rs with a small generator of random numbers, on a dictionary in place of a map.
use native.Mathlib.Nat.{mod-lt}
use pebr_benchmark.Base.{
  ℕ, suc, ◌+◌, ◌*◌, ◌%◌, ◌≤◌, ◌<◌, ◌≡◌, refl, true, none, some, inl, List, [], ◌∷◌, ltb, length,
  if◌then◌else◌, arith,
}
use pebr_benchmark.Ord.{nat_ord}
use pebr_benchmark.Shared.{null}
use pebr_benchmark.World.{pure, quiet, ◌>>=◌, ◌>>◌}
use pebr_benchmark.World.Returns.{Returns, weaken}
use pebr_benchmark.SortedMap.{Entries, insert}
use pebr_benchmark.Ebr.LinkedList.Heap.{Heap, empty}
use pebr_benchmark.Ebr.LinkedList.Variants.{
  harris_michael_get, harris_michael_insert, harris_michael_remove,
}
use pebr_benchmark.Ebr.LinkedList.Update.{Holds}
use pebr_benchmark.Ebr.LinkedList.Insert.{harris_michael_insert-Holds}
use pebr_benchmark.Bench.Config
use pebr_benchmark.Bench.Config.{
  RandApi, Config, Arguments, setup, hm_list, ebr, one, get, insert as insert_op,
  remove as remove_op,
}
use pebr_benchmark.Bench.Prefill.{decreasing, sample_keys, insert_all, prefill}
use pebr_benchmark.Bench.Prefill.Decreasing.{InOrder}
use pebr_benchmark.Bench.Prefill.Filled.{filled, prefill-Returns}
use pebr_benchmark.Bench.Worker.{Operations, worker_loop}
use pebr_benchmark.Bench.Worker.Counts.{
  operation, section_end, sections, draw, run_events, worker_loop-events,
}
use pebr_benchmark.Bench.Sampler.{Reading, finished, divided_by_zero, run_sampler}
use pebr_benchmark.Bench.Sampler.Average.{run_sampler-average}
use pebr_benchmark.Bench.Sampler.Unsampled.{run_sampler-divided_by_zero}

-- The generator is a counter.
abbrev counter : RandApi
counter = record {
  Rng = ℕ;
  Uniform = ℕ;
  WeightedIndex = ℕ;
  uniform = λ low high. if ltb low high then some high else none;
  weighted = λ weights. some 3;
  sample_key = λ high g. (g * 7 % high, g + 1);
  sample_index = λ n g. (g % 3, g + 1);
}

-- Ten keys, one second, memory sampled every millisecond.
abbrev arguments : Arguments
arguments = record {
  ds = hm_list;
  mm = ebr;
  threads = 1;
  non_coop = 1;
  get_rate = 0;
  range = 10;
  interval = 1;
  sampling_period = 1;
  ops_per_cs = 4;
}

abbrev config : Config counter
config = record {
  ds = hm_list;
  mm = ebr;
  threads = 1;
  aux_thread = 1;
  aux_thread_period = 1;
  non_coop = 1;
  non_coop_period = 1;
  sampling = true;
  sampling_period = 1;
  get_rate = 0;
  op_dist = 3;
  key_dist = 10;
  prefill = 5;
  interval = 1;
  duration = 1000;
  ops_per_cs = Config.four;
}

setup-config : setup counter true arguments ≡ some config
unfolding setup
setup-config = refl

setup-odd_ops : setup counter true (record arguments { ops_per_cs = 2 }) ≡ none
unfolding setup
setup-odd_ops = refl

-- The map is a list of ebr/list.rs.
abbrev list_map : Operations ℕ (Heap ℕ ℕ) (Unit {0})
list_map = record {
  map_get = λ k. harris_michael_get 1 9 0 k;
  map_insert = λ k v. harris_michael_insert 1 9 0 k v;
  map_remove = λ k. harris_michael_remove 1 9 0 k;
  end_section = pure tt;
}

abbrev new_list : Heap ℕ ℕ
new_list = record empty { heads = null ∷ [] }

-- The entries of a list and the insertions that are to come are fewer than nine.
abbrev ListHolds : ℕ → Entries ℕ ℕ → Heap ℕ ℕ → Unit {0} → Type 0
ListHolds room xs h s = Holds h 0 xs × (length xs + room < 9)

new_list-Holds : Holds new_list 0 []
new_list-Holds = record {
  cells = [];
  clean = record {
    linked = record { from = refl; chain = tt; apart = tt };
    live = tt;
    rising = tt;
    bounded = tt;
    allocates = omega arith;
  };
  listed = refl;
}

length-insert : (k v : ℕ) (xs : Entries ℕ ℕ) → length (insert k v xs) ≤ suc (length xs)
unfolding insert
length-insert k v [] = omega arith
length-insert k v ((j, w) ∷ xs) = ground (arith, length-insert k v xs)

list_insert-Returns :
    (room : ℕ) (xs : Entries ℕ ℕ) (k : ℕ) (h : Heap ℕ ℕ) (s : Unit {0})
    → ListHolds (suc room) xs h s
    → Returns
        (λ inserted h' s'. ListHolds room (insert k k xs) h' s')
        (list_map.map_insert k k (quiet h s))
list_insert-Returns room xs k h s (holds, few) =
    weaken (harris_michael_insert-Holds 0 9 0 k k h xs holds (omega (arith, few)))
      λ inserted h' s' (answer, after). (after, omega (arith, few, length-insert k k xs))

prefill-Returns_example :
    let drawn = sample_keys counter 5 10 1 in
    (keys : List ℕ) × InOrder decreasing drawn.0 keys
    × (prefill (λ n. n) list_map.map_insert decreasing config 1 (quiet new_list tt)
        ≡ (insert_all (λ n. n) list_map.map_insert keys >> pure drawn.1) (quiet new_list tt))
    × Returns
        (λ rng' h' s'. (rng' ≡ drawn.1) × ListHolds 0 (filled (λ n. n) drawn.0 []) h' s')
        (prefill (λ n. n) list_map.map_insert decreasing config 1 (quiet new_list tt))
prefill-Returns_example =
    prefill-Returns (λ n. n) list_map.map_insert ListHolds list_insert-Returns decreasing config 1
      [] new_list tt (new_list-Holds, omega arith)

in_range : (g : ℕ) → (counter.sample_index config.op_dist g).0 < 3
in_range g = mod-lt g (omega arith)

worker_loop-events_example :
    worker_loop list_map (λ n. n) config 2 (10 ∷ 20 ∷ 30 ∷ 1000 ∷ []) 0 1 (quiet new_list tt)
    ≡ (run_events list_map (λ n. n) (sections 2 0 (draw config in_range 3 1)) >>= λ _. pure 3)
        (quiet new_list tt)
worker_loop-events_example =
    worker_loop-events list_map (λ n. n) config 2 in_range (10 ∷ 20 ∷ 30 ∷ []) 1000 [] 0 1
      (quiet new_list tt) (omega arith, (omega arith, (omega arith, tt))) (omega arith)

-- A section ends after the second operation.
sections-three :
    sections 2 0 ((get, 5) ∷ (insert_op, 6) ∷ (remove_op, 7) ∷ [])
    ≡ operation get 5 ∷ operation insert_op 6 ∷ section_end ∷ operation remove_op 7 ∷ []
sections-three = refl

abbrev reading : ℕ → ℕ → Reading
reading t allocated = record { elapsed = t; now = t; allocated = allocated }

run_sampler-average_example :
    (peak : ℕ) × (mean : ℕ) × (run_sampler config
        (reading 2 10 ∷ reading 5 40 ∷ reading 1000 20 ∷ [])
      ≡ finished (peak, mean))
    × (mean ≤ peak)
    × (10 ≤ peak)
run_sampler-average_example =
    run_sampler-average config (reading 2 10) (reading 5 40 ∷ []) (reading 1000 20) [] refl
      (omega arith) (omega arith) (omega arith) (inl λ e. ground arith)

run_sampler-divided_by_zero_example :
    run_sampler config (reading 0 10 ∷ reading 1 40 ∷ reading 1000 20 ∷ []) ≡ divided_by_zero
run_sampler-divided_by_zero_example =
    run_sampler-divided_by_zero config (reading 0 10 ∷ reading 1 40 ∷ []) (reading 1000 20) [] refl
      (omega arith) (omega arith, (omega arith, tt)) (inl λ e. ground arith)
