-- ===== src/Bench/Main.antt =====
-- main.rs: which map is run, how it is filled, and what is made of the threads' counts.
use pebr_benchmark.Base.{ℕ, ◌+◌, ◌/◌, Option, none, some, List, [], ◌∷◌, ◌==◌, if◌then◌else◌}
use pebr_benchmark.Bench.Config.{
  Ds, h_list, hm_list, hhs_list, hash_map, nm_tree, bonsai_tree, nr, ebr, pebr, RandApi, Config,
}
use pebr_benchmark.Bench.Prefill.{PrefillStrategy, random, decreasing}

-- The strategy that `bench` gives a data structure, whatever the memory manager.
abbrev pub strategy_of : Ds → PrefillStrategy
strategy_of h_list = decreasing
strategy_of hm_list = decreasing
strategy_of hhs_list = decreasing
strategy_of hash_map = decreasing
strategy_of nm_tree = random
strategy_of bonsai_tree = random

-- `bench_map_nr`, `bench_map_ebr` and `bench_map_pebr` at the map of a data structure, with what
-- they answer: operations a second, peak and average memory.
pub record Runners (api : RandApi) : Type 0 where
  pub bench_map_nr : Ds → Config api → PrefillStrategy → Option (ℕ × ℕ × ℕ)
  pub bench_map_ebr : Ds → Config api → PrefillStrategy → Option (ℕ × ℕ × ℕ)
  pub bench_map_pebr : Ds → Config api → PrefillStrategy → Option (ℕ × ℕ × ℕ)

-- The sum of what the threads counted.
abbrev pub total : List ℕ → ℕ
total [] = 0
total (n ∷ counts) = n + total counts

module _ {api : RandApi} where
  -- `bench`, up to its output.
  unfoldable pub bench : Runners api → Config api → Option (ℕ × ℕ × ℕ)
  bench runners config = elim config.mm [
    | nr ↦ runners.bench_map_nr config.ds config (strategy_of config.ds)
    | ebr ↦ runners.bench_map_ebr config.ds config (strategy_of config.ds)
    | pebr ↦ runners.bench_map_pebr config.ds config (strategy_of config.ds)
  ]

  -- What a run answers, from the threads' counts and the memory; a zero interval panics.
  unfoldable pub summary : Config api → List ℕ → ℕ × ℕ → Option (ℕ × ℕ × ℕ)
  summary config counts (peak, average) =
      if config.interval == 0 then none else some (total counts / config.interval, peak, average)
