-- ===== src/Bench/Worker.antt =====
-- main.rs: the loop of a thread that runs operations and counts them.
pub mod Counts
use pebr_benchmark.Base.{
  ℕ, ◌+◌, ◌%◌, Bool, Option, none, some, List, [], ◌∷◌, get_elem?, ltb, ◌==◌, if◌then◌else◌,
}
use pebr_benchmark.World.{Cmd, pure, crash, stop, ◌>>=◌, ◌>>◌}
use pebr_benchmark.Bench.Config.{RandApi, Config, Op, get, insert, remove, ops}

-- A map's operations, with the thread's guard and handle, on strings; and what the thread does
-- after every N operations: it drops its guard and pins again (EBR), it clears its handle and repins
-- (PEBR), or nothing (no reclamation).
pub record Operations (K H S : Type 0) : Type 0 where
  pub map_get : K → Cmd H S (Option K)
  pub map_insert : K → K → Cmd H S Bool
  pub map_remove : K → Cmd H S (Option K)
  pub end_section : Cmd H S (Unit {0})

module _ {K H S : Type 0} (map : Operations K H S) where
  -- `match op { .. }`; results are not used.
  unfoldable pub run_op : Op → K → Cmd H S (Unit {0})
  run_op get key = do _ ← map.map_get key; pure tt
  run_op insert key = do _ ← map.map_insert key key; pure tt
  run_op remove key = do _ ← map.map_remove key; pure tt

  module _ {api : RandApi} (to_string : ℕ → K) (config : Config api) (per_section : ℕ) where
    open api use {Rng, sample_key, sample_index}

    -- `clock` is what `start.elapsed()` answers, call by call. The result is `ops`.
    unfoldable pub worker_loop : (clock : List ℕ) → ℕ → Rng → Cmd H S ℕ
    unfolding run_op
    worker_loop [] count rng = stop
    worker_loop (elapsed ∷ clock) count rng =
        if ltb elapsed config.duration
        then (let (k, rng) = sample_key config.key_dist rng in
            let (i, rng) = sample_index config.op_dist rng in
            elim (get_elem? ops i) [
              | none ↦ crash
              | some op ↦ do
                run_op op (to_string k)
                (if (count + 1) % per_section == 0 then map.end_section else pure tt)
                worker_loop clock (count + 1) rng
            ])
        else pure count
