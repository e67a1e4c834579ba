-- ===== src/Bench/Sampler.antt =====
-- main.rs: the thread that measures memory, and that keeps an epoch from advancing.
pub mod Average
pub mod Unsampled
use pebr_benchmark.Base.{
  ℕ, ◌+◌, ◌/◌, Bool, not, Option, none, some, List, [], ◌∷◌, ltb, ◌==◌, if◌then◌else◌,
}
use pebr_benchmark.Bench.Config.{RandApi, Config}

-- `pinned` is false once the guard was dropped.
pub record Sampler : Type 0 where
  pub samples : ℕ
  pub acc : ℕ
  pub peak : ℕ
  pub next_sampling : ℕ
  pub next_repin : ℕ
  pub pinned : Bool

-- What a round of the loop reads, as times after the start: `start.elapsed()`, `Instant::now()`,
-- and the allocated bytes.
pub record Reading : Type 0 where
  pub elapsed : ℕ
  pub now : ℕ
  pub allocated : ℕ

-- How the thread ends: it sends something; it panics, by a division by 0 or an assertion; it repins
-- a guard that was dropped, which is undefined behaviour; or the readings do not reach its end.
pub data Finish (A : Type 0) : Type 0 where
  finished : A → Finish A
  divided_by_zero : Finish A
  assertion_failed : Finish A
  undefined : Finish A
  out_of_readings : Finish A

abbrev pub then_finish : {A B : Type 0} → Finish A → (A → Finish B) → Finish B
then_finish (finished a) k = k a
then_finish divided_by_zero k = divided_by_zero
then_finish assertion_failed k = assertion_failed
then_finish undefined k = undefined
then_finish out_of_readings k = out_of_readings

abbrev pub max : ℕ → ℕ → ℕ
max a b = if ltb a b then b else a

module _ {api : RandApi} (config : Config api) where
  -- `bench_map_ebr` and `bench_map_pebr`: the guard is dropped at once without non-cooperation.
  unfoldable pub start_sampler : Sampler
  start_sampler = record {
    samples = 0;
    acc = 0;
    peak = 0;
    next_sampling = config.sampling_period;
    next_repin = config.non_coop_period;
    pinned = not (config.non_coop == 0);
  }

  -- `if now > next_sampling`
  unfoldable pub take_sample : Reading → Sampler → Sampler
  take_sample r s =
      if ltb s.next_sampling r.now
      then record s {
        samples = s.samples + 1;
        acc = s.acc + r.allocated;
        peak = max s.peak r.allocated;
        next_sampling = r.now + config.sampling_period;
      }
      else s

  -- `if now > next_repin`; a guard that was dropped must not be repinned (`none`).
  unfoldable pub take_repin : Reading → Sampler → Option Sampler
  take_repin r s =
      if ltb s.next_repin r.now
      then if s.pinned
        then some (record s { next_repin = r.now + config.non_coop_period })
        else none
      else some s

  -- The loop, up to the first round that finds the time over.
  unfoldable pub sampler_loop : List Reading → Sampler → Finish Sampler
  unfolding take_sample take_repin
  sampler_loop [] s = out_of_readings
  sampler_loop (r ∷ rs) s =
      if ltb r.elapsed config.duration
      then elim (take_repin r (take_sample r s)) [ none ↦ undefined | some s' ↦ sampler_loop rs s' ]
      else finished s

  -- `(peak, acc / samples)`
  unfoldable pub average : Sampler → Finish (ℕ × ℕ)
  average s = if s.samples == 0 then divided_by_zero else finished (s.peak, s.acc / s.samples)

  -- `mem_sender.send(..)`
  unfoldable pub send : Sampler → Finish (ℕ × ℕ)
  unfolding average
  send s = if config.sampling then average s else finished (0, 0)

  unfoldable pub run_sampler : List Reading → Finish (ℕ × ℕ)
  unfolding start_sampler sampler_loop send
  run_sampler readings = then_finish (sampler_loop readings start_sampler) send

  -- `bench_map_nr` has no guard, and asserts that it has to sample.
  unfoldable pub sampler_loop_nr : List Reading → Sampler → Finish Sampler
  unfolding take_sample
  sampler_loop_nr [] s = out_of_readings
  sampler_loop_nr (r ∷ rs) s =
      if ltb r.elapsed config.duration then sampler_loop_nr rs (take_sample r s) else finished s

  unfoldable pub run_sampler_nr : List Reading → Finish (ℕ × ℕ)
  unfolding start_sampler sampler_loop_nr average
  run_sampler_nr readings =
      if config.sampling
      then then_finish (sampler_loop_nr readings start_sampler) average
      else assertion_failed
