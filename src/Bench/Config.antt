-- ===== src/Bench/Config.antt =====
-- main.rs: the command line's choices, and the configuration derived from them.
use pebr_benchmark.Base.{
  ℕ, ◌/◌, ◌*◌, Bool, Option, none, some, List, [], ◌∷◌, ltb, ◌==◌, ◌&&◌, ◌||◌, if◌then◌else◌,
}

pub data Ds : Type 0 where
  h_list : Ds
  hm_list : Ds
  hhs_list : Ds
  hash_map : Ds
  nm_tree : Ds
  bonsai_tree : Ds

pub data Mm : Type 0 where
  nr : Mm
  ebr : Mm
  pebr : Mm

pub data OpsPerCs : Type 0 where
  one : OpsPerCs
  four : OpsPerCs

-- `Unsigned::to_u64` of the type that `main` passes to `bench`.
abbrev pub to_number : OpsPerCs → ℕ
to_number one = 1
to_number four = 4

pub data Op : Type 0 where
  get : Op
  insert : Op
  remove : Op

abbrev pub ops : List Op
ops = get ∷ insert ∷ remove ∷ []

-- What the crate rand provides: distributions, and what is drawn from them with a generator. To
-- make a distribution panics (`none`) for an empty range, or for weights of which none is positive.
pub record RandApi : Type 1 where
  pub Rng : Type 0
  pub Uniform : Type 0
  pub WeightedIndex : Type 0
  pub uniform : (low high : ℕ) → Option Uniform
  pub weighted : List ℕ → Option WeightedIndex
  pub sample_key : Uniform → Rng → ℕ × Rng
  pub sample_index : WeightedIndex → Rng → ℕ × Rng

-- The values of the arguments, after they were parsed.
pub record Arguments : Type 0 where
  pub ds : Ds
  pub mm : Mm
  pub threads : ℕ
  pub non_coop : ℕ
  pub get_rate : ℕ
  pub range : ℕ
  pub interval : ℕ
  pub sampling_period : ℕ
  pub ops_per_cs : ℕ

-- Durations are in milliseconds. The file that the results go to and the memory sampler are left
-- out.
pub record Config (api : RandApi) : Type 0 where
  pub ds : Ds
  pub mm : Mm
  pub threads : ℕ
  pub aux_thread : ℕ
  pub aux_thread_period : ℕ
  pub non_coop : ℕ
  pub non_coop_period : ℕ
  pub sampling : Bool
  pub sampling_period : ℕ
  pub get_rate : ℕ
  pub op_dist : api.WeightedIndex
  pub key_dist : api.Uniform
  pub prefill : ℕ
  pub interval : ℕ
  pub duration : ℕ
  pub ops_per_cs : OpsPerCs

abbrev pub from_secs : ℕ → ℕ
from_secs s = s * 1000

-- `none` is a panic.
abbrev pub parse_ops_per_cs : ℕ → Option OpsPerCs
parse_ops_per_cs n = if n == 1 then some one else if n == 4 then some four else none

abbrev pub op_weights : ℕ → List ℕ
op_weights get_rate =
    if get_rate == 0
    then 0 ∷ 1 ∷ 1 ∷ []
    else if get_rate == 1
    then 2 ∷ 1 ∷ 1 ∷ []
    else 18 ∷ 1 ∷ 1 ∷ []

abbrev pub non_coop_period_of : (non_coop interval : ℕ) → ℕ
non_coop_period_of non_coop interval =
    if non_coop == 1 then 1 else if non_coop == 2 then 10 else from_secs interval

-- `can_sample` is whether this build can measure memory (the `cfg!` of the target and features).
module _ (api : RandApi) (can_sample : Bool) where
  open api use {uniform, weighted}

  unfoldable pub setup : Arguments → Option (Config api)
  setup m =
      let sampling = ltb 0 m.sampling_period && can_sample in
      elim (uniform 0 m.range) [
        | none ↦ none
        | some key_dist ↦ elim (parse_ops_per_cs m.ops_per_cs) [
          | none ↦ none
          | some ops_per_cs ↦ elim (weighted (op_weights m.get_rate)) [
            | none ↦ none
            | some op_dist ↦ some (record {
              ds = m.ds;
              mm = m.mm;
              threads = m.threads;
              aux_thread = if sampling || ltb 0 m.non_coop then 1 else 0;
              aux_thread_period = 1;
              non_coop = m.non_coop;
              non_coop_period = non_coop_period_of m.non_coop m.interval;
              sampling = sampling;
              sampling_period = m.sampling_period;
              get_rate = m.get_rate;
              op_dist = op_dist;
              key_dist = key_dist;
              prefill = m.range / 2;
              interval = m.interval;
              duration = from_secs m.interval;
              ops_per_cs = ops_per_cs;
            })
          ]
        ]
      ]
