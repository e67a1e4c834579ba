-- ===== src/Bench/Prefill.antt =====
-- main.rs: filling a map with sampled keys before it is measured.
pub mod Decreasing
pub mod Filled
use pebr_benchmark.Base.{ℕ, zero, suc, List, [], ◌∷◌, ltb, if◌then◌else◌}
use pebr_benchmark.Base.{Bool}
use pebr_benchmark.World.{Cmd, pure, ◌>>=◌, ◌>>◌}
use pebr_benchmark.Bench.Config.{RandApi, Config}

pub data PrefillStrategy : Type 0 where
  random : PrefillStrategy
  decreasing : PrefillStrategy

-- `keys.sort_by(|a, b| b.cmp(a))`, which is stable.
abbrev pub insert_decreasing : ℕ → List ℕ → List ℕ
insert_decreasing k [] = k ∷ []
insert_decreasing k (j ∷ js) = if ltb j k then k ∷ j ∷ js else j ∷ insert_decreasing k js

abbrev pub sort_decreasing : List ℕ → List ℕ
sort_decreasing [] = []
sort_decreasing (k ∷ ks) = insert_decreasing k (sort_decreasing ks)

-- The sampled keys, in the order of the vector.
abbrev pub sample_keys : (api : RandApi) → ℕ → api.Uniform → api.Rng → List ℕ × api.Rng
sample_keys api zero dist rng = ([], rng)
sample_keys api (suc n) dist rng =
    let (k, rng) = api.sample_key dist rng in
    let (ks, rng) = sample_keys api n dist rng in (k ∷ ks, rng)

-- `map_insert` is the map's `insert`, with its guard (and its handle); `to_string` is the standard
-- library's. Both `prefill_ebr` and `prefill_pebr` are this, for the two interfaces of a map.
module _ {K H S : Type 0} (to_string : ℕ → K) (map_insert : K → K → Cmd H S Bool) where
  abbrev pub insert_key : ℕ → Cmd H S (Unit {0})
  insert_key k = let key = to_string k in do _ ← map_insert key key; pure tt

  unfoldable pub insert_all : List ℕ → Cmd H S (Unit {0})
  insert_all [] = pure tt
  insert_all (k ∷ ks) = do insert_key k; insert_all ks

  -- `for _ in 0..config.prefill`, sampling and inserting.
  unfoldable pub fill_random : (api : RandApi) → ℕ → api.Uniform → api.Rng → Cmd H S api.Rng
  fill_random api zero dist rng = pure rng
  fill_random api (suc n) dist rng =
      let (k, rng) = api.sample_key dist rng in do insert_key k; fill_random api n dist rng

  -- The generator, the thread's own, is given and returned.
  unfoldable pub prefill :
      PrefillStrategy → {api : RandApi} → Config api → api.Rng → Cmd H S api.Rng
  unfolding fill_random insert_all
  prefill random {api} config rng = fill_random api config.prefill config.key_dist rng
  prefill decreasing {api} config rng =
      let (keys, rng) = sample_keys api config.prefill config.key_dist rng in
      do insert_all (sort_decreasing keys); pure rng
