-- ===== src/Bench/Sampler/Average.antt =====
-- main.rs: what the sampling thread sends.
use native.Mathlib.Nat.{mul-le-mul_left, div-le_of_le-mul}
use pebr_benchmark.Base.{
  ℕ, ◌*◌, ◌/◌, ◌≤◌, ◌<◌, ◌≡◌, ◌≢◌, refl, ◌∙◌, Bool-cases, true, false, some, ◌⊎◌, inl, inr, List,
  [], ◌∷◌, ◌++◌, ltb, ◌==◌, All, arith,
}
use pebr_benchmark.Bench.Config.{RandApi, Config}
use pebr_benchmark.Bench.Sampler.{
  finished, average, Sampler, Reading, max, start_sampler, take_sample, take_repin, sampler_loop,
  send, run_sampler,
}

-- At least one sample was taken, `m` is below the peak, and so are all samples on average.
record Measured (m : ℕ) (s : Sampler) : Type 0 where
  pub some_sample : 0 < s.samples
  pub seen : m ≤ s.peak
  pub bounded : s.acc ≤ s.samples * s.peak

-- A guard that was dropped is not repinned.
abbrev pub Safe : List Reading → Sampler → Type 0
Safe readings s = (s.pinned ≡ true) ⊎ All (λ r. r.now ≤ s.next_repin) readings

max-left : (a b : ℕ) → a ≤ max a b
max-left a b = ground arith

max-right : (a b : ℕ) → b ≤ max a b
max-right a b = ground arith

module _ {api : RandApi} (config : Config api) where
  take_sample-Measured :
      (m : ℕ) (r : Reading) (s : Sampler) → Measured m s → Measured m (take_sample config r s)
  unfolding take_sample
  take_sample-Measured m r s i = elim (Bool-cases (ltb s.next_sampling r.now)) [
    | inl e ↦ rw e (
        let grown = mul-le-mul_left s.samples (max-left s.peak r.allocated) in
        let below = max-right s.peak r.allocated in
        let above = max-left s.peak r.allocated in
        record {
          some_sample = omega arith;
          seen = omega (arith, i.seen);
          bounded = omega (arith, i.bounded);
        })
    | inr e ↦ rw e i
  ]

  first_sample-Measured :
      (r : Reading)
      → config.sampling_period < r.now
      → Measured r.allocated (take_sample config r (start_sampler config))
  unfolding take_sample start_sampler
  first_sample-Measured r late =
      let e : ltb config.sampling_period r.now ≡ true = ground arith in
      let below = max-right 0 r.allocated in
      rw e (record { some_sample = omega arith; seen = below; bounded = omega arith })

  take_sample-next_repin :
      (r : Reading) (s : Sampler) → (take_sample config r s).next_repin ≡ s.next_repin
  unfolding take_sample
  take_sample-next_repin r s = ground arith

  take_sample-pinned : (r : Reading) (s : Sampler) → (take_sample config r s).pinned ≡ s.pinned
  unfolding take_sample
  take_sample-pinned r s = ground arith

  -- A round of the loop, which does not end the thread.
  round-Measured :
      (m : ℕ) (r : Reading) (readings : List Reading) (s : Sampler)
      → Safe (r ∷ readings) s
      → Measured m s
      → (s' : Sampler) × (take_repin config r s ≡ some s') × Safe readings s' × Measured m s'
  unfolding take_repin
  round-Measured m r readings s safe i = elim (Bool-cases (ltb s.next_repin r.now)) [
    | inl e ↦ elim safe [
      | inl held ↦
          rw (e, held)
            (
              _,
              refl,
              inl refl,
              record { some_sample = i.some_sample; seen = i.seen; bounded = i.bounded },
            )
      | inr early ↦ ground arith
    ]
    | inr e ↦ rw e (s, refl, elim safe [ inl held ↦ inl held | inr early ↦ inr early.1 ], i)
  ]

  take_sample-Safe :
      (readings : List Reading) (r : Reading) (s : Sampler)
      → Safe readings s
      → Safe readings (take_sample config r s)
  take_sample-Safe readings r s safe = elim safe [
    | inl held ↦ inl (take_sample-pinned r s ∙ held)
    | inr early ↦ inr (rw (take_sample-next_repin r s) early)
  ]

  loop-Measured :
      (m : ℕ) (readings : List Reading) (last : Reading) (rest : List Reading) (s : Sampler)
      → config.duration ≤ last.elapsed
      → Safe readings s
      → Measured m s
      → (s' : Sampler) × (sampler_loop config (readings ++ last ∷ rest) s ≡ finished s')
        × Measured m s'
  unfolding sampler_loop
  loop-Measured m [] last rest s over safe i =
      let e : ltb last.elapsed config.duration ≡ false = ground arith in (s, rw e refl, i)
  loop-Measured m (r ∷ rs) last rest s over safe i =
      elim (Bool-cases (ltb r.elapsed config.duration)) [
        | inl e ↦
            let sampled = take_sample config r s in
            let (s1, repinned, safe1, i1) =
              round-Measured m r rs sampled (take_sample-Safe (r ∷ rs) r s safe)
                (take_sample-Measured m r s i) in
            let (s2, ended, i2) = loop-Measured m rs last rest s1 over safe1 i1 in
            (s2, rw (e, repinned) ended, i2)
        | inr e ↦ (s, rw e refl, i)
      ]

  send-Measured :
      (m : ℕ) (s : Sampler)
      → config.sampling ≡ true
      → Measured m s
      → (peak : ℕ) × (mean : ℕ) × (send config s ≡ finished (peak, mean))
        × (mean ≤ peak)
        × (m ≤ peak)
  unfolding send average
  send-Measured m s on i =
      let more : (s.samples == 0) ≡ false = ground (arith, i.some_sample) in
      (s.peak, s.acc / s.samples, rw (on, more) refl, div-le_of_le-mul s.samples i.bounded, i.seen)

  pub start-Safe :
      (readings : List Reading)
      → (config.non_coop ≢ 0) ⊎ All (λ q. q.now ≤ config.non_coop_period) readings
      → Safe readings (start_sampler config)
  unfolding start_sampler
  start-Safe readings safe = elim safe [
    | inl some_degree ↦ inl (ground arith)
    | inr early ↦ inr early
  ]

  first_round-Measured :
      (r : Reading) (readings : List Reading) (last : Reading) (rest : List Reading)
      → r.elapsed < config.duration
      → config.sampling_period < r.now
      → config.duration ≤ last.elapsed
      → Safe (r ∷ readings) (start_sampler config)
      → (s' : Sampler) × (sampler_loop config (r ∷ readings ++ last ∷ rest) (start_sampler config)
          ≡ finished s')
        × Measured r.allocated s'
  unfolding sampler_loop
  first_round-Measured r readings last rest in_time due over safe =
      let e : ltb r.elapsed config.duration ≡ true = ground arith in
      let (s1, repinned, safe1, i1) =
        round-Measured r.allocated r readings (take_sample config r (start_sampler config))
          (take_sample-Safe (r ∷ readings) r (start_sampler config) safe)
          (first_sample-Measured r due) in
      let (s2, ended, i2) = loop-Measured r.allocated readings last rest s1 over safe1 i1 in
      (s2, rw (e, repinned) ended, i2)

  pub run_sampler-finished :
      (readings : List Reading) (s : Sampler)
      → sampler_loop config readings (start_sampler config) ≡ finished s
      → run_sampler config readings ≡ send config s
  unfolding run_sampler
  run_sampler-finished readings s e = rw (e, run_sampler) refl

  -- If the thread samples, its first reading is in time and due for a sample, one of the readings
  -- is past the duration, and either it keeps its guard or no reading before that one is due for a
  -- repin, then it sends a peak that is not below the first sample, and an average that is not above
  -- the peak: it does not divide by zero.
  pub run_sampler-average :
      (r : Reading) (readings : List Reading) (last : Reading) (rest : List Reading)
      → config.sampling ≡ true
      → r.elapsed < config.duration
      → config.sampling_period < r.now
      → config.duration ≤ last.elapsed
      → (config.non_coop ≢ 0) ⊎ All (λ q. q.now ≤ config.non_coop_period) (r ∷ readings)
      → (peak : ℕ) × (mean : ℕ) × (run_sampler config (r ∷ readings ++ last ∷ rest)
          ≡ finished (peak, mean))
        × (mean ≤ peak)
        × (r.allocated ≤ peak)
  run_sampler-average r readings last rest on in_time due over safe =
      let (s, ended, i) =
        first_round-Measured r readings last rest in_time due over
          (start-Safe (r ∷ readings) safe) in
      let (peak, mean, sent, below, seen) = send-Measured r.allocated s on i in
      (peak, mean, run_sampler-finished (r ∷ readings ++ last ∷ rest) s ended ∙ sent, below, seen)
