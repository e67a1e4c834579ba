-- ===== src/Bench/Sampler/Unsampled.antt =====
-- main.rs: the sampling thread when no sample is due.
use pebr_benchmark.Base.{
  ◌≤◌, ◌≡◌, ◌≢◌, refl, ◌∙◌, Bool-cases, true, false, some, ◌⊎◌, inl, inr, List, [], ◌∷◌, ◌++◌, ltb,
  All, arith,
}
use pebr_benchmark.Bench.Config.{RandApi, Config}
use pebr_benchmark.Bench.Sampler.{
  finished, divided_by_zero, average, Sampler, Reading, start_sampler, take_sample, take_repin,
  sampler_loop, send, run_sampler,
}
use pebr_benchmark.Bench.Sampler.Average.{Safe, start-Safe, run_sampler-finished}

module _ {api : RandApi} (config : Config api) where
  repin_without_sample :
      (r : Reading) (readings : List Reading) (s : Sampler)
      → Safe (r ∷ readings) s
      → (s' : Sampler) × (take_repin config r s ≡ some s')
        × (s'.samples ≡ s.samples)
        × (s'.next_sampling ≡ s.next_sampling)
        × Safe readings s'
  unfolding take_repin
  repin_without_sample r readings s safe = elim (Bool-cases (ltb s.next_repin r.now)) [
    | inl e ↦ elim safe [
      | inl held ↦ rw (e, held) (_, refl, refl, refl, inl refl)
      | inr early ↦ ground arith
    ]
    | inr e ↦
        rw e (s, refl, refl, refl, elim safe [ inl held ↦ inl held | inr early ↦ inr early.1 ])
  ]

  not_due : (r : Reading) (s : Sampler) → r.now ≤ s.next_sampling → take_sample config r s ≡ s
  unfolding take_sample
  not_due r s early = let e : ltb s.next_sampling r.now ≡ false = ground arith in rw e refl

  loop_without_sample :
      (readings : List Reading) (last : Reading) (rest : List Reading) (s : Sampler)
      → config.duration ≤ last.elapsed
      → s.samples ≡ 0
      → All (λ q. q.now ≤ s.next_sampling) readings
      → Safe readings s
      → (s' : Sampler) × (sampler_loop config (readings ++ last ∷ rest) s ≡ finished s')
        × (s'.samples ≡ 0)
  unfolding sampler_loop
  loop_without_sample [] last rest s over unsampled early safe =
      let e : ltb last.elapsed config.duration ≡ false = ground arith in (s, rw e refl, unsampled)
  loop_without_sample (r ∷ rs) last rest s over unsampled early safe =
      elim (Bool-cases (ltb r.elapsed config.duration)) [
        | inr e ↦ (s, rw e refl, unsampled)
        | inl e ↦
            let (s1, repinned, same, kept, safe1) = repin_without_sample r rs s safe in
            let (s2, ended, none_yet) =
              loop_without_sample rs last rest s1 over (same ∙ unsampled) (rw kept early.1) safe1 in
            (s2, rw (e, not_due r s early.0, repinned) ended, none_yet)
      ]

  send_unsampled :
      (s : Sampler) → config.sampling ≡ true → s.samples ≡ 0 → send config s ≡ divided_by_zero
  unfolding send average
  send_unsampled s on unsampled = rw (on, unsampled, average) refl

  -- If the thread samples, no reading before one that is past the duration is later than the
  -- sampling period, and either it keeps its guard or none of those readings is due for a repin,
  -- then it divides by zero.
  pub run_sampler-divided_by_zero :
      (readings : List Reading) (last : Reading) (rest : List Reading)
      → config.sampling ≡ true
      → config.duration ≤ last.elapsed
      → All (λ q. q.now ≤ config.sampling_period) readings
      → (config.non_coop ≢ 0) ⊎ All (λ q. q.now ≤ config.non_coop_period) readings
      → run_sampler config (readings ++ last ∷ rest) ≡ divided_by_zero
  unfolding run_sampler start_sampler
  run_sampler-divided_by_zero readings last rest on over early safe =
      let (s, ended, unsampled) =
        loop_without_sample readings last rest (start_sampler config) over refl early
          (start-Safe config readings safe) in
      run_sampler-finished config (readings ++ last ∷ rest) s ended ∙ send_unsampled s on unsampled
