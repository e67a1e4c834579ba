-- ===== src/Bench/Worker/Counts.antt =====
-- main.rs: what a worker does, as a schedule that is drawn before anything is run.
use pebr_benchmark.Base.{
  ℕ, zero, suc, ◌+◌, ◌%◌, ◌≤◌, ◌<◌, ◌≡◌, refl, ◌∙◌, sym, ap, Bool, true, false, List, [], ◌∷◌, ◌++◌,
  length, ltb, ◌==◌, if◌then◌else◌, All, arith, get_elem?-some,
}
use pebr_benchmark.World.{World, Cmd, ok, pure, ◌>>=◌, ◌>>◌}
use pebr_benchmark.World.Then.{same_then, then_assoc}
use pebr_benchmark.Bench.Config.{RandApi, Config, Op, get, insert, remove, ops}
use pebr_benchmark.Bench.Worker.{Operations, run_op, worker_loop}

-- What a worker asks of the map: an operation on a sampled number, or the end of a section.
pub data Event : Type 0 where
  operation : Op → ℕ → Event
  section_end : Event

-- `drawn` operations, cut into sections: `count` of them came before.
abbrev pub sections : (per_section count : ℕ) → List (Op × ℕ) → List Event
sections per_section count [] = []
sections per_section count ((op, k) ∷ drawn) =
    let rest = sections per_section (count + 1) drawn in
    operation op k ∷ (if (count + 1) % per_section == 0 then section_end ∷ rest else rest)

module _ {api : RandApi} (config : Config api)
    (in_range : (g : api.Rng) → (api.sample_index config.op_dist g).0 < 3) where
  open api use {Rng, sample_key, sample_index}

  abbrev operation_at : (i : ℕ) → i < 3 → Op
  operation_at i low = (get_elem?-some ops i low).0

  -- The next `n` operations: a number by the distribution of keys, then an index by that of
  -- operations, and what the generator is then.
  abbrev pub draw : ℕ → Rng → List (Op × ℕ)
  draw zero rng = []
  draw (suc n) rng =
      let key = sample_key config.key_dist rng in
      let index = sample_index config.op_dist key.1 in
      (operation_at index.0 (in_range key.1), key.0) ∷ draw n index.1

module _ {K H S : Type 0} (map : Operations K H S) (to_string : ℕ → K) where
  abbrev run_event : Event → Cmd H S (Unit {0})
  run_event (operation get k) = do _ ← map.map_get (to_string k); pure tt
  run_event (operation insert k) = do _ ← map.map_insert (to_string k) (to_string k); pure tt
  run_event (operation remove k) = do _ ← map.map_remove (to_string k); pure tt
  run_event section_end = map.end_section

  abbrev pub run_events : List Event → Cmd H S (Unit {0})
  run_events [] = pure tt
  run_events (e ∷ es) = do run_event e; run_events es

  run_op-event :
      (op : Op) (k : ℕ) (w : World H S)
      → run_op map op (to_string k) w ≡ run_event (operation op k) w
  unfolding run_op
  run_op-event get k w = refl
  run_op-event insert k w = refl
  run_op-event remove k w = refl

  end_if :
      {A : Type 0} (b : Bool) (es : List Event) (a : A) (w : World H S)
      → (run_events (if b then section_end ∷ es else es) >>= λ _. pure a) w
        ≡ ((if b then map.end_section else pure tt) >>= λ _. run_events es >>= λ _. pure a) w
  end_if true es a w = then_assoc (map.end_section w) _ _
  end_if false es a w = refl

  module _ {api : RandApi} (config : Config api) (per_section : ℕ)
      (in_range : (g : api.Rng) → (api.sample_index config.op_dist g).0 < 3) where
    -- Whatever the other threads do, on any map, if the indices that the distribution of
    -- operations gives are below three: up to a clock that is past the duration, the loop of a
    -- worker does what the operations do that are drawn beforehand, one for every round in time,
    -- with a section's end after each operation whose number is a multiple of `per_section`, and
    -- adds their number to the count.
    pub worker_loop-events :
        (in_time : List ℕ) (late : ℕ) (clock : List ℕ) (count : ℕ) (rng : api.Rng) (w : World H S)
        → All (λ elapsed. elapsed < config.duration) in_time
        → config.duration ≤ late
        → worker_loop map to_string config per_section (in_time ++ late ∷ clock) count rng w
          ≡ (run_events (sections per_section count (draw config in_range (length in_time) rng))
                >>= λ _. pure (count + length in_time))
              w
    unfolding worker_loop
    worker_loop-events [] late clock count rng w early over =
        let e : ltb late config.duration ≡ false = ground arith in
        let n : count ≡ count + 0 = omega arith in rw e (ap (λ m. ok m w) n)
    worker_loop-events (t ∷ ts) late clock count rng w early over =
        let e : ltb t config.duration ≡ true = ground (arith, early.0) in
        let key = api.sample_key config.key_dist rng in
        let index = api.sample_index config.op_dist key.1 in
        let (op, found) = get_elem?-some ops index.0 (in_range key.1) in
        let rest = sections per_section (count + 1) (draw config in_range (length ts) index.1) in
        let total : count + 1 + length ts ≡ count + suc (length ts) = omega arith in
        let b = (count + 1) % per_section == 0 in
        rw (e, found, run_op-event op key.0 w)
          (same_then (run_event (operation op key.0) w) _ _ (λ u v.
              same_then ((if b then map.end_section else pure tt) v) _ _ (λ u' v'.
                worker_loop-events ts late clock (count + 1) index.1 v' early.1 over
                ∙ ap (λ m. (run_events rest >>= λ _. pure m) v') total)
              ∙ sym (end_if b rest (count + suc (length ts)) v))
            ∙ sym (then_assoc (run_event (operation op key.0) w) _ _))
