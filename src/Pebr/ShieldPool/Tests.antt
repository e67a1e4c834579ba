-- ===== src/Pebr/ShieldPool/Tests.antt =====
-- The pool of pebr/shield_pool.rs with a small stand-in for crossbeam's shields.
use pebr_benchmark.Base.{
  ℕ, get_elem?, ◌+◌, ◌<◌, ◌≡◌, ◌≢◌, refl, Bool, true, false, none, some, List, [], ◌∷◌, arith,
  length, if◌then◌else◌,
}
use pebr_benchmark.Shared.{Shared, shared, null, hit}
use pebr_benchmark.Pebr.ShieldPool.{
  ShieldApi, ShieldPool, handle, ejected, undefined, reuse, grow, defend, drop_handle,
}
use pebr_benchmark.Pebr.ShieldPool.Full.{IsFull}
use pebr_benchmark.Pebr.ShieldPool.Handles.{
  listed, IsValid, pool_of, held_after, defend-IsValid, drop_handle-IsValid, defend-leaks,
}

-- A guard knows whether its thread was ejected, a shield what it protects.
abbrev pub small_api : ShieldApi
small_api = record {
  Guard = Bool;
  Shield = Shared;
  new_shield = λ ptr gone. if gone then none else some ptr;
  defend_shield = λ shield ptr gone. if gone then (shield, false) else (ptr, true);
  release_shield = λ shield. null;
  null_shield = λ gone. null;
  fake_shield = λ shield ptr. ptr;
  deref_shield = λ shield. shield;
  repin = λ gone. false;
  elapse = λ gone. gone;
}

abbrev pub two_shields : List Shared
two_shields = shared 8 0 ∷ null ∷ []

-- The shield 0 is held, the shield 1 available.
one_held-IsValid : IsValid (pool_of two_shields (1 ∷ [])) (0 ∷ [])
unfolding hit
one_held-IsValid = record { once = λ i. ground arith; within = λ i pos. ground arith }

pub one_held-IsFull : IsFull (pool_of two_shields (1 ∷ [])) (0 ∷ [])
unfolding hit
one_held-IsFull = record { exact = λ i low. ground arith; within = λ i pos. ground arith }

-- Both shields are held.
both_held-IsValid : IsValid (pool_of two_shields []) (1 ∷ 0 ∷ [])
unfolding hit
both_held-IsValid = record { once = λ i. ground arith; within = λ i pos. ground arith }

reuses :
    defend small_api (pool_of two_shields (1 ∷ [])) (shared 9 0) false
    ≡ (pool_of (shared 8 0 ∷ shared 9 0 ∷ []) [], handle 1)
unfolding defend reuse
reuses = refl

grows :
    defend small_api (pool_of two_shields []) (shared 9 0) false
    ≡ (pool_of (shared 8 0 ∷ null ∷ shared 9 0 ∷ []) [], handle 2)
unfolding defend grow
grows = refl

gives_back :
    drop_handle small_api (pool_of two_shields (1 ∷ [])) 0
    ≡ some (pool_of (null ∷ null ∷ []) (0 ∷ 1 ∷ []))
unfolding drop_handle
gives_back = refl

defend-IsValid_example :
    IsValid
      (defend small_api (pool_of two_shields (1 ∷ [])) (shared 9 0) false).0
      (held_after (defend small_api (pool_of two_shields (1 ∷ [])) (shared 9 0) false).1 (0 ∷ []))
    × ((defend small_api (pool_of two_shields (1 ∷ [])) (shared 9 0) false).1 ≢ undefined)
defend-IsValid_example =
    defend-IsValid small_api (pool_of two_shields (1 ∷ [])) (0 ∷ []) (shared 9 0) false
      one_held-IsValid

drop_handle-IsValid_example :
    (after : ShieldPool Shared) × (drop_handle small_api (pool_of two_shields []) 1 ≡ some after)
    × IsValid after (0 ∷ [])
    × (listed 1 after.available ≡ 1)
    × ((j : ℕ) → listed j after.available + listed j (0 ∷ []) ≡ listed j [] + listed j (1 ∷ 0 ∷ []))
    × ((shield : Shared) × (get_elem? two_shields 1 ≡ some shield)
        × (get_elem? after.shields 1 ≡ some (small_api.release_shield shield)))
    × ((j : ℕ) → j ≢ 1 → get_elem? after.shields j ≡ get_elem? two_shields j)
drop_handle-IsValid_example =
    drop_handle-IsValid small_api (pool_of two_shields []) 1 (0 ∷ []) both_held-IsValid

defend-leaks_example :
    ((defend small_api (pool_of two_shields (1 ∷ [])) (shared 9 0) true).1 ≡ ejected)
    × (listed 1 (defend small_api (pool_of two_shields (1 ∷ [])) (shared 9 0) true).0.available
          + listed 1 (0 ∷ [])
        ≡ 0)
    × (1 < length (defend small_api (pool_of two_shields (1 ∷ [])) (shared 9 0) true).0.shields)
defend-leaks_example =
    defend-leaks small_api two_shields 1 [] (0 ∷ []) (shared 9 0) true null null refl refl
      one_held-IsValid
