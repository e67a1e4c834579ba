-- ===== src/Pebr/ShieldPool/Full.antt =====
-- pebr/shield_pool.rs: pools of which no shield is lost, and what a refused shield loses.
use pebr_benchmark.Base.{
  ℕ, ◌+◌, ◌<◌, ◌≡◌, refl, ap, true, false, inl, inr, ◌⊎◌, Bool, Option, none, some, List, [], ◌∷◌,
  arith, length, length-set, length-append, get_elem?-some, set, zero_or_pos, eq_or_ne,
}
use pebr_benchmark.Shared.{Shared, hit_self, hit_ne}
use pebr_benchmark.Pebr.ShieldPool.{
  ShieldApi, ShieldPool, Defended, handle, ejected, undefined, reuse, grow, defend, drop_handle,
}
use pebr_benchmark.Pebr.ShieldPool.Handles.{listed, pool_of}

-- Every shield of the pool is either available or held, just once, and no other index is.
pub record IsFull {S : Type 0} (pool : ShieldPool S) (held : List ℕ) : Type 0 where
  pub exact : (i : ℕ) → i < length pool.shields → listed i pool.available + listed i held ≡ 1
  pub within : (i : ℕ) → 0 < listed i pool.available + listed i held → i < length pool.shields

-- At most one shield is neither available nor held.
abbrev pub LosesOne : {S : Type 0} → ShieldPool S → List ℕ → Type 0
LosesOne pool held = IsFull pool held ⊎ (i : ℕ) × IsFull pool (i ∷ held)

-- The answer of `defend`: a handle more, or at most one shield lost.
abbrev pub Answered : {S : Type 0} → Defended → ShieldPool S → List ℕ → Type 0
Answered (handle i) pool held = IsFull pool (i ∷ held)
Answered ejected pool held = LosesOne pool held
Answered undefined pool held = ⊥

pub IsFull-swap :
    {S : Type 0} (pool : ShieldPool S) (i j : ℕ) (held : List ℕ)
    → IsFull pool (i ∷ j ∷ held)
    → IsFull pool (j ∷ i ∷ held)
IsFull-swap pool i j held f = record {
  exact = λ k low. omega (arith, f.exact k low);
  within = λ k pos. f.within k (omega arith);
}

module _ (api : ShieldApi) where
  open api use {Guard, Shield, defend_shield, release_shield}

  grow-Answered :
      (pool : ShieldPool Shield) (held : List ℕ) (made : Option Shield)
      → IsFull pool held
      → Answered (grow api pool made).1 (grow api pool made).0 held
  unfolding grow
  grow-Answered pool held none f = inl f
  grow-Answered pool held (some shield) f =
      let longer = length-append pool.shields (shield ∷ []) in
      record {
        exact = λ i low. elim (eq_or_ne i (length pool.shields)) [
          | inl e ↦ elim (zero_or_pos (listed i pool.available + listed i held)) [
            | inl out ↦ rw (← e) (omega (arith, hit_self i))
            | inr inside ↦ absurd (omega (arith, f.within i))
          ]
          | inr n ↦ omega (arith, f.exact i, hit_ne i (length pool.shields) n)
        ];
        within = λ i pos. elim (eq_or_ne i (length pool.shields)) [
          | inl e ↦ omega arith
          | inr n ↦ omega (arith, f.within i, hit_ne i (length pool.shields) n)
        ];
      }

  -- The index on top of the stack counts as held, be it handed out or lost.
  popped :
      (pool : ShieldPool Shield) (held : List ℕ) (index : ℕ) (rest : List ℕ) (shield : Shield)
      → pool.available ≡ index ∷ rest
      → IsFull pool held
      → IsFull (pool_of (set pool.shields index shield) rest) (index ∷ held)
  popped pool held index rest shield e f =
      let same = length-set pool.shields index shield in
      record {
        exact = λ i low. omega (arith, f.exact i, ap (listed i) e);
        within = λ i pos. omega (arith, f.within i, ap (listed i) e);
      }

  reuse-Answered :
      (pool : ShieldPool Shield) (held : List ℕ) (index : ℕ) (rest : List ℕ)
      (answer : Shield × Bool)
      → pool.available ≡ index ∷ rest
      → IsFull pool held
      → Answered (reuse api pool index rest answer).1 (reuse api pool index rest answer).0 held
  unfolding reuse
  reuse-Answered pool held index rest (shield, true) e f = popped pool held index rest shield e f
  reuse-Answered pool held index rest (shield, false) e f =
      inr (index, popped pool held index rest shield e f)

  defend_on :
      (shields : List Shield) (available held : List ℕ) (ptr : Shared) (guard : Guard)
      → IsFull (pool_of shields available) held
      → Answered
          (defend api (pool_of shields available) ptr guard).1
          (defend api (pool_of shields available) ptr guard).0
          held
  unfolding defend
  defend_on shields [] held ptr guard f =
      grow-Answered (pool_of shields []) held (api.new_shield ptr guard) f
  defend_on shields (index ∷ rest) held ptr guard f =
      let (shield, found) =
        get_elem?-some shields index (f.within index (omega (arith, hit_self index))) in
      rw found (
        reuse-Answered (pool_of shields (index ∷ rest)) held index rest
          (defend_shield shield ptr guard) refl f)

  pub defend-Answered :
      (pool : ShieldPool Shield) (held : List ℕ) (ptr : Shared) (guard : Guard)
      → IsFull pool held
      → Answered (defend api pool ptr guard).1 (defend api pool ptr guard).0 held
  defend-Answered pool held ptr guard f = defend_on pool.shields pool.available held ptr guard f

  pub drop_handle-IsFull :
      (pool : ShieldPool Shield) (i : ℕ) (held : List ℕ)
      → IsFull pool (i ∷ held)
      → (after : ShieldPool Shield) × (drop_handle api pool i ≡ some after) × IsFull after held
  unfolding drop_handle
  drop_handle-IsFull pool i held f =
      let (shield, found) =
        get_elem?-some pool.shields i (f.within i (omega (arith, hit_self i))) in
      let same = length-set pool.shields i (release_shield shield) in
      (
        record {
          shields = set pool.shields i (release_shield shield);
          available = i ∷ pool.available;
        },
        rw (found, drop_handle) refl,
        record {
          exact = λ j low. omega (arith, f.exact j);
          within = λ j pos. omega (arith, f.within j);
        },
      )
