-- ===== src/Pebr/ShieldPool/Handles.antt =====
-- No shield of pebr/shield_pool.rs is handed out twice at a time.
use pebr_benchmark.Base.{
  get_elem?-set, get_elem?-set_ne, ◌≢◌, ℕ, ◌+◌, ◌≤◌, ◌<◌, ◌≡◌, refl, ap, Bool, true, false, inl,
  inr, Option, none, some, List, [], ◌∷◌, arith, length, length-set, length-append, get_elem?,
  get_elem?-some, set, zero_or_pos, eq_or_ne,
}
use pebr_benchmark.Shared.{Shared, hit, hit_self, hit_ne}
use pebr_benchmark.Pebr.ShieldPool.{
  ShieldApi, ShieldPool, Defended, handle, ejected, undefined, reuse, grow, defend, drop_handle,
}

-- How often an index is listed.
abbrev pub listed : ℕ → List ℕ → ℕ
listed i [] = 0
listed i (j ∷ js) = hit i j + listed i js

-- `held` are the indices of the live handles: those and the available ones are different shields
-- of the pool.
pub record IsValid {S : Type 0} (pool : ShieldPool S) (held : List ℕ) : Type 0 where
  pub once : (i : ℕ) → listed i pool.available + listed i held ≤ 1
  pub within : (i : ℕ) → 0 < listed i pool.available + listed i held → i < length pool.shields

abbrev pub held_after : Defended → List ℕ → List ℕ
held_after (handle i) held = i ∷ held
held_after _ held = held

abbrev pub pool_of : {S : Type 0} → List S → List ℕ → ShieldPool S
pool_of shields available = record { shields = shields; available = available }

module _ (api : ShieldApi) where
  open api use {Guard, Shield, defend_shield, release_shield}

  grow-IsValid :
      (pool : ShieldPool Shield) (held : List ℕ) (made : Option Shield)
      → IsValid pool held
      → IsValid (grow api pool made).0 (held_after (grow api pool made).1 held)
  unfolding grow
  grow-IsValid pool held none v = v
  grow-IsValid pool held (some shield) v =
      let longer = length-append pool.shields (shield ∷ []) in
      record {
        once = λ i. elim (eq_or_ne i (length pool.shields)) [
          | inl e ↦ elim (zero_or_pos (listed i pool.available + listed i held)) [
            | inl out ↦ rw (← e) (omega (arith, hit_self i))
            | inr inside ↦ absurd (omega (arith, v.within i))
          ]
          | inr n ↦ omega (arith, v.once i, hit_ne i (length pool.shields) n)
        ];
        within = λ i pos. elim (eq_or_ne i (length pool.shields)) [
          | inl e ↦ omega arith
          | inr n ↦ omega (arith, v.within i, hit_ne i (length pool.shields) n)
        ];
      }

  reuse-IsValid :
      (pool : ShieldPool Shield) (held : List ℕ) (index : ℕ) (rest : List ℕ)
      (answer : Shield × Bool)
      → pool.available ≡ index ∷ rest
      → IsValid pool held
      → IsValid
          (reuse api pool index rest answer).0
          (held_after (reuse api pool index rest answer).1 held)
  unfolding reuse
  reuse-IsValid pool held index rest (shield, true) e v = record {
    once = λ i. omega (arith, v.once i, ap (listed i) e);
    within =
        λ i pos. omega (arith, v.within i, ap (listed i) e, length-set pool.shields index shield);
  }
  reuse-IsValid pool held index rest (shield, false) e v = record {
    once = λ i. omega (arith, v.once i, ap (listed i) e);
    within =
        λ i pos. omega (arith, v.within i, ap (listed i) e, length-set pool.shields index shield);
  }

  grow-defined :
      (pool : ShieldPool Shield) (made : Option Shield) → (grow api pool made).1 ≢ undefined
  unfolding grow
  grow-defined pool none = grind arith
  grow-defined pool (some shield) = grind arith

  reuse-defined :
      (pool : ShieldPool Shield) (index : ℕ) (rest : List ℕ) (answer : Shield × Bool)
      → (reuse api pool index rest answer).1 ≢ undefined
  unfolding reuse
  reuse-defined pool index rest (shield, true) = grind arith
  reuse-defined pool index rest (shield, false) = grind arith

  defend_by :
      (shields : List Shield) (available held : List ℕ) (ptr : Shared) (guard : Guard)
      → IsValid (pool_of shields available) held
      → IsValid
          (defend api (pool_of shields available) ptr guard).0
          (held_after (defend api (pool_of shields available) ptr guard).1 held)
        × ((defend api (pool_of shields available) ptr guard).1 ≢ undefined)
  unfolding defend
  defend_by shields [] held ptr guard v =
      let pool = pool_of shields [] in
      let made = api.new_shield ptr guard in (grow-IsValid pool held made v, grow-defined pool made)
  defend_by shields (index ∷ rest) held ptr guard v =
      let pool = pool_of shields (index ∷ rest) in
      let (shield, found) =
        get_elem?-some shields index (v.within index (omega (arith, hit_self index))) in
      let answer = defend_shield shield ptr guard in
      rw found
        (reuse-IsValid pool held index rest answer refl v, reuse-defined pool index rest answer)

  -- If the available and the held indices are different shields of the pool, then, whatever the
  -- shields answer, `defend` does not index out of bounds, and they are so again with the handle
  -- that it makes, if it makes one.
  pub defend-IsValid :
      (pool : ShieldPool Shield) (held : List ℕ) (ptr : Shared) (guard : Guard)
      → IsValid pool held
      → IsValid (defend api pool ptr guard).0 (held_after (defend api pool ptr guard).1 held)
        × ((defend api pool ptr guard).1 ≢ undefined)
  defend-IsValid pool held ptr guard v = defend_by pool.shields pool.available held ptr guard v

  -- If the available and the held indices are different shields of the pool, dropping a held one
  -- finds its shield and releases it, changes no other shield, and makes its index available: so the
  -- available indices and those still held are different shields again, and every index is listed
  -- as often as before.
  pub drop_handle-IsValid :
      (pool : ShieldPool Shield) (i : ℕ) (held : List ℕ)
      → IsValid pool (i ∷ held)
      → (after : ShieldPool Shield) × (drop_handle api pool i ≡ some after)
        × IsValid after held
        × (listed i after.available ≡ 1)
        × ((j : ℕ)
            → listed j after.available + listed j held
              ≡ listed j pool.available + listed j (i ∷ held))
        × ((shield : Shield) × (get_elem? pool.shields i ≡ some shield)
            × (get_elem? after.shields i ≡ some (release_shield shield)))
        × ((j : ℕ) → j ≢ i → get_elem? after.shields j ≡ get_elem? pool.shields j)
  unfolding drop_handle
  drop_handle-IsValid pool i held v =
      let (shield, found) =
        get_elem?-some pool.shields i (v.within i (omega (arith, hit_self i))) in
      (
        record {
          shields = set pool.shields i (release_shield shield);
          available = i ∷ pool.available;
        },
        rw (found, drop_handle) refl,
        record {
          once = λ j. omega (arith, v.once j);
          within =
              λ j pos. omega (arith, v.within j, length-set pool.shields i (release_shield shield));
        },
        omega (arith, v.once i, hit_self i),
        (λ j. omega arith),
        (shield, found, get_elem?-set pool.shields i shield (release_shield shield) found),
        (λ j ne. get_elem?-set_ne pool.shields i j (release_shield shield) ne),
      )

  -- If the available and the held indices are different shields of the pool, and the shield on top
  -- of the stack refuses the pointer, `defend` fails, and the index of that shield is neither
  -- available nor held any more, though the shield is still in the pool.
  pub defend-leaks :
      (shields : List Shield) (index : ℕ) (rest held : List ℕ) (ptr : Shared) (guard : Guard)
      (shield refused : Shield)
      → get_elem? shields index ≡ some shield
      → defend_shield shield ptr guard ≡ (refused, false)
      → IsValid (pool_of shields (index ∷ rest)) held
      → let after = (defend api (pool_of shields (index ∷ rest)) ptr guard).0 in
        ((defend api (pool_of shields (index ∷ rest)) ptr guard).1 ≡ ejected)
        × (listed index after.available + listed index held ≡ 0)
        × (index < length after.shields)
  unfolding defend reuse
  defend-leaks shields index rest held ptr guard shield refused found e v =
      rw (found, e)
        (
          refl,
          omega (arith, v.once index, hit_self index),
          omega (arith, v.within index, hit_self index, length-set shields index refused),
        )
