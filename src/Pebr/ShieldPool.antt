-- ===== src/Pebr/ShieldPool.antt =====
-- pebr/shield_pool.rs: a thread's pool of shields, handed out by index.
pub mod Handles
pub mod Full
pub mod Tests
use pebr_benchmark.Base.{
  ℕ, zero, suc, Bool, true, false, Option, none, some, List, [], ◌∷◌, ◌++◌, length, get_elem?, set,
}
use pebr_benchmark.Shared.{Shared}

-- What crossbeam_pebr provides. A call fails (`none`, `false`) if the guard's thread was ejected.
pub record ShieldApi : Type 1 where
  pub Guard : Type 0
  pub Shield : Type 0
  pub new_shield : Shared → Guard → Option Shield
  pub defend_shield : Shield → Shared → Guard → Shield × Bool
  pub release_shield : Shield → Shield
  pub null_shield : Guard → Shield
  -- `defend_fake`: the shield holds the pointer, and does not protect it.
  pub fake_shield : Shield → Shared → Shield
  -- The pointer that a shield holds.
  pub deref_shield : Shield → Shared
  pub repin : Guard → Guard
  -- What the other threads do to the guard (they may eject its thread) between two calls.
  pub elapse : Guard → Guard

-- `available` is a stack: the end of the vector comes first.
pub record ShieldPool (S : Type 0) : Type 0 where
  pub shields : List S
  pub available : List ℕ

-- `Ok` of a handle's index, `Err(Ejected)`, or undefined behaviour: an index out of bounds.
pub data Defended : Type 0 where
  handle : ℕ → Defended
  ejected : Defended
  undefined : Defended

abbrev pub new_pool : {S : Type 0} → ShieldPool S
new_pool = record { shields = []; available = [] }

module _ (api : ShieldApi) where
  open api use {Guard, Shield, new_shield, defend_shield, release_shield}

  -- The answer of the shield `index` to `defend`, after it was taken off the stack.
  unfoldable pub reuse :
      ShieldPool Shield → ℕ → List ℕ → Shield × Bool → ShieldPool Shield × Defended
  reuse pool index rest (shield, true) =
      (record { shields = set pool.shields index shield; available = rest }, handle index)
  reuse pool index rest (shield, false) =
      (record { shields = set pool.shields index shield; available = rest }, ejected)

  unfoldable pub grow : ShieldPool Shield → Option Shield → ShieldPool Shield × Defended
  grow pool none = (pool, ejected)
  grow pool (some shield) =
      (record pool { shields = pool.shields ++ shield ∷ [] }, handle (length pool.shields))

  unfoldable pub defend : ShieldPool Shield → Shared → Guard → ShieldPool Shield × Defended
  unfolding reuse grow
  defend pool ptr guard = elim (pool.available) [
    | [] ↦ grow pool (new_shield ptr guard)
    | index ∷ rest ↦ elim (get_elem? pool.shields index) [
      | none ↦ (pool, undefined)
      | some shield ↦ reuse pool index rest (defend_shield shield ptr guard)
    ]
  ]

  -- `Drop` of a handle; `none` is an index out of bounds.
  unfoldable pub drop_handle : ShieldPool Shield → ℕ → Option (ShieldPool Shield)
  drop_handle pool index = elim (get_elem? pool.shields index) [
    | none ↦ none
    | some shield ↦ some (record {
      shields = set pool.shields index (release_shield shield);
      available = index ∷ pool.available;
    })
  ]

  -- `Deref` of a handle.
  unfoldable pub deref_handle : ShieldPool Shield → ℕ → Option Shield
  deref_handle pool index = get_elem? pool.shields index
