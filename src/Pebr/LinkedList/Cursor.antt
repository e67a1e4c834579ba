-- ===== src/Pebr/LinkedList/Cursor.antt =====
-- pebr/list.rs: the cursor's shields, and results that may ask for a retry.
use pebr_benchmark.Base.{if◌then◌else◌}
use pebr_benchmark.Shared.{Shared}
use pebr_benchmark.World.{Cmd, and_then, pure, ok, modify_own}
use pebr_benchmark.Pebr.ShieldPool.{ShieldApi}
use pebr_benchmark.Pebr.LinkedList.Heap.{Heap}

pub record Cursor (Shield : Type 0) : Type 0 where
  pub prev : Shield
  pub curr : Shield

-- What a thread passes to an operation: its cursor and its guard.
pub record Local (Shield Guard : Type 0) : Type 0 where
  pub cursor : Cursor Shield
  pub guard : Guard

abbrev pub C : ShieldApi → Type 0 → Type 0 → Type 0 → Type 0
C api K V A = Cmd (Heap K V) (Local api.Shield api.Guard) A

-- `Result<A, FindError>`: `retry` is `FindError::Retry`, `ejected` is
-- `FindError::ShieldError(ShieldError::Ejected)`.
pub data Outcome (A : Type 0) : Type 0 where
  done : A → Outcome A
  retry : Outcome A
  ejected : Outcome A

unfoldable pub on_outcome {ℓ} : {A : Type 0} {B : Type ℓ} → Outcome A → (A → B) → (r e : B) → B
on_outcome (done a) k r e = k a
on_outcome retry k r e = r
on_outcome ejected k r e = e

abbrev pub E : ShieldApi → Type 0 → Type 0 → Type 0 → Type 0
E api K V A = C api K V (Outcome A)

module _ {H S : Type 0} where
  abbrev pub give : {A : Type 0} → A → Cmd H S (Outcome A)
  give a = pure (done a)

  abbrev pub lift : {A : Type 0} → Cmd H S A → Cmd H S (Outcome A)
  lift m w = and_then (m w) λ a. pure (done a)

  -- `?`
  infixl 5 ◌>>=◌ ◌>>◌
  abbrev pub ◌>>=◌ :
      {A B : Type 0} → Cmd H S (Outcome A) → (A → Cmd H S (Outcome B)) → Cmd H S (Outcome B)
  ◌>>=◌ m k w =
      and_then (m w) λ r. elim r [ done a ↦ k a | retry ↦ pure retry | ejected ↦ pure ejected ]

  abbrev pub ◌>>◌ :
      {B : Type 0} → Cmd H S (Outcome (Unit {0})) → Cmd H S (Outcome B) → Cmd H S (Outcome B)
  ◌>>◌ m k = m >>= λ _. k

module _ (api : ShieldApi) where
  open api use {Shield, Guard, null_shield, release_shield, fake_shield, defend_shield, elapse}

  -- `Cursor::new`
  unfoldable pub new_cursor : Guard → Cursor Shield
  new_cursor guard = record { prev = null_shield guard; curr = null_shield guard }

  module _ {K V : Type 0} where
    unfoldable pub release : C api K V (Unit {0})
    release = modify_own λ l. record l {
      cursor = record { prev = release_shield l.cursor.prev; curr = release_shield l.cursor.curr };
    }

    -- `prev.defend_fake(..)`: of the list's address.
    unfoldable pub init_find : Shared → C api K V (Unit {0})
    init_find list =
        modify_own
          λ l. record l { cursor = record l.cursor { prev = fake_shield l.cursor.prev list } }

    unfoldable pub fake_curr : Shared → C api K V (Unit {0})
    fake_curr p =
        modify_own λ l. record l { cursor = record l.cursor { curr = fake_shield l.cursor.curr p } }

    -- `curr.defend(p, guard)`
    unfoldable pub defend_curr : Shared → E api K V (Unit {0})
    defend_curr p w =
        let local = w.own in
        let (shield, defended) = defend_shield local.cursor.curr p local.guard in
        ok (if defended then done tt else ejected) (record w {
          own = record {
            cursor = record local.cursor { curr = shield };
            guard = elapse local.guard;
          };
        })

    -- `mem::swap(&mut prev, &mut curr)`
    unfoldable pub swap : C api K V (Unit {0})
    swap =
        modify_own λ l. record l { cursor = record { prev = l.cursor.curr; curr = l.cursor.prev } }

    -- `prev.shared()`, `curr.shared()`
    unfoldable pub prev_shared : C api K V Shared
    prev_shared w = ok (api.deref_shield w.own.cursor.prev) w

    unfoldable pub curr_shared : C api K V Shared
    curr_shared w = ok (api.deref_shield w.own.cursor.curr) w

    unfoldable pub repin : C api K V (Unit {0})
    repin = modify_own λ l. record l { guard = api.repin l.guard }
