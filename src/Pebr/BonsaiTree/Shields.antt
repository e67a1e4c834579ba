-- ===== src/Pebr/BonsaiTree/Shields.antt =====
-- pebr/bonsai_tree.rs: results that may be `Err(ShieldError::Ejected)`, and the shields' scopes.
use pebr_benchmark.Base.{ℕ, none, some, if◌then◌else◌}
use pebr_benchmark.Shared.{Shared}
use pebr_benchmark.World.{and_then, pure, crash, ok, fault, modify_own}
use pebr_benchmark.Pebr.ShieldPool.{
  ShieldApi, Defended, handle, ejected, undefined, defend, drop_handle,
}
pub use pebr_benchmark.Pebr.Result.{Result, done, err, give, lift, ◌>>=◌, ◌>>◌, ◌afterwards◌}
unfoldable pub use pebr_benchmark.Pebr.Result.{on_result}
use pebr_benchmark.Pebr.BonsaiTree.State.{C, modify_state}

abbrev pub E : ShieldApi → Type 0 → Type 0 → Type 0 → Type 0
E api K V A = C api K V (Result A)

module _ (api : ShieldApi) {K V : Type 0} where
  open api use {Shield, Guard, defend_shield, release_shield, elapse}

  -- `self.shields.defend(ptr, guard)`
  unfoldable pub defend_ptr : Shared → C api K V Defended
  defend_ptr ptr w =
      let local = w.own in
      let (pool, defended) = defend api local.state.shields ptr local.guard in
      ok defended (record w {
        own = record { state = record local.state { shields = pool }; guard = elapse local.guard };
      })

  -- The end of a handle's scope.
  unfoldable pub release_ptr : ℕ → C api K V (Unit {0})
  release_ptr index w =
      let local = w.own in
      elim (drop_handle api local.state.shields index) [
        | none ↦ fault
        | some pool ↦
            ok tt
              (record w { own = record local { state = record local.state { shields = pool } } })
      ]

  -- `let _shield = self.shields.defend(ptr, guard)?;`, in whose scope `body` runs to its end.
  unfoldable pub shielded : {A : Type 0} → Shared → E api K V A → E api K V A
  unfolding defend_ptr release_ptr
  shielded ptr body w = and_then (defend_ptr ptr w) λ defended. elim defended [
    | handle index ↦ body afterwards release_ptr index
    | ejected ↦ pure err
    | undefined ↦ crash
  ]

  -- `root_shield.defend(ptr, guard)`
  unfoldable pub defend_root : Shared → E api K V (Unit {0})
  defend_root ptr w =
      let local = w.own in
      let (shield, defended) = defend_shield local.state.root_shield ptr local.guard in
      ok (if defended then done tt else err) (record w {
        own = record {
          state = record local.state { root_shield = shield };
          guard = elapse local.guard;
        };
      })

  unfoldable pub release_root : C api K V (Unit {0})
  release_root = modify_state api λ s. record s { root_shield = release_shield s.root_shield }

  unfoldable pub repin : C api K V (Unit {0})
  repin = modify_own λ l. record l { guard = api.repin l.guard }
