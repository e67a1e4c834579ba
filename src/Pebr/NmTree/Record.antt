-- ===== src/Pebr/NmTree/Record.antt =====
-- pebr/natarajan_mittal_tree.rs: the four shields of a walk. Keys, marks, nodes and the map itself
-- are declared as in ebr/natarajan_mittal_tree.rs, and taken from its model.
use pebr_benchmark.Base.{if◌then◌else◌}
use pebr_benchmark.Shared.{Shared}
use pebr_benchmark.World.{Cmd, ok, modify_own}
use pebr_benchmark.Ebr.NmTree.Node.{Direction, to_left, Heap}
use pebr_benchmark.Ebr.NmTree.Seek
use pebr_benchmark.Pebr.ShieldPool.{ShieldApi}
use pebr_benchmark.Pebr.Result.{Result, done, err}

pub record SeekRecord (Shield : Type 0) : Type 0 where
  pub ancestor : Shield
  pub successor : Shield
  pub successor_dir : Direction
  pub parent : Shield
  pub leaf : Shield
  pub leaf_dir : Direction

-- What a thread passes to an operation: its seek record and its guard.
pub record Local (Shield Guard : Type 0) : Type 0 where
  pub rec : SeekRecord Shield
  pub guard : Guard

abbrev pub C : ShieldApi → Type 0 → Type 0 → Type 0 → Type 0
C api K V A = Cmd (Heap K V) (Local api.Shield api.Guard) A

abbrev pub E : ShieldApi → Type 0 → Type 0 → Type 0 → Type 0
E api K V A = C api K V (Result A)

module _ (api : ShieldApi) where
  open api use {Shield, Guard, null_shield, release_shield, defend_shield, deref_shield, elapse}

  unfoldable pub new_record : Guard → SeekRecord Shield
  new_record guard = record {
    ancestor = null_shield guard;
    successor = null_shield guard;
    successor_dir = to_left;
    parent = null_shield guard;
    leaf = null_shield guard;
    leaf_dir = to_left;
  }

  -- What the shields hold.
  abbrev pub pointers : SeekRecord Shield → Seek.SeekRecord
  pointers rec = record {
    ancestor = deref_shield rec.ancestor;
    successor = deref_shield rec.successor;
    successor_dir = rec.successor_dir;
    parent = deref_shield rec.parent;
    leaf = deref_shield rec.leaf;
    leaf_dir = rec.leaf_dir;
  }

  module _ {K V : Type 0} where
    abbrev pub modify_record : (SeekRecord Shield → SeekRecord Shield) → C api K V (Unit {0})
    modify_record f = modify_own λ l. record l { rec = f l.rec }

    unfoldable pub release : C api K V (Unit {0})
    release = modify_record λ rec. record rec {
      ancestor = release_shield rec.ancestor;
      successor = release_shield rec.successor;
      parent = release_shield rec.parent;
      leaf = release_shield rec.leaf;
    }

    -- `shield.defend(ptr, guard)` of the shield that `get` reads and `put` writes.
    unfoldable pub defend :
        (get : SeekRecord Shield → Shield)
        → (put : Shield → SeekRecord Shield → SeekRecord Shield) → Shared
        → E api K V (Unit {0})
    defend get put ptr w =
        let local = w.own in
        let (shield, defended) = defend_shield (get local.rec) ptr local.guard in
        ok (if defended then done tt else err)
          (record w { own = record { rec = put shield local.rec; guard = elapse local.guard } })

    unfoldable pub defend_ancestor : Shared → E api K V (Unit {0})
    unfolding defend
    defend_ancestor = defend (λ rec. rec.ancestor) (λ s rec. record rec { ancestor = s })

    unfoldable pub defend_successor : Shared → E api K V (Unit {0})
    unfolding defend
    defend_successor = defend (λ rec. rec.successor) (λ s rec. record rec { successor = s })

    unfoldable pub defend_leaf : Shared → E api K V (Unit {0})
    unfolding defend
    defend_leaf = defend (λ rec. rec.leaf) (λ s rec. record rec { leaf = s })

    unfoldable pub get_pointers : C api K V Seek.SeekRecord
    get_pointers w = ok (pointers w.own.rec) w

    unfoldable pub repin : C api K V (Unit {0})
    repin = modify_own λ l. record l { guard = api.repin l.guard }
