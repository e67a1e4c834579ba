-- ===== src/Pebr/NmTree/Seek.antt =====
-- pebr/natarajan_mittal_tree.rs: the walk to a key's leaf.
use pebr_benchmark.Base.{ℕ, zero, suc, Bool, if◌then◌else◌}
use pebr_benchmark.Ord.{Ord}
use pebr_benchmark.Shared.{Shared, is_null}
use pebr_benchmark.World.{stop}
use pebr_benchmark.Ebr.NmTree.Node.{is_tagged, key_cmp, Direction, to_left, deref, load}
use pebr_benchmark.Ebr.NmTree.Seek.{unmarked, side}
use pebr_benchmark.Pebr.ShieldPool.{ShieldApi}
use pebr_benchmark.Pebr.Result.{give, lift, ◌>>=◌, ◌>>◌}
use pebr_benchmark.Pebr.NmTree.Record.{
  E, modify_record, defend_ancestor, defend_successor, defend_leaf, get_pointers,
}

module _ (api : ShieldApi) {K V : Type 0} where
  open api use {fake_shield}

  -- `if !prev_tag`: the ancestor and the successor advance.
  unfoldable pub advance_ancestor : Bool → E api K V (Unit {0})
  advance_ancestor prev_tag = if prev_tag then give tt else do
    rec ← lift (get_pointers api)
    defend_ancestor api rec.parent
    rec ← lift (get_pointers api)
    defend_successor api rec.leaf
    lift (modify_record api λ rec. record rec { successor_dir = rec.leaf_dir })

  -- The parent and the leaf advance.
  unfoldable pub advance_leaf : Shared → Direction → E api K V (Unit {0})
  advance_leaf curr curr_dir = do
    lift (modify_record api λ rec. record rec { parent = rec.leaf; leaf = rec.parent })
    defend_leaf api (unmarked curr)
    lift (modify_record api λ rec. record rec { leaf_dir = curr_dir })

module _ (api : ShieldApi) {K V : Type 0} ⦃o : Ord K⦄ where
  open api use {fake_shield}

  unfoldable pub seek_loop : ℕ → K → Bool → Shared → Direction → E api K V (Unit {0})
  unfolding advance_ancestor advance_leaf
  seek_loop zero key prev_tag curr curr_dir = stop
  seek_loop (suc fuel) key prev_tag curr curr_dir = if is_null curr then give tt else do
    advance_ancestor api prev_tag
    advance_leaf api curr curr_dir
    rec ← lift (get_pointers api)
    curr_node ← lift (deref rec.leaf)
    let dir = side (key_cmp curr_node.key key)
    next ← lift (load rec.leaf dir)
    seek_loop fuel key (is_tagged curr.tag) next dir

  -- `r` is the address of the map's field of that name.
  unfoldable pub seek : ℕ → Shared → K → E api K V (Unit {0})
  unfolding seek_loop
  seek fuel r key = do
    s ← lift (load r to_left)
    lift (
        modify_record api λ rec. record rec {
          ancestor = fake_shield rec.ancestor r;
          successor = fake_shield rec.successor s;
          successor_dir = to_left;
        })
    marked ← lift (load s to_left)
    let leaf = unmarked marked
    lift (modify_record api λ rec. record rec { parent = fake_shield rec.parent s })
    defend_leaf api leaf
    lift (modify_record api λ rec. record rec { leaf_dir = to_left })
    rec ← lift (get_pointers api)
    curr ← lift (load rec.leaf to_left)
    seek_loop fuel key (is_tagged leaf.tag) curr to_left
