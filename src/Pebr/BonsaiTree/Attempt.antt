-- ===== src/Pebr/BonsaiTree/Attempt.antt =====
-- pebr/bonsai_tree.rs: what the map's operations do until they succeed or the thread is ejected.
use pebr_benchmark.Base.{ℕ, zero, suc, Bool, Option, none, some, ◌||◌, if◌then◌else◌}
use pebr_benchmark.Ord.{Ord, by_order}
use pebr_benchmark.Shared.{Shared, is_null}
use pebr_benchmark.World.{stop}
use pebr_benchmark.Pebr.ShieldPool.{ShieldApi}
use pebr_benchmark.Pebr.BonsaiTree.Node.{
  Node, deref, load_left, load_right, load_root, is_retired, is_retired_spot,
}
use pebr_benchmark.Pebr.BonsaiTree.State.{C}
use pebr_benchmark.Pebr.BonsaiTree.Shields.{E, give, lift, ◌>>=◌, ◌>>◌, defend_root}
use pebr_benchmark.Pebr.BonsaiTree.Edit.{do_insert, do_remove}

module _ (api : ShieldApi) {K V : Type 0} where
  -- `shield.deref()`
  unfoldable pub deref_root : C api K V (Node K V)
  deref_root w = deref (api.deref_shield w.own.state.root_shield) w

module _ (api : ShieldApi) {K V : Type 0} ⦃o : Ord K⦄ where
  -- The inner loop of `get_inner`: the node where the walk ends.
  unfoldable pub walk : ℕ → Shared → K → E api K V Shared
  unfolding deref_root
  walk zero node key = stop
  walk (suc fuel) node key = if is_null node || is_retired node then give node else do
    defend_root api node
    node_ref ← lift (deref_root api)
    by_order (o.cmp key node_ref.key) (do next ← lift (load_left node); walk fuel next key)
        (give node) (do next ← lift (load_right node); walk fuel next key)

  -- `rounds` bounds the retries, `depth` the descents.
  unfoldable pub get_inner : (rounds depth : ℕ) → K → E api K V (Option V)
  unfolding walk deref_root
  get_inner zero depth key = stop
  get_inner (suc rounds) depth key = do
    root ← lift load_root
    node ← walk depth root key
    spot ← lift (is_retired_spot node)
    if spot
        then get_inner rounds depth key
        else if is_null node
        then give none
        else do node_ref ← lift (deref_root api); give (some node_ref.value)

  -- `root_shield.defend(old_root, guard).and_then(|_| state.do_insert(..))`
  unfoldable pub try_insert : ℕ → Shared → K → V → E api K V (Shared × Bool)
  try_insert depth old_root key value = do
    defend_root api old_root
    do_insert api depth old_root key value

  unfoldable pub try_remove : ℕ → Shared → K → E api K V (Shared × Option V)
  try_remove depth old_root key = do defend_root api old_root; do_remove api depth old_root key
