-- ===== src/Ebr/BonsaiTree/Map.antt =====
-- ebr/bonsai_tree.rs: the map's operations, which retry until the root is swung.
use Prim.Native.Nat.Ordering.{lt, eq, gt}
use pebr_benchmark.Base.{ℕ, zero, suc, Bool, Option, none, some, List, [], ◌∷◌, ◌||◌, if◌then◌else◌}
use pebr_benchmark.Ord.{Ord}
use pebr_benchmark.Shared.{Shared, null, is_null}
use pebr_benchmark.World.{pure, stop, ◌>>=◌, ◌>>◌}
use pebr_benchmark.Ebr.BonsaiTree.Node.{
  Heap, C, deref, load_left, load_right, free, load_root, cas_root, is_retired, is_retired_spot,
}
use pebr_benchmark.Ebr.BonsaiTree.State.{abort, commit}
use pebr_benchmark.Ebr.BonsaiTree.Edit.{do_insert, do_remove}

-- `BonsaiTreeMap::new`
abbrev pub new : {K V : Type 0} → Heap K V
new = record { root = null; cells = λ _. none; fresh = 1; deferred = [] }

module _ {K V : Type 0} ⦃o : Ord K⦄ where
  -- The inner loop of `get`: the node where the walk ends.
  unfoldable pub walk : ℕ → Shared → K → C K V Shared
  walk zero node key = stop
  walk (suc fuel) node key = if is_null node || is_retired node then pure node else do
    node_ref ← deref node
    elim (o.cmp key node_ref.key) [
      | eq ↦ pure node
      | lt ↦ do next ← load_left node; walk fuel next key
      | gt ↦ do next ← load_right node; walk fuel next key
    ]

  -- `rounds` bounds the retries, `depth` the descents.
  unfoldable pub get : (rounds depth : ℕ) → K → C K V (Option V)
  unfolding walk
  get zero depth key = stop
  get (suc rounds) depth key = do
    root ← load_root
    node ← walk depth root key
    spot ← is_retired_spot node
    if spot
        then get rounds depth key
        else if is_null node
        then pure none
        else do node_ref ← deref node; pure (some node_ref.value)

  unfoldable pub insert : (rounds depth : ℕ) → K → V → C K V Bool
  insert zero depth key value = stop
  insert (suc rounds) depth key value = do
    old_root ← load_root
    (new_root, inserted) ← do_insert depth old_root key value
    if is_retired new_root then (do abort; insert rounds depth key value) else do
      swung ← cas_root old_root new_root
      if swung then (do commit; pure inserted) else (do abort; insert rounds depth key value)

  unfoldable pub remove : (rounds depth : ℕ) → K → C K V (Option V)
  remove zero depth key = stop
  remove (suc rounds) depth key = do
    old_root ← load_root
    (new_root, value) ← do_remove depth old_root key
    if is_retired new_root then (do abort; remove rounds depth key) else do
      swung ← cas_root old_root new_root
      if swung then (do commit; pure value) else (do abort; remove rounds depth key)

module _ {K V : Type 0} where
  -- `Drop`: the stack of subtrees still to be freed, its top first.
  unfoldable pub drop_loop : ℕ → List Shared → C K V (Unit {0})
  drop_loop zero stack = stop
  drop_loop (suc fuel) [] = pure tt
  drop_loop (suc fuel) (node ∷ stack) = if is_null node then drop_loop fuel stack else do
    left ← load_left node
    right ← load_right node
    free node
    drop_loop fuel (right ∷ left ∷ stack)

  unfoldable pub drop : ℕ → C K V (Unit {0})
  unfolding drop_loop
  drop fuel = do root ← load_root; drop_loop fuel (root ∷ [])
