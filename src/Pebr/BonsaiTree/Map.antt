-- ===== src/Pebr/BonsaiTree/Map.antt =====
-- pebr/bonsai_tree.rs: the map's operations, which retry until the root is swung. A thread that was
-- ejected repins its guard and starts again.
use pebr_benchmark.Base.{
  ℕ, zero, suc, Bool, not, Option, none, List, [], ◌∷◌, is_empty, if◌then◌else◌,
}
use pebr_benchmark.Ord.{Ord}
use pebr_benchmark.Shared.{Shared, null, is_null}
use pebr_benchmark.World.{Cmd, pure, crash, stop, ◌>>=◌, ◌>>◌}
use pebr_benchmark.Pebr.ShieldPool.{ShieldApi}
use pebr_benchmark.Pebr.BonsaiTree.Node.{
  Heap, load_left, load_right, free, load_root, cas_root, is_retired,
}
use pebr_benchmark.Pebr.BonsaiTree.State.{State, C, new_state, abort, commit}
use pebr_benchmark.Pebr.BonsaiTree.Shields.{on_result, release_root, repin}
use pebr_benchmark.Pebr.BonsaiTree.Attempt.{get_inner, try_insert, try_remove}

-- `BonsaiTreeMap::new`
abbrev pub new : {K V : Type 0} → Heap K V
new = record { root = null; cells = λ _. none; fresh = 1; deferred = [] }

module _ (api : ShieldApi) where
  abbrev pub new_handle : api.Guard → State api.Shield
  new_handle guard = new_state api guard

module _ (api : ShieldApi) {K V : Type 0} where
  -- The assertions are the `debug_assert!`s.
  unfoldable pub clear : C api K V (Unit {0})
  clear w =
      (do
        release_root api
        if not (is_empty w.own.state.retired_nodes)
            then crash
            else if not (is_empty w.own.state.new_nodes)
            then crash
            else pure tt)
        w

module _ (api : ShieldApi) {K V : Type 0} ⦃o : Ord K⦄ where
  -- `rounds` bounds the retries, `depth` the descents.
  unfoldable pub get : (rounds depth : ℕ) → K → C api K V (Option V)
  get zero depth key = stop
  get (suc rounds) depth key = do
    result ← get_inner api (suc rounds) depth key
    on_result result pure (do release_root api; repin api; get rounds depth key)

  unfoldable pub insert : (rounds depth : ℕ) → K → V → C api K V Bool
  insert zero depth key value = stop
  insert (suc rounds) depth key value = do
    old_root ← load_root
    result ← try_insert api depth old_root key value
    on_result result
        (λ (new_root, inserted).
          if is_retired new_root then (do abort api; insert rounds depth key value) else do
            swung ← cas_root old_root new_root
            if swung
                then (do commit api; pure inserted)
                else (do abort api; insert rounds depth key value))
        (do abort api; repin api; insert rounds depth key value)

  unfoldable pub remove : (rounds depth : ℕ) → K → C api K V (Option V)
  remove zero depth key = stop
  remove (suc rounds) depth key = do
    old_root ← load_root
    result ← try_remove api depth old_root key
    on_result result
        (λ (new_root, value).
          if is_retired new_root then (do abort api; remove rounds depth key) else do
            swung ← cas_root old_root new_root
            if swung then (do commit api; pure value) else (do abort api; remove rounds depth key))
        (do abort api; repin api; remove rounds depth key)

module _ {K V S : Type 0} where
  -- `Drop`: the stack of subtrees still to be freed, its top first.
  unfoldable pub drop_loop : ℕ → List Shared → Cmd (Heap K V) S (Unit {0})
  drop_loop zero stack = stop
  drop_loop (suc fuel) [] = pure tt
  drop_loop (suc fuel) (node ∷ stack) = if is_null node then drop_loop fuel stack else do
    left ← load_left node
    right ← load_right node
    free node
    drop_loop fuel (right ∷ left ∷ stack)

  unfoldable pub drop : ℕ → Cmd (Heap K V) S (Unit {0})
  unfolding drop_loop
  drop fuel = do root ← load_root; drop_loop fuel (root ∷ [])
