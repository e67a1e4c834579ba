-- ===== src/Pebr/NmTree/Map.antt =====
-- pebr/natarajan_mittal_tree.rs: the map's operations. `rounds` bounds the retries, `depth` the walk
-- to a leaf and what is destroyed with it. The parts that only read the record are those of
-- Ebr/NmTree, run on what the shields hold.
use pebr_benchmark.Base.{ℕ, zero, suc, Bool, true, false, not, Option, none, some, if◌then◌else◌}
use pebr_benchmark.Ord.{Ord, by_order}
use pebr_benchmark.Shared.{Shared, with_tag, ◌=ₚ◌}
use pebr_benchmark.World.{pure, crash, stop, ◌>>=◌, ◌>>◌}
use pebr_benchmark.Ebr.NmTree.Node.{
  marks, fin, inf, key_cmp, new_leaf, deref, compare_and_set, alloc, free,
}
use pebr_benchmark.Ebr.NmTree.Map
use pebr_benchmark.Ebr.NmTree.Map.{inject}
use pebr_benchmark.Pebr.ShieldPool.{ShieldApi}
use pebr_benchmark.Pebr.Result.{done, err, on_result}
use pebr_benchmark.Pebr.NmTree.Record.{C, E, get_pointers, repin}
use pebr_benchmark.Pebr.NmTree.Seek.{seek}

-- `Result<(), (V, Option<ShieldError>)>`: `refused` is `Err((value, None))`, the key is present;
-- `ejected` is `Err((value, Some(Ejected)))`.
pub data Insertion (V : Type 0) : Type 0 where
  inserted : Insertion V
  refused : V → Insertion V
  ejected : V → Insertion V

unfoldable pub on_insertion : {V B : Type 0} → Insertion V → (i : B) → (r e : V → B) → B
on_insertion inserted i r e = i
on_insertion (refused v) i r e = r v
on_insertion (ejected v) i r e = e v

module _ (api : ShieldApi) {K V : Type 0} where
  unfoldable pub cleanup : ℕ → C api K V Bool
  cleanup depth = do rec ← get_pointers api; Map.cleanup depth rec

  -- After a failed CAS on the edge to the leaf: the conflicting removal is helped.
  unfoldable pub help : ℕ → (leaf current : Shared) → C api K V (Unit {0})
  unfolding cleanup
  help depth leaf current =
      if with_tag current (marks false false) =ₚ leaf
      then (do _ ← cleanup depth; pure tt)
      else pure tt

  -- The value is taken back, and the two new nodes are freed.
  unfoldable pub take_back : (leaf_ptr internal_ptr : Shared) → C api K V V
  take_back leaf_ptr internal_ptr = do
    node ← deref leaf_ptr
    elim node.value [ none ↦ crash | some value ↦ do free leaf_ptr; free internal_ptr; pure value ]

module _ (api : ShieldApi) {K V : Type 0} ⦃o : Ord K⦄ where
  unfoldable pub get_inner : (depth : ℕ) → Shared → K → E api K V (Option V)
  unfolding seek
  get_inner depth r key = do
    result ← seek api depth r key
    on_result result
        (λ _. do
          rec ← get_pointers api
          leaf_node ← deref rec.leaf
          by_order (key_cmp leaf_node.key key) (pure (done none))
              (elim leaf_node.value [ none ↦ crash | some v ↦ pure (done (some v)) ])
              (pure (done none)))
        (pure err)

  unfoldable pub get : (rounds depth : ℕ) → Shared → K → C api K V (Option V)
  unfolding get_inner
  get zero depth r key = stop
  get (suc rounds) depth r key = do
    result ← get_inner depth r key
    on_result result pure (do repin api; get rounds depth r key)

  unfoldable pub insert_inner_loop :
      (rounds depth : ℕ) → (r leaf_ptr internal_ptr : Shared) → K → C api K V (Insertion V)
  unfolding seek help take_back
  insert_inner_loop zero depth r leaf_ptr internal_ptr key = stop
  insert_inner_loop (suc rounds) depth r leaf_ptr internal_ptr key = do
    result ← seek api depth r key
    on_result result
        (λ _. do
          rec ← get_pointers api
          leaf_node ← deref rec.leaf
          by_order (key_cmp leaf_node.key key)
              (do
                failed ← inject rec internal_ptr rec.leaf leaf_ptr
                elim failed [
                  | none ↦ pure inserted
                  | some current ↦ do
                    help api depth rec.leaf current
                    insert_inner_loop rounds depth r leaf_ptr internal_ptr key
                ])
              (do value ← take_back api leaf_ptr internal_ptr; pure (refused value))
              (do
                failed ← inject rec internal_ptr leaf_ptr rec.leaf
                elim failed [
                  | none ↦ pure inserted
                  | some current ↦ do
                    help api depth rec.leaf current
                    insert_inner_loop rounds depth r leaf_ptr internal_ptr key
                ]))
        (do value ← take_back api leaf_ptr internal_ptr; pure (ejected value))

  unfoldable pub insert_inner : (rounds depth : ℕ) → Shared → K → V → C api K V (Insertion V)
  unfolding insert_inner_loop
  insert_inner rounds depth r key value = do
    leaf_ptr ← alloc (new_leaf (fin key) (some value))
    internal_ptr ← alloc (new_leaf inf none)
    insert_inner_loop rounds depth r leaf_ptr internal_ptr key

  -- `none` is `Ok(())`; an entry that could not be inserted is given back.
  unfoldable pub insert : (rounds depth : ℕ) → Shared → K → V → C api K V (Option (K × V))
  unfolding insert_inner
  insert zero depth r key value = stop
  insert (suc rounds) depth r key value = do
    result ← insert_inner (suc rounds) depth r key value
    on_insertion result (pure none) (λ v. pure (some (key, v)))
        (λ v. do repin api; insert rounds depth r key v)

  -- The cleanup phase of `remove_inner`.
  unfoldable pub cleanup_phase : (rounds depth : ℕ) → Shared → K → Shared → V → E api K V (Option V)
  unfolding seek cleanup
  cleanup_phase zero depth r key leaf value = stop
  cleanup_phase (suc rounds) depth r key leaf value = do
    result ← seek api depth r key
    on_result result
        (λ _. do
          rec ← get_pointers api
          if not (rec.leaf =ₚ leaf) then pure (done (some value)) else do
            is_unlinked ← cleanup api depth
            if is_unlinked
                then pure (done (some value))
                else cleanup_phase rounds depth r key leaf value)
        (pure err)

  -- After the deletion flag is injected.
  unfoldable pub flagged : (rounds depth : ℕ) → Shared → K → Shared → V → E api K V (Option V)
  unfolding cleanup_phase
  flagged rounds depth r key leaf value = do
    is_unlinked ← cleanup api depth
    if is_unlinked then pure (done (some value)) else cleanup_phase rounds depth r key leaf value

  unfoldable pub remove_inner : (rounds depth : ℕ) → Shared → K → E api K V (Option V)
  unfolding seek help flagged
  remove_inner zero depth r key = stop
  remove_inner (suc rounds) depth r key = do
    result ← seek api depth r key
    on_result result
        (λ _. do
          rec ← get_pointers api
          leaf_node ← deref rec.leaf
          by_order (key_cmp leaf_node.key key) (pure (done none))
              (elim leaf_node.value [
                | none ↦ crash
                | some value ↦ do
                  failed ←
                      compare_and_set rec.parent rec.leaf_dir rec.leaf
                        (with_tag rec.leaf (marks true false))
                  elim failed [
                    | none ↦ flagged rounds depth r key rec.leaf value
                    | some current ↦ do
                      help api depth rec.leaf current
                      remove_inner rounds depth r key
                  ]
              ])
              (pure (done none)))
        (pure err)

  unfoldable pub remove : (rounds depth : ℕ) → Shared → K → C api K V (Option V)
  unfolding remove_inner
  remove zero depth r key = stop
  remove (suc rounds) depth r key = do
    result ← remove_inner (suc rounds) depth r key
    on_result result pure (do repin api; remove rounds depth r key)
