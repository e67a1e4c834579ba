-- ===== src/Ebr/NmTree/Map.antt =====
-- ebr/natarajan_mittal_tree.rs: the map's operations. `rounds` bounds the retries, `depth` the walk
-- to a leaf and what is destroyed with it.
use Prim.Native.Nat.Ordering.{lt, eq, gt}
use pebr_benchmark.Base.{
  ℕ, zero, suc, Bool, true, false, not, Option, none, some, List, [], ◌∷◌, is_none, ◌||◌,
  if◌then◌else◌,
}
use pebr_benchmark.Ord.{Ord}
use pebr_benchmark.Shared.{Shared, is_null, with_tag, ◌=ₚ◌}
use pebr_benchmark.World.{Cmd, pure, crash, stop, ◌>>=◌, ◌>>◌}
use pebr_benchmark.Ebr.NmTree.Node.{
  marks, is_flagged, fin, inf, key_cmp, new_leaf, to_left, to_right, opposite, Heap, deref, load,
  compare_and_set, tag_edge, alloc, set_node, free, defer_destroy, new_internal,
}
use pebr_benchmark.Ebr.NmTree.Seek.{SeekRecord, unmarked, seek}

module _ {K V S : Type 0} where
  -- `NMTreeMap::new`: the five nodes with infinite keys.
  unfoldable pub new : Cmd (Heap K V) S Shared
  new = do
    let leaf = new_leaf inf none
    s ← new_internal leaf leaf
    r ← new_internal s leaf
    alloc r

  -- The loop that destroys the subtree of the successor, but for the sibling's.
  unfoldable pub destroy : ℕ → Shared → List Shared → Cmd (Heap K V) S (Unit {0})
  destroy zero target_sibling stack = stop
  destroy (suc fuel) target_sibling [] = pure tt
  destroy (suc fuel) target_sibling (node ∷ stack) =
      if is_null node || (unmarked node =ₚ unmarked target_sibling)
      then destroy fuel target_sibling stack
      else do
        left ← load node to_left
        right ← load node to_right
        defer_destroy node
        destroy fuel target_sibling (right ∷ left ∷ stack)

  unfoldable pub cleanup : ℕ → SeekRecord → Cmd (Heap K V) S Bool
  unfolding destroy
  cleanup depth rec = do
    leaf_marked ← load rec.parent rec.leaf_dir
    let target_dir = if is_flagged leaf_marked.tag then opposite rec.leaf_dir else rec.leaf_dir
    tag_edge rec.parent target_dir
    target_sibling ← load rec.parent target_dir
    let flag = is_flagged target_sibling.tag
    failed ←
        compare_and_set rec.ancestor rec.successor_dir rec.successor
          (with_tag target_sibling (marks flag false))
    if not (is_none failed)
        then pure false
        else do destroy depth target_sibling (rec.successor ∷ []); pure true

  -- After a failed CAS on the edge to the leaf: the conflicting removal is helped.
  unfoldable pub help : ℕ → SeekRecord → Shared → Cmd (Heap K V) S (Unit {0})
  unfolding cleanup
  help depth rec current =
      if unmarked current =ₚ rec.leaf then (do _ ← cleanup depth rec; pure tt) else pure tt

module _ {K V S : Type 0} ⦃o : Ord K⦄ where
  unfoldable pub get : (depth : ℕ) → Shared → K → Cmd (Heap K V) S (Option V)
  unfolding seek
  get depth r key = do
    rec ← seek depth r key
    leaf_node ← deref rec.leaf
    elim (key_cmp leaf_node.key key) [
      | eq ↦ elim leaf_node.value [ none ↦ crash | some v ↦ pure (some v) ]
      | lt ↦ pure none
      | gt ↦ pure none
    ]

  -- The value is taken back, and the two new nodes are freed.
  unfoldable pub give_back : Shared → Shared → K → Cmd (Heap K V) S (Option (K × V))
  give_back leaf_ptr internal_ptr key = do
    node ← deref leaf_ptr
    elim node.value [
      | none ↦ crash
      | some value ↦ do free leaf_ptr; free internal_ptr; pure (some (key, value))
    ]

  -- The new internal node gets its key and its children; then the edge to the leaf is swung.
  unfoldable pub inject : SeekRecord → Shared → Shared → Shared → Cmd (Heap K V) S (Option Shared)
  inject rec internal_ptr new_left new_right = do
    right_node ← deref new_right
    set_node internal_ptr right_node.key new_left new_right
    compare_and_set rec.parent rec.leaf_dir rec.leaf internal_ptr

  unfoldable pub insert_loop :
      (rounds depth : ℕ) → Shared → Shared → Shared → K → Cmd (Heap K V) S (Option (K × V))
  unfolding seek help give_back inject
  insert_loop zero depth r leaf_ptr internal_ptr key = stop
  insert_loop (suc rounds) depth r leaf_ptr internal_ptr key = do
    rec ← seek depth r key
    leaf_node ← deref rec.leaf
    elim (key_cmp leaf_node.key key) [
      | eq ↦ give_back leaf_ptr internal_ptr key
      | gt ↦ do
        failed ← inject rec internal_ptr leaf_ptr rec.leaf
        elim failed [
          | none ↦ pure none
          | some current ↦ do
            help depth rec current
            insert_loop rounds depth r leaf_ptr internal_ptr key
        ]
      | lt ↦ do
        failed ← inject rec internal_ptr rec.leaf leaf_ptr
        elim failed [
          | none ↦ pure none
          | some current ↦ do
            help depth rec current
            insert_loop rounds depth r leaf_ptr internal_ptr key
        ]
    ]

  -- `none` is `Ok(())`; an entry that could not be inserted is given back.
  unfoldable pub insert : (rounds depth : ℕ) → Shared → K → V → Cmd (Heap K V) S (Option (K × V))
  unfolding insert_loop
  insert rounds depth r key value = do
    leaf_ptr ← alloc (new_leaf (fin key) (some value))
    internal_ptr ← alloc (new_leaf inf none)
    insert_loop rounds depth r leaf_ptr internal_ptr key

  -- The cleanup phase of `remove`.
  unfoldable pub cleanup_phase :
      (rounds depth : ℕ) → Shared → K → Shared → V → Cmd (Heap K V) S (Option V)
  unfolding seek cleanup
  cleanup_phase zero depth r key leaf value = stop
  cleanup_phase (suc rounds) depth r key leaf value = do
    rec ← seek depth r key
    if not (rec.leaf =ₚ leaf) then pure (some value) else do
      is_unlinked ← cleanup depth rec
      if is_unlinked then pure (some value) else cleanup_phase rounds depth r key leaf value

  -- After the deletion flag is injected.
  unfoldable pub flagged :
      (rounds depth : ℕ) → Shared → K → SeekRecord → V → Cmd (Heap K V) S (Option V)
  unfolding cleanup_phase
  flagged rounds depth r key rec value = do
    is_unlinked ← cleanup depth rec
    if is_unlinked then pure (some value) else cleanup_phase rounds depth r key rec.leaf value

  unfoldable pub remove : (rounds depth : ℕ) → Shared → K → Cmd (Heap K V) S (Option V)
  unfolding seek help flagged
  remove zero depth r key = stop
  remove (suc rounds) depth r key = do
    rec ← seek depth r key
    leaf_node ← deref rec.leaf
    elim (key_cmp leaf_node.key key) [
      | lt ↦ pure none
      | gt ↦ pure none
      | eq ↦ elim leaf_node.value [
        | none ↦ crash
        | some value ↦ do
          failed ←
              compare_and_set rec.parent rec.leaf_dir rec.leaf
                (with_tag rec.leaf (marks true false))
          elim failed [
            | none ↦ flagged rounds depth r key rec value
            | some current ↦ do help depth rec current; remove rounds depth r key
          ]
      ]
    ]

module _ {K V S : Type 0} where
  -- `Drop`: the stack of subtrees still to be freed, its top first.
  unfoldable pub drop_loop : ℕ → List Shared → Cmd (Heap K V) S (Unit {0})
  drop_loop zero stack = stop
  drop_loop (suc fuel) [] = pure tt
  drop_loop (suc fuel) (node ∷ stack) = if is_null node then drop_loop fuel stack else do
    left ← load node to_left
    right ← load node to_right
    free node
    drop_loop fuel (right ∷ left ∷ stack)

  unfoldable pub drop : ℕ → Shared → Cmd (Heap K V) S (Unit {0})
  unfolding drop_loop
  drop fuel r = do
    left ← load r to_left
    right ← load r to_right
    r_node ← deref r
    if not (is_none r_node.value) then crash else drop_loop fuel (right ∷ left ∷ [])
