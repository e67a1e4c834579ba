-- ===== src/Ebr/NmTree/Seek.antt =====
-- ebr/natarajan_mittal_tree.rs: the walk to a key's leaf.
use Prim.Native.Nat.{Ordering}
use Prim.Native.Nat.Ordering.{lt, eq, gt}
use pebr_benchmark.Base.{ℕ, zero, suc, Bool, false, if◌then◌else◌}
use pebr_benchmark.Ord.{Ord}
use pebr_benchmark.Shared.{Shared, is_null, with_tag}
use pebr_benchmark.World.{Cmd, pure, stop, ◌>>=◌}
use pebr_benchmark.Ebr.NmTree.Node.{
  marks, is_tagged, key_cmp, Direction, to_left, to_right, Heap, deref, load,
}

pub record SeekRecord : Type 0 where
  pub ancestor : Shared
  pub successor : Shared
  pub successor_dir : Direction
  pub parent : Shared
  pub leaf : Shared
  pub leaf_dir : Direction

-- `Shared::with_tag(Marks::empty().bits())`
abbrev pub unmarked : Shared → Shared
unmarked p = with_tag p (marks false false)

-- The body of the loop of `seek` up to `other variables`: `prev_tag` is the tag of the edge that was
-- passed last, `curr` and `curr_dir` the edge that is passed now.
unfoldable pub advance : SeekRecord → Bool → Shared → Direction → SeekRecord
advance rec prev_tag curr curr_dir = record {
  ancestor = if prev_tag then rec.ancestor else rec.parent;
  successor = if prev_tag then rec.successor else rec.leaf;
  successor_dir = if prev_tag then rec.successor_dir else rec.leaf_dir;
  parent = rec.leaf;
  leaf = unmarked curr;
  leaf_dir = curr_dir;
}

-- Left if the node's key is greater.
abbrev pub side : Ordering → Direction
side gt = to_left
side lt = to_right
side eq = to_right

module _ {K V S : Type 0} ⦃o : Ord K⦄ where
  unfoldable pub seek_loop :
      ℕ → K → SeekRecord → Bool → Shared → Direction → Cmd (Heap K V) S SeekRecord
  unfolding advance
  seek_loop zero key rec prev_tag curr curr_dir = stop
  seek_loop (suc fuel) key rec prev_tag curr curr_dir = if is_null curr then pure rec else do
    curr_node ← deref curr
    let dir = side (key_cmp curr_node.key key)
    next ← load curr dir
    seek_loop fuel key (advance rec prev_tag curr curr_dir) (is_tagged curr.tag) next dir

  -- `r` is the address of the map's field of that name.
  unfoldable pub seek : ℕ → Shared → K → Cmd (Heap K V) S SeekRecord
  unfolding seek_loop
  seek fuel r key = do
    s ← load r to_left
    marked ← load s to_left
    let leaf = unmarked marked
    curr ← load leaf to_left
    seek_loop fuel key
        (record {
          ancestor = r;
          successor = s;
          successor_dir = to_left;
          parent = s;
          leaf = leaf;
          leaf_dir = to_left;
        })
        (is_tagged leaf.tag) curr to_left
