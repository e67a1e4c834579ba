-- ===== src/Ebr/NmTree/Node.antt =====
-- ebr/natarajan_mittal_tree.rs: the marks of an edge, keys, nodes, the heap, and the accesses of a
-- node's fields.
use Prim.Native.Nat.{Ordering}
use Prim.Native.Nat.Ordering.{gt}
use pebr_benchmark.Base.{
  ℕ, ◌+◌, ◌/◌, ◌%◌, Bool, not, Option, none, some, List, ◌∷◌, ◌==◌, if◌then◌else◌,
}
use pebr_benchmark.Ord.{Ord}
use pebr_benchmark.Shared.{Shared, shared, null, with_tag, ◌=ₚ◌}
use pebr_benchmark.World.{Cmd, pure, ◌>>=◌, access, atomic}

-- `Marks::new(flag, tag).bits()`: `FLAG` is the bit 1, `TAG` the bit 0.
abbrev pub marks : (flag tag : Bool) → ℕ
marks flag tag = (if flag then 2 else 0) + (if tag then 1 else 0)

-- `Marks::from_bits_truncate(bits).flag()`
abbrev pub is_flagged : ℕ → Bool
is_flagged bits = not (bits / 2 % 2 == 0)

abbrev pub is_tagged : ℕ → Bool
is_tagged bits = not (bits % 2 == 0)

-- `bits | TAG`
abbrev pub or_tag : ℕ → ℕ
or_tag bits = if is_tagged bits then bits else bits + 1

pub data Key (K : Type 0) : Type 0 where
  fin : K → Key K
  inf : Key K

-- `Key::cmp` with a finite key.
abbrev pub key_cmp : {K : Type 0} ⦃o : Ord K⦄ → Key K → K → Ordering
key_cmp ⦃o⦄ (fin k) key = o.cmp k key
key_cmp inf key = gt

pub record Node (K V : Type 0) : Type 0 where
  pub key : Key K
  pub value : Option V
  pub left : Shared
  pub right : Shared

abbrev pub new_leaf : {K V : Type 0} → Key K → Option V → Node K V
new_leaf key value = record { key = key; value = value; left = null; right = null }

pub data Direction : Type 0 where
  to_left : Direction
  to_right : Direction

abbrev pub opposite : Direction → Direction
opposite to_left = to_right
opposite to_right = to_left

-- A map is known by the address of its field `r`. The rest stands for the allocator and the guard.
pub record Heap (K V : Type 0) : Type 0 where
  pub cells : ℕ → Option (Node K V)
  pub fresh : ℕ
  pub deferred : List Shared

module _ {K V : Type 0} where
  abbrev pub child : Node K V → Direction → Shared
  child n to_left = n.left
  child n to_right = n.right

  abbrev pub set_child : Node K V → Direction → Shared → Node K V
  set_child n to_left p = record n { left = p }
  set_child n to_right p = record n { right = p }

  abbrev pub update : (ℕ → Option (Node K V)) → ℕ → Option (Node K V) → ℕ → Option (Node K V)
  update c a n b = if b == a then n else c b

  abbrev pub put_cell : Heap K V → ℕ → Node K V → Heap K V
  put_cell h a n = record h { cells = update h.cells a (some n) }

module _ {K V S : Type 0} where
  -- A node's immutable fields.
  unfoldable pub deref : Shared → Cmd (Heap K V) S (Node K V)
  deref p = access λ h. elim (h.cells p.addr) [ none ↦ none | some n ↦ some (n, h) ]

  -- The load of an edge, which is a node and a direction.
  unfoldable pub load : Shared → Direction → Cmd (Heap K V) S Shared
  load p dir = atomic λ h. elim (h.cells p.addr) [ none ↦ none | some n ↦ some (child n dir, h) ]

  -- `none` is success, `some current` a failure.
  unfoldable pub compare_and_set :
      Shared → Direction → Shared → Shared → Cmd (Heap K V) S (Option Shared)
  compare_and_set p dir old new = atomic λ h. elim (h.cells p.addr) [
    | none ↦ none
    | some n ↦
        if child n dir =ₚ old
        then some (none, put_cell h p.addr (set_child n dir new))
        else some (some (child n dir), h)
  ]

  -- `fetch_or(Marks::TAG.bits())`
  unfoldable pub tag_edge : Shared → Direction → Cmd (Heap K V) S (Unit {0})
  tag_edge p dir = atomic λ h. elim (h.cells p.addr) [
    | none ↦ none
    | some n ↦
        let edge = child n dir in
        some (tt, put_cell h p.addr (set_child n dir (with_tag edge (or_tag edge.tag))))
  ]

  -- `Owned::new(..).into_shared(..)`, `Atomic::from(node)`
  unfoldable pub alloc : Node K V → Cmd (Heap K V) S Shared
  alloc n = access λ h.
      some (
        shared h.fresh 0,
        record h { cells = update h.cells h.fresh (some n); fresh = h.fresh + 1 },
      )

  -- The three stores to a node that no other thread knows.
  unfoldable pub set_node : Shared → Key K → Shared → Shared → Cmd (Heap K V) S (Unit {0})
  set_node p key left right = access λ h. elim (h.cells p.addr) [
    | none ↦ none
    | some n ↦ some (tt, put_cell h p.addr (record n { key = key; left = left; right = right }))
  ]

  -- `drop(node.into_owned())`
  unfoldable pub free : Shared → Cmd (Heap K V) S (Unit {0})
  free p = access λ h. elim (h.cells p.addr) [
    | none ↦ none
    | some n ↦ some (tt, record h { cells = update h.cells p.addr none })
  ]

  unfoldable pub defer_destroy : Shared → Cmd (Heap K V) S (Unit {0})
  defer_destroy p = access λ h. some (tt, record h { deferred = p ∷ h.deferred })

  -- `Node::new_internal`: its children are moved to the heap.
  unfoldable pub new_internal : Node K V → Node K V → Cmd (Heap K V) S (Node K V)
  unfolding alloc
  new_internal left right w =
      (do
        left_ptr ← alloc left
        right_ptr ← alloc right
        pure (record { key = right.key; value = none; left = left_ptr; right = right_ptr }))
        w
