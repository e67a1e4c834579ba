-- ===== src/Pebr/LinkedList/Heap.antt =====
-- pebr/list.rs: nodes and lists in memory, and the accesses of their fields.
use pebr_benchmark.Base.{
  ℕ, ◌+◌, Bool, true, false, Option, none, some, List, ◌∷◌, ◌==◌, if◌then◌else◌,
}
use pebr_benchmark.Shared.{Shared, shared, null, with_tag, ◌=ₚ◌}
use pebr_benchmark.World.{Cmd, access, atomic}

-- The tag of `next` marks this node as removed.
pub record Node (K V : Type 0) : Type 0 where
  pub next : Shared
  pub key : K
  pub value : V

-- What stands at an address: a `List`, which is its `head`, or a node. Both begin with an atomic
-- pointer, so that the code can read the `head` of a list as the `next` of a node.
pub data Cell (K V : Type 0) : Type 0 where
  list_head : Shared → Cell K V
  list_node : Node K V → Cell K V

-- Besides the memory: the allocator, the guard (`deferred`), and the values whose destructors ran.
pub record Heap (K V : Type 0) : Type 0 where
  pub cells : ℕ → Option (Cell K V)
  pub fresh : ℕ
  pub deferred : List Shared
  pub dropped : List V

module _ {K V : Type 0} where
  abbrev pub update : (ℕ → Option (Cell K V)) → ℕ → Option (Cell K V) → ℕ → Option (Cell K V)
  update c a n b = if b == a then n else c b

  -- The atomic pointer that a cell begins with.
  abbrev pub first_word : Cell K V → Shared
  first_word (list_head p) = p
  first_word (list_node n) = n.next

  abbrev pub set_word : Cell K V → Shared → Cell K V
  set_word (list_head _) p = list_head p
  set_word (list_node n) p = list_node (record n { next = p })

  abbrev pub put_word : Heap K V → ℕ → Cell K V → Shared → Heap K V
  put_word h a c p = record h { cells = update h.cells a (some (set_word c p)) }

module _ {K V S : Type 0} where
  unfoldable pub load : Shared → Cmd (Heap K V) S Shared
  load p = atomic λ h. elim (h.cells p.addr) [ none ↦ none | some c ↦ some (first_word c, h) ]

  unfoldable pub compare_and_set : (of old new : Shared) → Cmd (Heap K V) S Bool
  compare_and_set of old new = atomic λ h. elim (h.cells of.addr) [
    | none ↦ none
    | some c ↦
        if first_word c =ₚ old then some (true, put_word h of.addr c new) else some (false, h)
  ]

  -- `next.fetch_or(1)`, the result of which is the pointer before.
  unfoldable pub mark_next : Shared → Cmd (Heap K V) S Shared
  mark_next p = atomic λ h. elim (h.cells p.addr) [
    | none ↦ none
    | some c ↦ some (first_word c, put_word h p.addr c (with_tag (first_word c) 1))
  ]

  -- A node's immutable fields; a list has none.
  unfoldable pub deref : Shared → Cmd (Heap K V) S (Node K V)
  deref p = access λ h. elim (h.cells p.addr) [
    | none ↦ none
    | some c ↦ elim c [ list_head _ ↦ none | list_node n ↦ some (n, h) ]
  ]

  unfoldable pub alloc : Cell K V → Cmd (Heap K V) S Shared
  alloc c = access λ h.
      some (
        shared h.fresh 0,
        record h { cells = update h.cells h.fresh (some c); fresh = h.fresh + 1 },
      )

  -- A store to a node that no other thread knows.
  unfoldable pub store_next : Shared → Shared → Cmd (Heap K V) S (Unit {0})
  store_next node p =
      access
        λ h. elim (h.cells node.addr) [ none ↦ none | some c ↦ some (tt, put_word h node.addr c p) ]

  -- The destructor of a node, which does not drop its value.
  unfoldable pub free : Shared → Cmd (Heap K V) S (Unit {0})
  free p = access λ h. elim (h.cells p.addr) [
    | none ↦ none
    | some _ ↦ some (tt, record h { cells = update h.cells p.addr none })
  ]

  -- `ManuallyDrop::drop(&mut node.value)`
  unfoldable pub drop_value : Shared → Cmd (Heap K V) S (Unit {0})
  drop_value p = access λ h. elim (h.cells p.addr) [
    | none ↦ none
    | some c ↦ elim c [
      | list_head _ ↦ none
      | list_node n ↦ some (tt, record h { dropped = n.value ∷ h.dropped })
    ]
  ]

  unfoldable pub defer_destroy : Shared → Cmd (Heap K V) S (Unit {0})
  defer_destroy p = access λ h. some (tt, record h { deferred = p ∷ h.deferred })

  -- `List::new`: the address of the new list.
  unfoldable pub new : Cmd (Heap K V) S Shared
  unfolding alloc
  new = alloc (list_head null)
