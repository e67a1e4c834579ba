-- ===== src/Ebr/LinkedList/Heap.antt =====
-- ebr/list.rs: nodes, cursors, the heap that the lists share, and the accesses of a node.
use pebr_benchmark.Base.{
  ℕ, ◌+◌, Bool, true, false, Option, none, some, List, [], ◌∷◌, ◌++◌, length, get_elem?, set, ◌==◌,
  if◌then◌else◌,
}
use pebr_benchmark.Shared.{Shared, shared, null, with_tag, ◌=ₚ◌}
use pebr_benchmark.World.{Cmd, access, atomic}

-- The tag of `next` marks this node as removed.
pub record Node (K V : Type 0) : Type 0 where
  pub next : Shared
  pub key : K
  pub value : V

-- A list is known by the index of its `head`. The rest stands for the allocator, the guard
-- (`deferred`) and the values whose destructors ran (`dropped`).
pub record Heap (K V : Type 0) : Type 0 where
  pub heads : List Shared
  pub cells : ℕ → Option (Node K V)
  pub fresh : ℕ
  pub deferred : List Shared
  pub dropped : List V

-- What a `&Atomic` refers to: the head of a list, or the `next` of the node at an address.
pub data Place : Type 0 where
  head : ℕ → Place
  next_of : ℕ → Place

pub record Cursor : Type 0 where
  pub prev : Place
  pub curr : Shared

abbrev pub C : Type 0 → Type 0 → Type 0 → Type 0
C K V A = Cmd (Heap K V) (Unit {0}) A

module _ {K V : Type 0} where
  abbrev pub update : (ℕ → Option (Node K V)) → ℕ → Option (Node K V) → ℕ → Option (Node K V)
  update c a n b = if b == a then n else c b

  unfoldable pub read : Heap K V → Place → Option Shared
  read h (head i) = get_elem? h.heads i
  read h (next_of a) = elim (h.cells a) [ none ↦ none | some n ↦ some n.next ]

  unfoldable pub write : Heap K V → Place → Shared → Heap K V
  write h (head i) p = record h { heads = set h.heads i p }
  write h (next_of a) p = elim (h.cells a) [
    | none ↦ h
    | some n ↦ record h { cells = update h.cells a (some (record n { next = p })) }
  ]

  unfoldable pub load : Place → C K V Shared
  load place = atomic λ h. elim (read h place) [ none ↦ none | some p ↦ some (p, h) ]

  unfoldable pub compare_and_set : Place → Shared → Shared → C K V Bool
  compare_and_set place old new = atomic λ h. elim (read h place) [
    | none ↦ none
    | some p ↦ if p =ₚ old then some (true, write h place new) else some (false, h)
  ]

  -- `next.fetch_or(1)`, the result of which is the pointer before.
  unfoldable pub mark_next : Shared → C K V Shared
  mark_next node = atomic λ h. elim (read h (next_of node.addr)) [
    | none ↦ none
    | some p ↦ some (p, write h (next_of node.addr) (with_tag p 1))
  ]

  -- A node's immutable fields.
  unfoldable pub deref : Shared → C K V (Node K V)
  deref p = access λ h. elim (h.cells p.addr) [ none ↦ none | some n ↦ some (n, h) ]

  -- `Owned::new`
  unfoldable pub alloc : Node K V → C K V Shared
  alloc n = access λ h.
      some (
        shared h.fresh 0,
        record h { cells = update h.cells h.fresh (some n); fresh = h.fresh + 1 },
      )

  -- A store to a node that no other thread knows.
  unfoldable pub store_next : Shared → Shared → C K V (Unit {0})
  store_next node p = access λ h. elim (h.cells node.addr) [
    | none ↦ none
    | some _ ↦ some (tt, write h (next_of node.addr) p)
  ]

  -- The destructor of a node, which does not drop its value.
  unfoldable pub free : Shared → C K V (Unit {0})
  free p = access λ h. elim (h.cells p.addr) [
    | none ↦ none
    | some n ↦ some (tt, record h { cells = update h.cells p.addr none })
  ]

  -- `ManuallyDrop::drop(&mut node.value)`
  unfoldable pub drop_value : Shared → C K V (Unit {0})
  drop_value p = access λ h. elim (h.cells p.addr) [
    | none ↦ none
    | some n ↦ some (tt, record h { dropped = n.value ∷ h.dropped })
  ]

  unfoldable pub defer_destroy : Shared → C K V (Unit {0})
  defer_destroy p = access λ h. some (tt, record h { deferred = p ∷ h.deferred })

  -- `List::new`: the index of the new list.
  unfoldable pub new : C K V ℕ
  new = access λ h. some (length h.heads, record h { heads = h.heads ++ null ∷ [] })

abbrev pub empty : {K V : Type 0} → Heap K V
empty = record { heads = []; cells = λ _. none; fresh = 1; deferred = []; dropped = [] }
