-- ===== src/Ebr/BonsaiTree/Node.antt =====
-- ebr/bonsai_tree.rs: nodes, the retired mark, the heap, and the accesses of a node's fields.
use pebr_benchmark.Base.{
  ℕ, ◌+◌, ◌%◌, Bool, true, false, not, Option, none, some, List, ◌∷◌, ◌==◌, if◌then◌else◌,
}
use pebr_benchmark.Shared.{Shared, shared, null, is_null, with_tag, ◌=ₚ◌}
use pebr_benchmark.World.{Cmd, pure, crash, ◌>>=◌, access, atomic}

-- `Retired::new(retired).bits()` and `Retired::retired` of the bits of a tag.
abbrev pub retired_bits : Bool → ℕ
retired_bits retired = if retired then 1 else 0

abbrev pub has_retired_bit : ℕ → Bool
has_retired_bit bits = not (bits % 2 == 0)

abbrev pub retired_node : Shared
retired_node = with_tag null (retired_bits true)

abbrev pub is_retired : Shared → Bool
is_retired node = has_retired_bit node.tag

pub record Node (K V : Type 0) : Type 0 where
  pub key : K
  pub value : V
  pub size : ℕ
  pub left : Shared
  pub right : Shared

-- `root` is the map's only field. The rest stands for the allocator and the guard: `fresh` is the
-- next address, `deferred` what `defer_destroy` was given.
pub record Heap (K V : Type 0) : Type 0 where
  pub root : Shared
  pub cells : ℕ → Option (Node K V)
  pub fresh : ℕ
  pub deferred : List Shared

-- Each operation's private lists (`struct State`).
pub record State : Type 0 where
  pub retired_nodes : List Shared
  pub new_nodes : List Shared

abbrev pub C : Type 0 → Type 0 → Type 0 → Type 0
C K V A = Cmd (Heap K V) State A

module _ {K V : Type 0} where
  abbrev pub update : (ℕ → Option (Node K V)) → ℕ → Option (Node K V) → ℕ → Option (Node K V)
  update c a n b = if b == a then n else c b

  -- A node's immutable fields; null and freed addresses hold none.
  unfoldable pub deref : Shared → C K V (Node K V)
  deref p = access λ h. elim (h.cells p.addr) [ none ↦ none | some n ↦ some (n, h) ]

  unfoldable pub load_left : Shared → C K V Shared
  load_left p = atomic λ h. elim (h.cells p.addr) [ none ↦ none | some n ↦ some (n.left, h) ]

  unfoldable pub load_right : Shared → C K V Shared
  load_right p = atomic λ h. elim (h.cells p.addr) [ none ↦ none | some n ↦ some (n.right, h) ]

  unfoldable pub store_left : Shared → Shared → C K V (Unit {0})
  store_left p q = atomic λ h. elim (h.cells p.addr) [
    | none ↦ none
    | some n ↦ some (tt, record h { cells = update h.cells p.addr (some (record n { left = q })) })
  ]

  unfoldable pub store_right : Shared → Shared → C K V (Unit {0})
  store_right p q = atomic λ h. elim (h.cells p.addr) [
    | none ↦ none
    | some n ↦ some (tt, record h { cells = update h.cells p.addr (some (record n { right = q })) })
  ]

  -- `Owned::new(..).into_shared(guard)`
  unfoldable pub alloc : Node K V → C K V Shared
  alloc n = access λ h.
      some (
        shared h.fresh 0,
        record h { cells = update h.cells h.fresh (some n); fresh = h.fresh + 1 },
      )

  -- `drop(node.into_owned())`
  unfoldable pub free : Shared → C K V (Unit {0})
  free p = access λ h. elim (h.cells p.addr) [
    | none ↦ none
    | some n ↦ some (tt, record h { cells = update h.cells p.addr none })
  ]

  unfoldable pub defer_destroy : Shared → C K V (Unit {0})
  defer_destroy p = access λ h. some (tt, record h { deferred = p ∷ h.deferred })

  unfoldable pub load_root : C K V Shared
  load_root = atomic λ h. some (h.root, h)

  unfoldable pub cas_root : Shared → Shared → C K V Bool
  cas_root old new =
      atomic λ h. if h.root =ₚ old then some (true, record h { root = new }) else some (false, h)

  unfoldable pub is_retired_spot : Shared → C K V Bool
  is_retired_spot node =
      if is_retired node then pure true else if is_null node then pure false else do
        left ← load_left node
        if is_retired left then pure true else do right ← load_right node; pure (is_retired right)

  -- The assertion is the `debug_assert!`.
  unfoldable pub node_size : Shared → C K V ℕ
  node_size node =
      if is_retired node
      then crash
      else if is_null node
      then pure 0
      else do n ← deref node; pure n.size
