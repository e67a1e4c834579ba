-- ===== src/Ebr/LinkedList/Chain.antt =====
-- ebr/list.rs: the chain of nodes that a pointer leads to, marked ones included, and the entries
-- that it stands for.
use Prim.Native.Nat.Ordering.{lt}
use pebr_benchmark.Base.{
  All, ℕ, ◌<◌, ◌≡◌, refl, Bool, false, Option, some, List, [], ◌∷◌, if◌then◌else◌, none, arith, inl,
  inr, Bool-cases,
}
use pebr_benchmark.Ord.{Ord}
use pebr_benchmark.SortedMap.{Entries, Above, lookup}
use pebr_benchmark.Shared.{Shared, shared, is_null}
use pebr_benchmark.World.{ok, quiet}
use pebr_benchmark.Ebr.LinkedList.Heap.{Node, Heap, next_of, load, deref, read}

pub not_null : (a t : ℕ) → 0 < a → is_null (shared a t) ≡ false
not_null a t pos = ground arith

-- A node at its address; `marked` is the tag of its `next`.
pub record Cell (K V : Type 0) : Type 0 where
  pub addr : ℕ
  pub key : K
  pub value : V
  pub marked : Bool

module _ {K V : Type 0} where
  abbrev pub first : List (Cell K V) → ℕ
  first [] = 0
  first (c ∷ cs) = c.addr

  abbrev pub next : Cell K V → List (Cell K V) → Shared
  next c cs = shared (first cs) (if c.marked then 1 else 0)

  abbrev pub stored : Cell K V → List (Cell K V) → Node K V
  stored c cs = record { next = next c cs; key = c.key; value = c.value }

  abbrev pub Chain : (ℕ → Option (Node K V)) → List (Cell K V) → Type 0
  Chain mem [] = Unit
  Chain mem (c ∷ cs) = (0 < c.addr) × (mem c.addr ≡ some (stored c cs)) × Chain mem cs

  -- The entries of all nodes, and of those that are not marked.
  abbrev pub all_entries : List (Cell K V) → Entries K V
  all_entries [] = []
  all_entries (c ∷ cs) = (c.key, c.value) ∷ all_entries cs

  abbrev pub live_entries : List (Cell K V) → Entries K V
  live_entries [] = []
  live_entries (c ∷ cs) = if c.marked then live_entries cs else (c.key, c.value) ∷ live_entries cs

  -- No node is marked.
  abbrev pub AllLive : List (Cell K V) → Type 0
  AllLive cs = All (λ c. c.marked ≡ false) cs

  pub deref-ok :
      (h : Heap K V) (p : Shared) (n : Node K V)
      → h.cells p.addr ≡ some n
      → deref p (quiet h tt) ≡ ok n (quiet h tt)
  unfolding deref
  deref-ok h p n e = rw e

  pub load-ok :
      (h : Heap K V) (a : ℕ) (n : Node K V)
      → h.cells a ≡ some n
      → load (next_of a) (quiet h tt) ≡ ok n.next (quiet h tt)
  unfolding load read
  load-ok h a n e = rw e

module _ {K V : Type 0} ⦃o : Ord K⦄ where
  Above-live : (k : K) (cs : List (Cell K V)) → Above k (all_entries cs) → Above k (live_entries cs)
  Above-live k [] above = tt
  Above-live k (c ∷ cs) above = elim (Bool-cases c.marked) [
    | inl e ↦ rw e (Above-live k cs above.1)
    | inr e ↦ rw e (above.0, Above-live k cs above.1)
  ]

  pub lookup-Above : (k : K) (m : Entries K V) → Above k m → lookup k m ≡ none
  unfolding lookup
  lookup-Above k [] above = refl
  lookup-Above k ((j, w) ∷ m) above = rw (o.cmp_lt k j above.0, lookup) refl

  -- Nothing live lies at a key below all nodes.
  pub lookup_before :
      (k : K) (cs : List (Cell K V)) → Above k (all_entries cs) → lookup k (live_entries cs) ≡ none
  lookup_before k cs above = lookup-Above k (live_entries cs) (Above-live k cs above)

  -- A smaller node does not matter, nor does a marked one.
  pub lookup_pass :
      (k : K) (c : Cell K V) (cs : List (Cell K V))
      → o.cmp c.key k ≡ lt
      → lookup k (live_entries (c ∷ cs)) ≡ lookup k (live_entries cs)
  unfolding lookup
  lookup_pass k c cs less = elim (Bool-cases c.marked) [
    | inl e ↦ rw e refl
    | inr e ↦ rw (e, less, lookup) refl
  ]
