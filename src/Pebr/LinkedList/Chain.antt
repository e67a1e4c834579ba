-- ===== src/Pebr/LinkedList/Chain.antt =====
-- pebr/list.rs: the chain of nodes that a list's head leads to, which are read as those of ebr/list.rs.
use pebr_benchmark.Base.{ℕ, ◌<◌, ◌≡◌, refl, Option, some, List, [], ◌∷◌}
use pebr_benchmark.Ord.{Ord}
use pebr_benchmark.SortedMap.{IsSorted}
use pebr_benchmark.Shared.{Shared, shared}
use pebr_benchmark.World.{ok, quiet}
use pebr_benchmark.Ebr.LinkedList.Chain.{Cell, first, next, all_entries}
use pebr_benchmark.Pebr.LinkedList.Heap
use pebr_benchmark.Pebr.LinkedList.Heap.{list_head, list_node, Node, Heap, load, deref}

module _ {K V : Type 0} where
  abbrev pub stored : Cell K V → List (Cell K V) → Node K V
  stored c cs = record { next = next c cs; key = c.key; value = c.value }

  abbrev pub Chain : (ℕ → Option (Heap.Cell K V)) → List (Cell K V) → Type 0
  Chain mem [] = Unit
  Chain mem (c ∷ cs) = (0 < c.addr) × (mem c.addr ≡ some (list_node (stored c cs))) × Chain mem cs

module _ {K V S : Type 0} where
  pub deref-ok :
      (h : Heap K V) (l : S) (p : Shared) (n : Node K V)
      → h.cells p.addr ≡ some (list_node n)
      → deref p (quiet h l) ≡ ok n (quiet h l)
  unfolding deref
  deref-ok h l p n e = rw e refl

  pub load-ok :
      (h : Heap K V) (l : S) (p : Shared) (n : Node K V)
      → h.cells p.addr ≡ some (list_node n)
      → load p (quiet h l) ≡ ok n.next (quiet h l)
  unfolding load
  load-ok h l p n e = rw e refl

  pub load_head-ok :
      (h : Heap K V) (l : S) (list p : Shared)
      → h.cells list.addr ≡ some (list_head p)
      → load list (quiet h l) ≡ ok p (quiet h l)
  unfolding load
  load_head-ok h l list p e = rw e refl

-- The head leads to the nodes `cs`, whose keys rise strictly, marked ones included.
pub record Leads {K V : Type 0} ⦃o : Ord K⦄ (h : Heap K V) (list : Shared) (cs : List (Cell K V))
    : Type 0 where
  pub from : h.cells list.addr ≡ some (list_head (shared (first cs) 0))
  pub chain : Chain h.cells cs
  pub rising : IsSorted (all_entries cs)
