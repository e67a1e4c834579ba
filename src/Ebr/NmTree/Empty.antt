-- ===== src/Ebr/NmTree/Empty.antt =====
-- ebr/natarajan_mittal_tree.rs: `new` builds the five nodes with infinite keys, in which no key is.
use pebr_benchmark.Ebr.NmTree.Represents.{Represents}
use pebr_benchmark.Base.{[], ℕ, suc, ◌+◌, ◌<◌, ◌≡◌, refl, none, arith}
use pebr_benchmark.Ord.{Ord}
use pebr_benchmark.SortedMap.{lookup}
use pebr_benchmark.Shared.{count, hit, shared}
use pebr_benchmark.World.{quiet, ◌>>=◌}
use pebr_benchmark.World.Returns
use pebr_benchmark.World.Returns.{Returns, returns}
use pebr_benchmark.Ebr.NmTree.Node.{inf, Heap, alloc, new_internal}
use pebr_benchmark.Ebr.NmTree.Map
use pebr_benchmark.Ebr.NmTree.Tree.{Tree, tip, fork, Stored}
use pebr_benchmark.Ebr.NmTree.Get.{get-entries}

module _ {K V : Type 0} where
  abbrev pub empty : ℕ → Tree K V
  empty f =
      fork (f + 1 + 1 + 1 + 1) inf (fork (f + 1 + 1) inf (tip f none) (tip (f + 1) none))
        (tip (f + 1 + 1 + 1) none)

  pub new-Stored :
      (h : Heap K V)
      → 0 < h.fresh
      → Returns
          (λ r h' s'. (r ≡ shared (h.fresh + 1 + 1 + 1 + 1) 0) × Stored h'.cells (empty h.fresh))
          (Map.new {S = Unit {0}} (quiet h tt))
  unfolding Map.new alloc new_internal
  new-Stored h pos = returns (
    refl,
    (
      omega arith,
      ground arith,
      (omega arith, ground arith, (omega arith, ground arith), (omega arith, ground arith)),
      (omega arith, ground arith),
    ),
  )

module _ {K V : Type 0} ⦃o : Ord K⦄ where
  -- Undisturbed, on a heap whose next address is not null, with a depth of two or more: `new` and
  -- then `get` of any key return, `get` finds nothing, and the heap holds the five nodes.
  get-new :
      (depth : ℕ) (h : Heap K V) (key : K)
      → 0 < h.fresh
      → Returns
          (λ found h' s'. (found ≡ none) × Stored h'.cells (empty h.fresh))
          ((Map.new >>= λ r. Map.get (suc (suc depth)) r key) (quiet h tt))
  unfolding lookup
  get-new depth h key pos = Returns.bind _ (new-Stored h pos) λ r h' s' (e, st).
      rw
        (
          e,
          get-entries key h' (suc (suc depth)) (h.fresh + 1 + 1 + 1 + 1) (h.fresh + 1 + 1)
              (tip h.fresh none) (tip (h.fresh + 1) none) (tip (h.fresh + 1 + 1 + 1) none) tt
              (omega arith) st tt,
        )
        (returns (refl, st))

  -- The heap before a map is made.
  abbrev pub nothing : ℕ → Heap K V
  nothing f = record { cells = λ _. none; fresh = f; deferred = [] }

  pub new-Represents :
      (f : ℕ)
      → 0 < f
      → Returns
          (λ r h s. (r ≡ shared (f + 1 + 1 + 1 + 1) 0) × Represents h (f + 1 + 1 + 1 + 1) [])
          (Map.new (quiet (nothing f) tt))
  unfolding Map.new alloc new_internal count hit
  new-Represents f pos = returns (
    refl,
    record {
      s = f + 1 + 1;
      q = f + 1;
      p = f + 1 + 1 + 1;
      tree = tip f none;
      stored = (
        omega arith,
        ground arith,
        (omega arith, ground arith, (omega arith, ground arith), (omega arith, ground arith)),
        (omega arith, ground arith),
      );
      crown = tt;
      ordered = tt;
      listed = refl;
      positive = omega arith;
      unused = λ a beyond. ground arith;
      accounted = λ a (n, e). ground arith;
      only = λ a p. absurd (omega arith);
    },
  )
