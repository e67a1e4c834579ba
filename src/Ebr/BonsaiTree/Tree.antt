-- ===== src/Ebr/BonsaiTree/Tree.antt =====
-- The tree that a root pointer of ebr/bonsai_tree.rs stands for, with the address of each node,
-- and what the accesses of its nodes return when nobody else runs.
use pebr_benchmark.Base.{ℕ, ◌+◌, ◌<◌, ◌≡◌, refl, ◌++◌, [], ◌∷◌, false, Option, some, arith, ◌==◌}
use pebr_benchmark.SortedMap.{Entries}
use pebr_benchmark.Shared.{Shared, shared, null, hit}
use pebr_benchmark.World.{ok, quiet}
use pebr_benchmark.Ebr.BonsaiTree.Node.{
  Node, Heap, State, deref, load_left, load_right, is_retired_spot, node_size,
}

pub data Tree (K V : Type 0) : Type 0 where
  leaf : Tree K V
  node : ℕ → Tree K V → K → V → Tree K V → Tree K V

pub not_null : (a : ℕ) → 0 < a → (a == 0) ≡ false
not_null a h = ground arith

module _ {K V : Type 0} where
  abbrev pub size : Tree K V → ℕ
  size leaf = 0
  size (node a l k v r) = size l + size r + 1

  abbrev pub entries : Tree K V → Entries K V
  entries leaf = []
  entries (node a l k v r) = entries l ++ (k, v) ∷ entries r

  -- How often an address occurs.
  abbrev pub occ : ℕ → Tree K V → ℕ
  occ b leaf = 0
  occ b (node a l k v r) = hit b a + occ b l + occ b r

  abbrev pub ptr : Tree K V → Shared
  ptr leaf = null
  ptr (node a l k v r) = shared a 0

  abbrev pub cell : Tree K V → K → V → Tree K V → Node K V
  cell l k v r = record {
    key = k;
    value = v;
    size = size l + size r + 1;
    left = ptr l;
    right = ptr r;
  }

  -- The heap holds the tree, its cached sizes included.
  abbrev pub Stored : (ℕ → Option (Node K V)) → Tree K V → Type 0
  Stored c leaf = Unit
  Stored c (node a l k v r) = (0 < a) × (c a ≡ some (cell l k v r)) × Stored c l × Stored c r

  -- No allocated cell changes.
  abbrev pub Keeps : (c d : ℕ → Option (Node K V)) → Type 0
  Keeps c d = (a : ℕ) (n : Node K V) → c a ≡ some n → d a ≡ some n

  pub Stored-mono :
      {c d : ℕ → Option (Node K V)} → Keeps c d → (t : Tree K V) → Stored c t → Stored d t
  Stored-mono keep leaf s = tt
  Stored-mono keep (node a l k v r) s =
      (s.0, keep a (cell l k v r) s.1, Stored-mono keep l s.2, Stored-mono keep r s.3)

  pub tag-ptr : (t : Tree K V) → (ptr t).tag ≡ 0
  tag-ptr leaf = refl
  tag-ptr (node a l k v r) = refl

  module _ (h : Heap K V) (s : State) where
    pub deref-ok :
        (a : ℕ) (l : Tree K V) (k : K) (v : V) (r : Tree K V)
        → Stored h.cells (node a l k v r)
        → deref (shared a 0) (quiet h s) ≡ ok (cell l k v r) (quiet h s)
    unfolding deref
    deref-ok a l k v r st = rw (st.1)

    pub load_left-ok :
        (a : ℕ) (l : Tree K V) (k : K) (v : V) (r : Tree K V)
        → Stored h.cells (node a l k v r)
        → load_left (shared a 0) (quiet h s) ≡ ok (ptr l) (quiet h s)
    unfolding load_left
    load_left-ok a l k v r st = rw (st.1)

    pub load_right-ok :
        (a : ℕ) (l : Tree K V) (k : K) (v : V) (r : Tree K V)
        → Stored h.cells (node a l k v r)
        → load_right (shared a 0) (quiet h s) ≡ ok (ptr r) (quiet h s)
    unfolding load_right
    load_right-ok a l k v r st = rw (st.1)

    pub spot-ok :
        (t : Tree K V)
        → Stored h.cells t
        → is_retired_spot (ptr t) (quiet h s) ≡ ok false (quiet h s)
    unfolding is_retired_spot
    spot-ok leaf st = refl
    spot-ok (node a l k v r) st = rw (
      not_null a st.0,
      load_left-ok a l k v r st,
      tag-ptr l,
      load_right-ok a l k v r st,
      tag-ptr r,
    )

    pub size-ok :
        (t : Tree K V) → Stored h.cells t → node_size (ptr t) (quiet h s) ≡ ok (size t) (quiet h s)
    unfolding node_size
    size-ok leaf st = refl
    size-ok (node a l k v r) st = rw (not_null a st.0, deref-ok a l k v r st)
