-- ===== src/Ebr/HashMap/Table.antt =====
-- The dictionary that the lists of ebr/michael_hash_map.rs stand for.
use mathlib.Core.Path.{subst}
use native.Mathlib.Nat.{mod-lt}
use pebr_benchmark.Base.{
  ℕ, ◌%◌, ◌<◌, ◌≡◌, ◌≢◌, ◌∙◌, refl, sym, inl, inr, false, Option, some, List, length, get_elem?,
  ◌==◌, if◌then◌else◌, eq_or_ne, ==-refl, arith,
}
use pebr_benchmark.Ord.{Ord}
use pebr_benchmark.SortedMap.{lookup}
use pebr_benchmark.World.{ok, quiet}
use pebr_benchmark.Ebr.LinkedList.Heap.{Heap}
use pebr_benchmark.Ebr.LinkedList.Chain.{Cell, all_entries}
use pebr_benchmark.Ebr.LinkedList.Alone.{Alone}
use pebr_benchmark.Ebr.LinkedList.Update.{Clean}
use pebr_benchmark.Ebr.HashMap.{HashMap, get_bucket}
use pebr_benchmark.Ebr.HashMap.Disjoint.{Disjoint, Disjoint-sym, Clean-Alone, Disjoint-Alone}

-- The number of the bucket of a key.
abbrev pub slot : {K : Type 0} → (K → ℕ) → HashMap → K → ℕ
slot hash map k = hash k % length map.buckets

module _ {K V : Type 0} ⦃o : Ord K⦄ (hash : K → ℕ) where
  -- The buckets are lists without marked nodes, pairwise without a common node; a key is mapped as
  -- the list of its own bucket maps it.
  pub record Maps (h : Heap K V) (map : HashMap) (m : K → Option V) : Type 0 where
    pub some_buckets : 0 < length map.buckets
    pub list : ℕ → ℕ
    pub listed : (i : ℕ) → i < length map.buckets → get_elem? map.buckets i ≡ some (list i)
    pub distinct :
        (i j : ℕ) → i < length map.buckets → j < length map.buckets → i ≢ j → list i ≢ list j
    pub cells : ℕ → List (Cell K V)
    pub clean : (i : ℕ) → i < length map.buckets → Clean h (list i) (cells i)
    pub apart :
        (i j : ℕ)
        → i < length map.buckets
        → j < length map.buckets
        → i ≢ j
        → Disjoint (cells i) (cells j)
    pub view : (k : K) → m k ≡ lookup k (all_entries (cells (slot hash map k)))

  pub slot-below :
      {h : Heap K V} (map : HashMap) {m : K → Option V} (k : K)
      → Maps h map m
      → slot hash map k < length map.buckets
  slot-below map k t = mod-lt (hash k) t.some_buckets

  -- The bucket of a key is the list of its slot.
  pub get_bucket-ok :
      (h : Heap K V) (map : HashMap) (m : K → Option V) (k : K)
      → (t : Maps h map m)
      → get_bucket map (hash k) (quiet h tt) ≡ ok (t.list (slot hash map k)) (quiet h tt)
  unfolding get_bucket
  get_bucket-ok h map m k t =
      let pos = t.some_buckets in
      let some_lists : (length map.buckets == 0) ≡ false = ground arith in
      rw (some_lists, t.listed (slot hash map k) (slot-below map k t)) refl

  abbrev replace : (i : ℕ) → List (Cell K V) → (ℕ → List (Cell K V)) → ℕ → List (Cell K V)
  replace i cs family j = if j == i then cs else family j

  replace_here :
      (i : ℕ) (cs : List (Cell K V)) (family : ℕ → List (Cell K V)) → replace i cs family i ≡ cs
  replace_here i cs family = rw (==-refl i) refl

  replace_other :
      (i : ℕ) (cs : List (Cell K V)) (family : ℕ → List (Cell K V)) (j : ℕ)
      → j ≢ i
      → replace i cs family j ≡ family j
  replace_other i cs family j ne = let e : (j == i) ≡ false = ground arith in rw e refl

  module _ (h h' : Heap K V) (map : HashMap) (m m' : K → Option V) (t : Maps h map m) (i : ℕ)
      (low : i < length map.buckets) (cs : List (Cell K V)) (clean : Clean h' (t.list i) cs)
      (alone : Alone h.fresh h h' (t.list i) (t.cells i) cs) where
    kept_clean : (j : ℕ) → j < length map.buckets → Clean h' (t.list j) (replace i cs t.cells j)
    kept_clean j below = elim (eq_or_ne j i) [
      | inl e ↦
          subst (λ n. Clean h' (t.list n) (replace i cs t.cells n)) (sym e) (rw (==-refl i) clean)
      | inr ne ↦ rw (replace_other i cs t.cells j ne) (
          Clean-Alone (t.cells j) alone (t.apart i j low below λ e. ne (sym e)) (t.clean j below)
            (t.distinct j i below low ne))
    ]

    kept_apart_here : (j : ℕ) → j < length map.buckets → j ≢ i → Disjoint cs (t.cells j)
    kept_apart_here j below ne =
        Disjoint-Alone (t.cells j) alone (t.apart i j low below λ e. ne (sym e)) (t.clean j below)

    kept_apart :
        (j k : ℕ)
        → j < length map.buckets
        → k < length map.buckets
        → j ≢ k
        → Disjoint (replace i cs t.cells j) (replace i cs t.cells k)
    kept_apart j k below_j below_k ne = elim (eq_or_ne j i) [
      | inl e ↦
          let away : k ≢ i = λ f. ne (e ∙ sym f) in
          rw (e, ==-refl i, replace_other i cs t.cells k away) (kept_apart_here k below_k away)
      | inr away ↦ elim (eq_or_ne k i) [
        | inl e ↦
            rw (e, ==-refl i, replace_other i cs t.cells j away)
              (Disjoint-sym cs (t.cells j) (kept_apart_here j below_j away))
        | inr far ↦
            rw (replace_other i cs t.cells j away, replace_other i cs t.cells k far)
              (t.apart j k below_j below_k ne)
      ]
    ]

    -- One bucket changes; the keys of the others are mapped as before.
    pub replace-Maps :
        ((k : K) → slot hash map k ≡ i → m' k ≡ lookup k (all_entries cs))
        → ((k : K) → slot hash map k ≢ i → m' k ≡ m k)
        → Maps h' map m'
    replace-Maps here other = record {
      some_buckets = t.some_buckets;
      list = t.list;
      listed = t.listed;
      distinct = t.distinct;
      cells = replace i cs t.cells;
      clean = kept_clean;
      apart = kept_apart;
      view = λ k. elim (eq_or_ne (slot hash map k) i) [
        | inl e ↦ rw (e, ==-refl i) (here k e)
        | inr ne ↦ rw (replace_other i cs t.cells (slot hash map k) ne) (other k ne ∙ t.view k)
      ];
    }
