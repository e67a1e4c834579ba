-- ===== src/Ebr/HashMap/Empty.antt =====
-- ebr/michael_hash_map.rs: a new map.
use pebr_benchmark.Base.{
  ℕ, zero, suc, ◌+◌, ◌<◌, ◌≡◌, ◌∙◌, refl, none, some, List, [], ◌∷◌, ◌++◌, length, get_elem?, ap,
  arith,
}
use pebr_benchmark.Ord.{Ord}
use pebr_benchmark.SortedMap.{lookup}
use pebr_benchmark.Shared.{null}
use pebr_benchmark.World.{quiet}
use pebr_benchmark.World.Returns.{Returns, returns}
use pebr_benchmark.Ebr.LinkedList.Heap.{Heap}
use pebr_benchmark.Ebr.LinkedList.Update.{Clean}
use pebr_benchmark.Ebr.HashMap.{HashMap, with_capacity}
use pebr_benchmark.Ebr.HashMap.Buckets.{
  indices, nulls, length-indices, get_elem?-indices, with_heads, push_buckets-ok,
}
use pebr_benchmark.Ebr.HashMap.Table.{Maps}

get_elem?-append {ℓ} :
    {A : Type ℓ} (xs ys : List A) (i : ℕ) → get_elem? (xs ++ ys) (length xs + i) ≡ get_elem? ys i
get_elem?-append [] ys i = ap (λ j. get_elem? ys j) (omega arith)
get_elem?-append (x ∷ xs) ys i =
    let shifted : length (x ∷ xs) + i ≡ suc (length xs + i) = omega arith in
    ap (λ j. get_elem? (x ∷ (xs ++ ys)) j) shifted ∙ get_elem?-append xs ys i

get_elem?-nulls : (n i : ℕ) → i < n → get_elem? (nulls n) i ≡ some null
get_elem?-nulls zero i low = elim low [ ]
get_elem?-nulls (suc n) zero low = refl
get_elem?-nulls (suc n) (suc i) low = get_elem?-nulls n i (omega arith)

module _ {K V : Type 0} ⦃o : Ord K⦄ (hash : K → ℕ) (n : ℕ) (h : Heap K V) (pos : 0 < n)
    (allocates : 0 < h.fresh) where
  abbrev new_map : HashMap
  new_map = record { buckets = indices (length h.heads) n }

  new_Clean : (i : ℕ) → i < n → Clean (with_heads h (h.heads ++ nulls n)) (length h.heads + i) []
  new_Clean i low = record {
    linked = record {
      from = get_elem?-append h.heads (nulls n) i ∙ get_elem?-nulls n i low;
      chain = tt;
      apart = tt;
    };
    live = tt;
    rising = tt;
    bounded = tt;
    allocates = allocates;
  }

  new_Maps : Maps hash (with_heads h (h.heads ++ nulls n)) new_map (λ k. none)
  unfolding lookup
  new_Maps =
      let number = length-indices (length h.heads) n in
      record {
        some_buckets = omega (arith, number, pos);
        list = λ i. length h.heads + i;
        listed = λ i low. get_elem?-indices (length h.heads) n i (omega (arith, number));
        distinct = λ i j low_i low_j ne e. ne (omega (arith, e));
        cells = λ i. [];
        clean = λ i low. new_Clean i (omega (arith, number));
        apart = λ i j low_i low_j ne. tt;
        view = λ k. refl;
      }

  -- Undisturbed, on a heap whose allocator does not hand out null: with_capacity of a number
  -- that is not 0 returns a hash map that stands for the empty dictionary, whatever the hash.
  pub with_capacity-Maps :
      Returns (λ map h' s'. Maps hash h' map (λ k. none)) (with_capacity n (quiet h tt))
  unfolding with_capacity
  with_capacity-Maps = rw (push_buckets-ok n [] h) (returns new_Maps)
