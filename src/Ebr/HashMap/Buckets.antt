-- ===== src/Ebr/HashMap/Buckets.antt =====
-- The buckets of ebr/michael_hash_map.rs: `get_unchecked` stays in bounds, and every bucket is a
-- list of its own.
use pebr_benchmark.Base.{
  ℕ, zero, suc, ◌+◌, ◌%◌, ◌<◌, ◌≡◌, ◌∙◌, refl, ap, some, List, [], ◌∷◌, ◌++◌, append-nil,
  append_assoc, arith, length, length-append, get_elem?, ◌==◌, false,
}
use native.Mathlib.Nat.{mod-lt}
use pebr_benchmark.Shared.{Shared, null}
use pebr_benchmark.World.{ok, quiet, ◌>>=◌}
use pebr_benchmark.Ebr.LinkedList.Heap.{Heap}
use pebr_benchmark.Ebr.LinkedList.Heap
use pebr_benchmark.Ebr.HashMap.{push_buckets, with_capacity, get_bucket}

-- The indices of `n` lists, from `start` on.
abbrev pub indices : (start n : ℕ) → List ℕ
indices start zero = []
indices start (suc n) = start ∷ indices (suc start) n

abbrev pub nulls : ℕ → List Shared
nulls zero = []
nulls (suc n) = null ∷ nulls n

pub length-indices : (start n : ℕ) → length (indices start n) ≡ n
length-indices start zero = refl
length-indices start (suc n) = ap suc (length-indices (suc start) n)

pub get_elem?-indices : (start n i : ℕ) → i < n → get_elem? (indices start n) i ≡ some (start + i)
get_elem?-indices start zero i below = elim below [ ]
get_elem?-indices start (suc n) zero below = ap some (omega arith)
get_elem?-indices start (suc n) (suc i) below =
    get_elem?-indices (suc start) n i (omega arith) ∙ ap some (omega arith)

module _ {K V : Type 0} where
  abbrev pub with_heads : Heap K V → List Shared → Heap K V
  with_heads h heads = record h { heads = heads }

  pub push_buckets-ok :
      (n : ℕ) (done : List ℕ) (h : Heap K V)
      → push_buckets n done (quiet h tt)
        ≡ ok (done ++ indices (length h.heads) n) (quiet (with_heads h (h.heads ++ nulls n)) tt)
  unfolding push_buckets Heap.new
  push_buckets-ok zero done h = rw (append-nil done, append-nil h.heads) refl
  push_buckets-ok (suc n) done h =
      let longer : length (h.heads ++ null ∷ []) ≡ suc (length h.heads) =
        omega (arith, length-append h.heads (null ∷ [])) in
      push_buckets-ok n (done ++ length h.heads ∷ []) (with_heads h (h.heads ++ null ∷ []))
      ∙ rw
          (
            longer,
            append_assoc done (length h.heads ∷ []) (indices (suc (length h.heads)) n),
            append_assoc h.heads (null ∷ []) (nulls n),
          )
          refl

  -- A new map with `n` buckets, `n` not 0, adds `n` empty lists to the heap, undisturbed; for any
  -- index its bucket is then one of these, in bounds: the list of the index's remainder by `n`.
  pub with_capacity-get_bucket :
      (n i : ℕ) (h : Heap K V)
      → 0 < n
      → (with_capacity n >>= λ map. get_bucket map i) (quiet h tt)
        ≡ ok (length h.heads + i % n) (quiet (with_heads h (h.heads ++ nulls n)) tt)
  unfolding with_capacity get_bucket
  with_capacity-get_bucket n i h pos =
      let start = length h.heads in
      let some_buckets : (n == 0) ≡ false = ground arith in
      rw
        (
          push_buckets-ok n [] h,
          length-indices start n,
          some_buckets,
          get_elem?-indices start n (i % n) (mod-lt i pos),
        )
        refl
