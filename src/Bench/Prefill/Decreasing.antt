-- ===== src/Bench/Prefill/Decreasing.antt =====
-- main.rs: the strategy that sorts the sampled keys before it inserts them.
use pebr_benchmark.Base.{
  ℕ, suc, ◌+◌, ◌≤◌, ◌≡◌, refl, ap, ◌∙◌, Bool-cases, inl, inr, List, [], ◌∷◌, ltb, ◌==◌,
  if◌then◌else◌, length, All, All-imp, arith,
}
use pebr_benchmark.Bench.Prefill.{
  PrefillStrategy, random, decreasing, insert_decreasing, sort_decreasing,
}

-- How often a number is listed.
abbrev pub times : ℕ → List ℕ → ℕ
times i [] = 0
times i (j ∷ js) = (if i == j then 1 else 0) + times i js

abbrev pub IsDecreasing : List ℕ → Type 0
IsDecreasing [] = Unit
IsDecreasing (k ∷ ks) = All (λ j. j ≤ k) ks × IsDecreasing ks

-- The order in which a strategy inserts the keys that were drawn.
abbrev pub InOrder : PrefillStrategy → (drawn keys : List ℕ) → Type 0
InOrder random drawn keys = keys ≡ drawn
InOrder decreasing drawn keys = IsDecreasing keys × ((i : ℕ) → times i keys ≡ times i drawn)

All-insert_decreasing :
    (P : ℕ → Type 0) (k : ℕ) (js : List ℕ) → P k → All P js → All P (insert_decreasing k js)
All-insert_decreasing P k [] p ps = (p, tt)
All-insert_decreasing P k (j ∷ js) p ps = elim (Bool-cases (ltb j k)) [
  | inl e ↦ rw e (p, ps)
  | inr e ↦ rw e (ps.0, All-insert_decreasing P k js p ps.1)
]

insert_decreasing-IsDecreasing :
    (k : ℕ) (js : List ℕ) → IsDecreasing js → IsDecreasing (insert_decreasing k js)
insert_decreasing-IsDecreasing k [] falls = (tt, tt)
insert_decreasing-IsDecreasing k (j ∷ js) falls = elim (Bool-cases (ltb j k)) [
  | inl e ↦
      let above : j ≤ k = ground arith in
      rw e ((above, All-imp (λ i low. omega arith) js falls.0), falls)
  | inr e ↦
      let below : k ≤ j = ground arith in
      rw e (
        All-insert_decreasing (λ i. i ≤ j) k js below falls.0,
        insert_decreasing-IsDecreasing k js falls.1,
      )
]

pub sort_decreasing-IsDecreasing : (ks : List ℕ) → IsDecreasing (sort_decreasing ks)
sort_decreasing-IsDecreasing [] = tt
sort_decreasing-IsDecreasing (k ∷ ks) =
    insert_decreasing-IsDecreasing k (sort_decreasing ks) (sort_decreasing-IsDecreasing ks)

times-insert_decreasing :
    (i k : ℕ) (js : List ℕ) → times i (insert_decreasing k js) ≡ times i (k ∷ js)
times-insert_decreasing i k [] = refl
times-insert_decreasing i k (j ∷ js) = elim (Bool-cases (ltb j k)) [
  | inl e ↦ rw e refl
  | inr e ↦ rw e (omega (arith, times-insert_decreasing i k js))
]

pub times-sort_decreasing : (i : ℕ) (ks : List ℕ) → times i (sort_decreasing ks) ≡ times i ks
times-sort_decreasing i [] = refl
times-sort_decreasing i (k ∷ ks) =
    omega (arith, times-insert_decreasing i k (sort_decreasing ks), times-sort_decreasing i ks)

length-insert_decreasing : (k : ℕ) (js : List ℕ) → length (insert_decreasing k js) ≡ suc (length js)
length-insert_decreasing k [] = refl
length-insert_decreasing k (j ∷ js) = elim (Bool-cases (ltb j k)) [
  | inl e ↦ rw e refl
  | inr e ↦ rw e (ap suc (length-insert_decreasing k js))
]

pub length-sort_decreasing : (ks : List ℕ) → length (sort_decreasing ks) ≡ length ks
length-sort_decreasing [] = refl
length-sort_decreasing (k ∷ ks) =
    length-insert_decreasing k (sort_decreasing ks) ∙ ap suc (length-sort_decreasing ks)
