-- ===== src/Ord.antt =====
-- The bound `K: Ord` of every map: three-way comparison with the laws that the trait documents.
use Prim.Native.Nat.{compare, Ordering}
use Prim.Native.Nat.Ordering.{lt, eq, gt}
use pebr_benchmark.Base.{ℕ, ◌≡◌, refl, ◌⊎◌, inl, inr, arith}

pub Ordering-cases : (c : Ordering) → (c ≡ lt) ⊎ (c ≡ eq) ⊎ (c ≡ gt)
Ordering-cases lt = inl refl
Ordering-cases eq = inr (inl refl)
Ordering-cases gt = inr (inr refl)

pub record Ord (K : Type 0) : Type 0 where
  pub cmp : K → K → Ordering
  pub cmp_self : (a : K) → cmp a a ≡ eq
  pub cmp_eq : (a b : K) → cmp a b ≡ eq → a ≡ b
  pub cmp_gt : (a b : K) → cmp a b ≡ gt → cmp b a ≡ lt
  pub cmp_lt : (a b : K) → cmp a b ≡ lt → cmp b a ≡ gt
  pub cmp_trans : (a b c : K) → cmp a b ≡ lt → cmp b c ≡ lt → cmp a c ≡ lt

infix 50 ◌≺◌
abbrev pub ◌≺◌ : {K : Type 0} ⦃o : Ord K⦄ → K → K → Type 0
◌≺◌ ⦃o⦄ a b = o.cmp a b ≡ lt

pub compare_self : (a : ℕ) → compare a a ≡ eq
compare_self a = ground arith

pub eq_of_compare : (a b : ℕ) → compare a b ≡ eq → a ≡ b
eq_of_compare a b h = ground arith

pub compare-gt : (a b : ℕ) → compare a b ≡ gt → compare b a ≡ lt
compare-gt a b h = ground arith

pub compare-lt : (a b : ℕ) → compare a b ≡ lt → compare b a ≡ gt
compare-lt a b h = ground arith

pub compare_trans : (a b c : ℕ) → compare a b ≡ lt → compare b c ≡ lt → compare a c ≡ lt
compare_trans a b c h k = ground arith

-- The keys of the tests.
instance abbrev pub nat_ord : Ord ℕ
nat_ord = record {
  cmp = compare;
  cmp_self = compare_self;
  cmp_eq = eq_of_compare;
  cmp_gt = compare-gt;
  cmp_lt = compare-lt;
  cmp_trans = compare_trans;
}

-- `match a.cmp(b)`
unfoldable pub by_order {ℓ} : {A : Type ℓ} → Ordering → (less equal greater : A) → A
by_order lt less equal greater = less
by_order eq less equal greater = equal
by_order gt less equal greater = greater
