-- ===== src/Shared.antt =====
-- Tagged pointers of crossbeam: an address and the tag in its low bits.
use pebr_benchmark.Base.{
  true, ℕ, ◌+◌, ◌≡◌, refl, ◌≢◌, Bool, List, [], ◌∷◌, ◌++◌, arith, ◌==◌, ◌&&◌, if◌then◌else◌,
}

pub record Shared : Type 0 where
  pub addr : ℕ
  pub tag : ℕ

abbrev pub shared : ℕ → ℕ → Shared
shared a t = record { addr = a; tag = t }

abbrev pub null : Shared
null = shared 0 0

-- `is_null` and `as_ref` look at the address alone, `==` and `compare_and_set` at the tag too.
abbrev pub is_null : Shared → Bool
is_null p = p.addr == 0

abbrev pub with_tag : Shared → ℕ → Shared
with_tag p t = shared p.addr t

infix 50 ◌=ₚ◌
abbrev pub ◌=ₚ◌ : Shared → Shared → Bool
p =ₚ q = (p.addr == q.addr) && (p.tag == q.tag)

pub =ₚ-refl : (p : Shared) → (p =ₚ p) ≡ true
=ₚ-refl p = ground arith

unfoldable pub hit : ℕ → ℕ → ℕ
hit a b = if a == b then 1 else 0

-- How often an address stands in a vector of pointers.
unfoldable pub count : ℕ → List Shared → ℕ
count a [] = 0
count a (p ∷ ps) = hit a p.addr + count a ps

pub hit_self : (a : ℕ) → hit a a ≡ 1
unfolding hit
hit_self a = ground arith

pub hit_ne : (a b : ℕ) → a ≢ b → hit a b ≡ 0
unfolding hit
hit_ne a b h = ground arith

pub count-snoc :
    (a : ℕ) (ps : List Shared) (p : Shared) → count a (ps ++ p ∷ []) ≡ count a ps + hit a p.addr
unfolding count
count-snoc a [] p = omega arith
count-snoc a (q ∷ ps) p = omega (arith, count-snoc a ps p)

pub count_nil : (a : ℕ) → count a [] ≡ 0
unfolding count
count_nil a = refl
