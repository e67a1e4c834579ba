-- ===== src/Pebr/Result.antt =====
-- The results of pebr/ that an ejection of the thread ends.
use pebr_benchmark.World.{Cmd, and_then, pure}

-- `err` is `Err(ShieldError::Ejected)`.
pub data Result (A : Type 0) : Type 0 where
  done : A → Result A
  err : Result A

-- `match result { Ok(a) => k(a), Err(ShieldError::Ejected) => e }`
unfoldable pub on_result {ℓ} : {A : Type 0} {B : Type ℓ} → Result A → (A → B) → B → B
on_result (done a) k e = k a
on_result err k e = e

module _ {H S : Type 0} where
  abbrev pub give : {A : Type 0} → A → Cmd H S (Result A)
  give a = pure (done a)

  -- A call that cannot fail.
  abbrev pub lift : {A : Type 0} → Cmd H S A → Cmd H S (Result A)
  lift m w = and_then (m w) λ a. pure (done a)

  -- `?`
  infixl 5 ◌>>=◌ ◌>>◌
  abbrev pub ◌>>=◌ :
      {A B : Type 0} → Cmd H S (Result A) → (A → Cmd H S (Result B)) → Cmd H S (Result B)
  ◌>>=◌ m k w = and_then (m w) λ r. elim r [ done a ↦ k a | err ↦ pure err ]

  abbrev pub ◌>>◌ :
      {B : Type 0} → Cmd H S (Result (Unit {0})) → Cmd H S (Result B) → Cmd H S (Result B)
  ◌>>◌ m k = m >>= λ _. k

  -- What is done with the result in hand, be it an error or not.
  infixl 10 ◌afterwards◌
  abbrev pub ◌afterwards◌ : {A : Type 0} → Cmd H S A → Cmd H S (Unit {0}) → Cmd H S A
  ◌afterwards◌ m k w = and_then (m w) λ r v. and_then (k v) λ _. pure r
