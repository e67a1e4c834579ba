-- ===== src/Ebr/LinkedList/Relink.antt =====
-- ebr/list.rs: what a list without marked nodes is after one pointer of it is written.
use pebr_benchmark.Base.{
  ℕ, ◌≡◌, ◌≢◌, refl, ap, ◌∙◌, sym, true, false, Option, none, some, List, [], ◌∷◌, ◌++◌, ◌==◌, All,
  All-right, arith,
}
use pebr_benchmark.Ord.{Ord, ◌≺◌}
use pebr_benchmark.SortedMap.{Above, IsSorted}
use pebr_benchmark.Shared.{shared}
use pebr_benchmark.Ebr.LinkedList.Heap.{Node, Place, next_of, update}
use pebr_benchmark.Ebr.LinkedList.Chain.{AllLive, Cell, first, stored, Chain, all_entries}

module _ {K V : Type 0} where
  -- Where the pointer behind the nodes stands, from a pointer before them.
  abbrev pub end_of : Place → List (Cell K V) → Place
  end_of p [] = p
  end_of p (c ∷ cs) = end_of (next_of c.addr) cs

  abbrev pub last : Cell K V → List (Cell K V) → Cell K V
  last c [] = c
  last c (d ∷ ds) = last d ds

  -- No node is at the address.
  abbrev pub Off : ℕ → List (Cell K V) → Type 0
  Off a cs = All (λ c. c.addr ≢ a) cs

  pub Chain-update :
      (mem : ℕ → Option (Node K V)) (a : ℕ) (n : Option (Node K V)) (cs : List (Cell K V))
      → Off a cs
      → Chain mem cs
      → Chain (update mem a n) cs
  Chain-update mem a n [] off st = tt
  Chain-update mem a n (c ∷ cs) off st =
      let other : (c.addr == a) ≡ false = ground (arith, off.0) in
      (st.0, rw other st.1, Chain-update mem a n cs off.1 st.2)

  pub Chain-right :
      (mem : ℕ → Option (Node K V)) (xs ys : List (Cell K V)) → Chain mem (xs ++ ys) → Chain mem ys
  Chain-right mem [] ys st = st
  Chain-right mem (x ∷ xs) ys st = Chain-right mem xs ys st.2

  pub All-last {κ} :
      (P : Cell K V → Type κ) (c : Cell K V) (cs : List (Cell K V)) → All P (c ∷ cs) → P (last c cs)
  All-last P c [] p = p.0
  All-last P c (d ∷ ds) p = All-last P d ds p.1

  -- Addresses differ.
  abbrev pub Apart : List (Cell K V) → Type 0
  Apart [] = Unit
  Apart (c ∷ cs) = Off c.addr cs × Apart cs

  pub Apart-last :
      (c : Cell K V) (bs ys : List (Cell K V)) → Apart ((c ∷ bs) ++ ys) → Off (last c bs).addr ys
  Apart-last c [] ys a = a.0
  Apart-last c (d ∷ ds) ys a = Apart-last d ds ys a.1

  pub last-stored :
      (mem : ℕ → Option (Node K V)) (c : Cell K V) (bs after : List (Cell K V))
      → Chain mem ((c ∷ bs) ++ after)
      → mem (last c bs).addr ≡ some (stored (last c bs) after)
  last-stored mem c [] after st = st.1
  last-stored mem c (d ∷ ds) after st = last-stored mem d ds after st.2

  -- The last node of the front part is made to point to another rest.
  pub Chain-relink :
      (mem : ℕ → Option (Node K V)) (c : Cell K V) (bs after after' : List (Cell K V))
      → Chain mem ((c ∷ bs) ++ after)
      → Apart (c ∷ bs)
      → AllLive (c ∷ bs)
      → Chain mem after'
      → Off (last c bs).addr after'
      → Chain
          (update mem (last c bs).addr (
            some (record {
              next = shared (first after') 0;
              key = (last c bs).key;
              value = (last c bs).value;
            })))
          ((c ∷ bs) ++ after')
  Chain-relink mem c [] after after' st apart live st' off =
      let here : (c.addr == c.addr) ≡ true = ground arith in
      (st.0, rw (here, live.0) refl, Chain-update mem c.addr _ after' off st')
  Chain-relink mem c (d ∷ ds) after after' st apart live st' off =
      let other : (c.addr == (last d ds).addr) ≡ false =
        ground (arith, All-last (λ x. x.addr ≢ c.addr) d ds apart.0) in
      (st.0, rw other st.1, Chain-relink mem d ds after after' st.2 apart.1 live.1 st' off)

  first_same :
      (mem : ℕ → Option (Node K V)) (b : Cell K V) (bs : List (Cell K V)) (c : Cell K V)
      → (rest : List (Cell K V)) → mem b.addr ≡ some (stored b (bs ++ c ∷ rest))
      → mem b.addr ≡ some (stored b (bs ++ record c { marked = true } ∷ rest))
  first_same mem b [] c rest e = e
  first_same mem b (d ∷ ds) c rest e = e

  Off-mark :
      (a : ℕ) (before : List (Cell K V)) (c : Cell K V) (rest : List (Cell K V))
      → Off a (before ++ c ∷ rest)
      → Off a (before ++ record c { marked = true } ∷ rest)
  Off-mark a [] c rest off = off
  Off-mark a (b ∷ bs) c rest off = (off.0, Off-mark a bs c rest off.1)

  pub Apart-mark :
      (before : List (Cell K V)) (c : Cell K V) (rest : List (Cell K V))
      → Apart (before ++ c ∷ rest)
      → Apart (before ++ record c { marked = true } ∷ rest)
  Apart-mark [] c rest a = a
  Apart-mark (b ∷ bs) c rest a = (Off-mark b.addr bs c rest a.0, Apart-mark bs c rest a.1)

  -- A node of the list is marked.
  pub Chain-mark :
      (mem : ℕ → Option (Node K V)) (before : List (Cell K V)) (c : Cell K V)
      → (rest : List (Cell K V)) → Chain mem (before ++ c ∷ rest)
      → Apart (before ++ c ∷ rest)
      → Chain
          (update mem c.addr (some (stored (record c { marked = true }) rest)))
          (before ++ record c { marked = true } ∷ rest)
  Chain-mark mem [] c rest st apart =
      let here : (c.addr == c.addr) ≡ true = ground arith in
      (st.0, rw here refl, Chain-update mem c.addr _ rest apart.0 st.2)
  Chain-mark mem (b ∷ bs) c rest st apart =
      let other : (b.addr == c.addr) ≡ false =
        ground (arith, (All-right (λ x. x.addr ≢ b.addr) bs (c ∷ rest) apart.0).0) in
      (st.0, rw other (first_same mem b bs c rest st.1), Chain-mark mem bs c rest st.2 apart.1)

module _ {K V : Type 0} ⦃o : Ord K⦄ where
  not_same_key :
      (mem : ℕ → Option (Node K V)) (c d : Cell K V) (rest ds : List (Cell K V))
      → mem c.addr ≡ some (stored c rest)
      → mem d.addr ≡ some (stored d ds)
      → c.key ≺ d.key
      → d.addr ≢ c.addr
  not_same_key mem c d rest ds here there less e =
      let same : d.key ≡ c.key =
        ap {A = Option (Node K V)} (λ n. elim n [ none ↦ c.key | some m ↦ m.key ])
          (sym there ∙ ap mem e ∙ here) in
      let self = o.cmp_self c.key in grind (arith, ap (λ k. o.cmp c.key k) same)

  Above-Off :
      (mem : ℕ → Option (Node K V)) (c : Cell K V) (rest cs : List (Cell K V))
      → mem c.addr ≡ some (stored c rest)
      → Chain mem cs
      → Above c.key (all_entries cs)
      → Off c.addr cs
  Above-Off mem c rest [] here st above = tt
  Above-Off mem c rest (d ∷ ds) here st above =
      (not_same_key mem c d rest ds here st.1 above.0, Above-Off mem c rest ds here st.2 above.1)

  pub rising-Apart :
      (mem : ℕ → Option (Node K V)) (cs : List (Cell K V))
      → Chain mem cs
      → IsSorted (all_entries cs)
      → Apart cs
  rising-Apart mem [] st so = tt
  rising-Apart mem (c ∷ cs) st so =
      (Above-Off mem c cs cs st.1 st.2 so.0, rising-Apart mem cs st.2 so.1)
