-- ===== src/Ebr/LinkedList/Position.antt =====
-- ebr/list.rs: a list in memory, and the reading and writing of the pointer at a place in it.
use pebr_benchmark.Base.{
  get_elem?-set, ℕ, ◌≡◌, refl, ap, true, false, Option, none, some, List, [], ◌∷◌, ◌++◌, get_elem?,
  if◌then◌else◌, All-left,
}
use pebr_benchmark.Shared.{Shared, shared, ◌=ₚ◌, =ₚ-refl}
use pebr_benchmark.World.{Run, ok, fault, quiet, atomic}
use pebr_benchmark.Ebr.LinkedList.Heap.{Heap, Place, head, next_of, read, write, compare_and_set}
use pebr_benchmark.Ebr.LinkedList.Chain.{AllLive, Cell, first, Chain}
use pebr_benchmark.Ebr.LinkedList.Relink.{
  end_of, last, Apart, last-stored, Chain-relink, Apart-last,
}

module _ {K V : Type 0} where
  -- The head leads to the nodes, which have different addresses.
  pub record Linked (h : Heap K V) (list : ℕ) (cs : List (Cell K V)) : Type 0 where
    pub from : get_elem? h.heads list ≡ some (shared (first cs) 0)
    pub chain : Chain h.cells cs
    pub apart : Apart cs

  pub end_of-last :
      (p : Place) (c : Cell K V) (bs : List (Cell K V))
      → end_of p (c ∷ bs) ≡ next_of (last c bs).addr
  end_of-last p c [] = refl
  end_of-last p c (d ∷ ds) = end_of-last (next_of c.addr) d ds

  last-live : (c : Cell K V) (bs : List (Cell K V)) → AllLive (c ∷ bs) → (last c bs).marked ≡ false
  last-live c [] live = live.0
  last-live c (d ∷ ds) live = last-live d ds live.1

  pub Apart-left : (xs ys : List (Cell K V)) → Apart (xs ++ ys) → Apart xs
  Apart-left [] ys a = tt
  Apart-left (x ∷ xs) ys a = (All-left _ xs ys a.0, Apart-left xs ys a.1)

  module _ (h : Heap K V) (list : ℕ) where
    pub read-Linked :
        (before after : List (Cell K V))
        → Linked h list (before ++ after)
        → AllLive before
        → read h (end_of (head list) before) ≡ some (shared (first after) 0)
    unfolding read
    read-Linked [] after k live = k.from
    read-Linked (c ∷ bs) after k live =
        rw
          (
            end_of-last (head list) c bs,
            last-stored h.cells c bs after k.chain,
            last-live c bs live,
            read,
          )
          refl

    pub write-Linked :
        (before after after' : List (Cell K V))
        → Linked h list (before ++ after)
        → AllLive before
        → Chain h.cells after'
        → Apart (before ++ after')
        → Linked
            (write h (end_of (head list) before) (shared (first after') 0))
            list
            (before ++ after')
    unfolding write
    write-Linked [] after after' k live st apart = record {
      from = get_elem?-set h.heads list _ _ k.from;
      chain = st;
      apart = apart;
    }
    write-Linked (c ∷ bs) after after' k live st apart =
        rw (end_of-last (head list) c bs, last-stored h.cells c bs after k.chain, write)
          (record {
            from = k.from;
            chain =
                Chain-relink h.cells c bs after after' k.chain (Apart-left (c ∷ bs) after k.apart)
                  live st (Apart-last c bs after' apart);
            apart = apart;
          })

  atomic-ok :
      {A : Type 0} (f : Heap K V → Option (A × Heap K V)) (h : Heap K V) (a : A) (h' : Heap K V)
      → f h ≡ some (a, h')
      → atomic f (quiet h tt) ≡ ok a (quiet h' tt)
  atomic-ok {A = A} f h a h' e =
      ap {A = Option (A × Heap K V)}
        (λ r. elim r as (λ _. Run (Heap K V) (Unit {0}) A) [
          | none ↦ fault
          | some (b, g) ↦ ok b (quiet g tt)
        ])
        e

  pub compare_and_set-ok :
      (h : Heap K V) (place : Place) (old new : Shared)
      → read h place ≡ some old
      → compare_and_set place old new (quiet h tt) ≡ ok true (quiet (write h place new) tt)
  unfolding compare_and_set
  compare_and_set-ok h place old new e =
      atomic-ok
        (λ h. elim (read h place) [
          | none ↦ none
          | some p ↦ if p =ₚ old then some (true, write h place new) else some (false, h)
        ])
        h true (write h place new) (rw (e, =ₚ-refl old) refl)
