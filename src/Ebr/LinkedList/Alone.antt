-- ===== src/Ebr/LinkedList/Alone.antt =====
-- ebr/list.rs: what an operation on one list leaves of the heap that other lists share.
use pebr_benchmark.Base.{
  get_elem?-set_ne, ℕ, ◌≤◌, ◌<◌, ◌≡◌, ◌≢◌, refl, ap, ◌∙◌, none, some, Option, List, [], ◌∷◌, ◌++◌,
  get_elem?, All-left, arith,
}
use pebr_benchmark.Shared.{Shared}
use pebr_benchmark.Ebr.LinkedList.Heap.{Node, Heap, head, next_of, write, update}
use pebr_benchmark.Ebr.LinkedList.Chain.{Cell}
use pebr_benchmark.Ebr.LinkedList.Relink.{end_of, last, Off, All-last}
use pebr_benchmark.Ebr.LinkedList.Position.{end_of-last}

module _ {K V : Type 0} where
  -- Only the head of the list, its nodes and addresses from `limit` on are written, and only such
  -- addresses join its nodes.
  pub record Alone (limit : ℕ) (h h' : Heap K V) (list : ℕ) (cs cs' : List (Cell K V))
      : Type 0 where
    pub heads : (i : ℕ) → i ≢ list → get_elem? h'.heads i ≡ get_elem? h.heads i
    pub cells : (a : ℕ) → a < limit → Off a cs → h'.cells a ≡ h.cells a
    pub grows : h.fresh ≤ h'.fresh
    pub joined : (a : ℕ) → a < limit → Off a cs → Off a cs'

  pub Alone-refl :
      {limit : ℕ} (h : Heap K V) (list : ℕ) (cs : List (Cell K V)) → Alone limit h h list cs cs
  Alone-refl h list cs = record {
    heads = λ i ne. refl;
    cells = λ a low off. refl;
    grows = omega arith;
    joined = λ a low off. off;
  }

  pub Alone-trans :
      {limit : ℕ} {h h' h'' : Heap K V} {list : ℕ} {cs cs' cs'' : List (Cell K V)}
      → Alone limit h h' list cs cs'
      → Alone limit h' h'' list cs' cs''
      → Alone limit h h'' list cs cs''
  Alone-trans p q = record {
    heads = λ i ne. q.heads i ne ∙ p.heads i ne;
    cells = λ a low off. q.cells a low (p.joined a low off) ∙ p.cells a low off;
    grows = omega (arith, p.grows, q.grows);
    joined = λ a low off. q.joined a low (p.joined a low off);
  }

  write_node :
      (h : Heap K V) (b : ℕ) (q : Shared)
      → ((write h (next_of b) q).heads ≡ h.heads)
        × ((write h (next_of b) q).fresh ≡ h.fresh)
        × ((a : ℕ) → b ≢ a → (write h (next_of b) q).cells a ≡ h.cells a)
  unfolding write
  write_node h b q = go (h.cells b)
    where
      go :
          (o : Option (Node K V))
          → let h' : Heap K V = elim o as (λ _. Heap K V) [
            | none ↦ h
            | some n ↦ record h { cells = update h.cells b (some (record n { next = q })) }
          ] in
            (h'.heads ≡ h.heads) × (h'.fresh ≡ h.fresh) × ((a : ℕ) → b ≢ a → h'.cells a ≡ h.cells a)
      go none = (refl, refl, λ a ne. refl)
      go (some n) = (refl, refl, λ a ne. ground arith)

  -- A pointer of the list is written.
  pub write-Alone :
      {limit : ℕ} (h : Heap K V) (list : ℕ) (q : Shared) (before after : List (Cell K V))
      → Alone limit h
          (write h (end_of (head list) before) q)
          list
          (before ++ after)
          (before ++ after)
  unfolding write
  write-Alone h list q [] after = record {
    heads = λ i ne. get_elem?-set_ne h.heads list i q ne;
    cells = λ a low off. refl;
    grows = omega arith;
    joined = λ a low off. off;
  }
  write-Alone h list q (c ∷ bs) after = rw (end_of-last (head list) c bs) (
      let (same_heads, same_fresh, same) = write_node h (last c bs).addr q in
      record {
        heads = λ i ne. ap (λ hs. get_elem? hs i) same_heads;
        cells =
            λ a low off. same a (All-last (λ x. x.addr ≢ a) c bs (All-left _ (c ∷ bs) after off));
        grows = omega (arith, same_fresh);
        joined = λ a low off. off;
      })

  pub update-Alone :
      {limit : ℕ} (h : Heap K V) (list b : ℕ) (n : Option (Node K V)) (cs : List (Cell K V))
      → ((a : ℕ) → a < limit → Off a cs → b ≢ a)
      → Alone limit h (record h { cells = update h.cells b n }) list cs cs
  update-Alone h list b n cs away = record {
    heads = λ i ne. refl;
    cells = λ a low off. let ne = away a low off in ground arith;
    grows = omega arith;
    joined = λ a low off. off;
  }
