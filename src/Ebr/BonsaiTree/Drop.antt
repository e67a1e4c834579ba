-- ===== src/Ebr/BonsaiTree/Drop.antt =====
-- `Drop` of ebr/bonsai_tree.rs frees the nodes of the tree, each once.
use pebr_benchmark.Base.{
  ℕ, zero, suc, ◌+◌, ◌*◌, ◌<◌, ◌≤◌, ◌≡◌, refl, inl, inr, none, List, [], ◌∷◌, All, arith,
  zero_or_pos,
}
use pebr_benchmark.Ord.{Ord}
use pebr_benchmark.SortedMap.{Entries}
use pebr_benchmark.Shared.{Shared, shared, count, hit_self, hit_ne}
use pebr_benchmark.World.{quiet}
use pebr_benchmark.World.Returns
use pebr_benchmark.World.Returns.{Returns, returns}
use pebr_benchmark.Ebr.BonsaiTree.Node.{Heap, State}
use pebr_benchmark.Ebr.BonsaiTree.State.{new_state}
use pebr_benchmark.Ebr.BonsaiTree.Map.{drop_loop, drop}
use pebr_benchmark.Ebr.BonsaiTree.Tree.{
  Tree, leaf, node, size, occ, ptr, cell, Stored, not_null, load_left-ok, load_right-ok,
}
use pebr_benchmark.Ebr.BonsaiTree.Abort.{freeing, free-ok}
use pebr_benchmark.Ebr.BonsaiTree.Owns.{Stored-frame, occ-IsAllocated, allocated_below}
use pebr_benchmark.Ebr.BonsaiTree.Update.{Holds, start, load_root-ok}

module _ {K V : Type 0} where
  abbrev pointers : List (Tree K V) → List Shared
  pointers [] = []
  pointers (t ∷ ts) = ptr t ∷ pointers ts

  abbrev occs : ℕ → List (Tree K V) → ℕ
  occs a [] = 0
  occs a (t ∷ ts) = occ a t + occs a ts

  -- A round of the loop for each node and each null pointer.
  abbrev rounds_of : List (Tree K V) → ℕ
  rounds_of [] = 0
  rounds_of (t ∷ ts) = suc (size t + size t) + rounds_of ts

  record Dropped (ts : List (Tree K V)) (h h' : Heap K V) : Type 0 where
    pub same_deferred : h'.deferred ≡ h.deferred
    pub others : (a : ℕ) → occs a ts ≡ 0 → h'.cells a ≡ h.cells a
    pub gone : (a : ℕ) → 0 < occs a ts → h'.cells a ≡ none

  Stored-freeing :
      (h : Heap K V) (a : ℕ) (ts : List (Tree K V))
      → occs a ts ≡ 0
      → All (Stored h.cells) ts
      → All (Stored (freeing h (shared a 0)).cells) ts
  Stored-freeing h a [] out st = tt
  Stored-freeing h a (t ∷ ts) out st = (
    Stored-frame t (λ b o. ground (arith, out, o)) st.0,
    Stored-freeing h a ts (omega arith) st.1,
  )

  drop_loop-Dropped :
      (fuel : ℕ) (ts : List (Tree K V)) (h : Heap K V) (s : State)
      → rounds_of ts < fuel
      → All (Stored h.cells) ts
      → ((a : ℕ) → occs a ts ≤ 1)
      → Returns (λ _ h' s'. Dropped ts h h') (drop_loop fuel (pointers ts) (quiet h s))
  unfolding drop_loop
  drop_loop-Dropped zero ts h s f st once = absurd (omega arith)
  drop_loop-Dropped (suc fuel) [] h s f st once = returns (record {
    same_deferred = refl;
    others = λ a out. refl;
    gone = λ a pos. absurd (omega arith);
  })
  drop_loop-Dropped (suc fuel) (leaf ∷ ts) h s f st once =
      Returns.weaken (drop_loop-Dropped fuel ts h s (omega arith) st.1 λ a. omega (arith, once a))
        λ _ h' s' d. record {
          same_deferred = d.same_deferred;
          others = λ a out. d.others a (omega arith);
          gone = λ a pos. d.gone a (omega arith);
        }
  drop_loop-Dropped (suc fuel) (node a l k v r ∷ ts) h s f st once =
      let absent : occs a (r ∷ l ∷ ts) ≡ 0 = omega (arith, once a, hit_self a) in
      rw
        (
          not_null a st.0.0,
          load_left-ok h s a l k v r st.0,
          load_right-ok h s a l k v r st.0,
          free-ok h s (shared a 0) (cell l k v r, st.0.1),
        )
        (Returns.weaken
          (drop_loop-Dropped fuel (r ∷ l ∷ ts) (freeing h (shared a 0)) s (omega arith)
            (Stored-freeing h a (r ∷ l ∷ ts) absent (st.0.3, (st.0.2, st.1)))
            λ b. omega (arith, once b))
          λ _ h' s' d. record {
            same_deferred = d.same_deferred;
            others = λ b out. ground (arith, d.others b, hit_self b);
            gone = λ b pos. elim (zero_or_pos (occs b (r ∷ l ∷ ts))) [
              | inl last ↦ ground (arith, d.others b, hit_ne b a)
              | inr again ↦ d.gone b again
            ];
          })

module _ {K V : Type 0} ⦃o : Ord K⦄ (fuel : ℕ) {h : Heap K V} {xs : Entries K V} (m : Holds h xs)
    (enough : 2 * size m.tree + 1 < fuel) where
  open m use {tree, owns}

  once : (a : ℕ) → occs a (tree ∷ []) ≤ 1
  once a = elim (zero_or_pos (occ a tree)) [
    | inl out ↦ omega arith
    | inr inside ↦
        let (pos, alloc) = occ-IsAllocated h tree a owns.stored inside in
        let below = allocated_below h new_state a (start owns) alloc in
        omega (arith, owns.accounted a pos below)
  ]

  -- Undisturbed, on a map that holds entries, with fuel above twice the number of its nodes and
  -- one: `drop` returns, every allocated node that was not given to the collector is freed, and
  -- those that were are as before, still with the collector.
  pub drop-frees :
      Returns
        (λ _ h' s'.
          (h'.deferred ≡ h.deferred)
          × ((a : ℕ) → 0 < a → a < h.fresh → count a h.deferred ≡ 0 → h'.cells a ≡ none)
          × ((a : ℕ) → 0 < count a h.deferred → h'.cells a ≡ h.cells a))
        (drop fuel (quiet h new_state))
  unfolding drop
  drop-frees = rw (load_root-ok h new_state (ptr tree) owns.root) (
      Returns.weaken
        (drop_loop-Dropped fuel (tree ∷ []) h new_state (omega arith) (owns.stored, tt) once)
        λ _ h' s' d. (
          d.same_deferred,
          λ a pos below out. d.gone a (omega (arith, owns.accounted a pos below)),
          λ a given.
              let (pos, below) = owns.only a given in
              d.others a (omega (arith, owns.accounted a pos below)),
        ))
