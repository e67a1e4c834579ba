-- ===== src/Ebr/BonsaiTree/Abort.antt =====
-- `abort` of ebr/bonsai_tree.rs: an attempt that lost the race leaves the map as it found it.
use pebr_benchmark.Base.{
  ℕ, ◌<◌, ◌≤◌, ◌≡◌, ◌∙◌, refl, inl, inr, none, List, [], ◌∷◌, arith, ◌==◌, Bool-cases, lt_or_ge,
  zero_or_pos, sym,
}
use pebr_benchmark.Shared.{Shared, count, hit_self, hit_ne}
use pebr_benchmark.World.{ok, quiet}
use pebr_benchmark.World.Returns
use pebr_benchmark.World.Returns.{Returns, returns}
use pebr_benchmark.Ebr.BonsaiTree.Node.{Heap, State, update, free}
use pebr_benchmark.Ebr.BonsaiTree.State.{new_state, abort, free_all}
use pebr_benchmark.Ebr.BonsaiTree.Made.{IsGood, Grows}
use pebr_benchmark.Ebr.BonsaiTree.Commit.{IsAllocated}

module _ {K V : Type 0} where
  record Freed (ps : List Shared) (h h' : Heap K V) : Type 0 where
    pub same_root : h'.root ≡ h.root
    pub same_deferred : h'.deferred ≡ h.deferred
    pub others : (a : ℕ) → count a ps ≡ 0 → h'.cells a ≡ h.cells a
    pub gone : (a : ℕ) → 0 < count a ps → h'.cells a ≡ none

  abbrev pub freeing : Heap K V → Shared → Heap K V
  freeing h p = record h { cells = update h.cells p.addr none }

  pub free-ok :
      (h : Heap K V) (s : State) (p : Shared)
      → IsAllocated h p.addr
      → free p (quiet h s) ≡ ok tt (quiet (freeing h p) s)
  unfolding free
  free-ok h s p (n, e) = rw e

  free_all-Freed :
      (ps : List Shared) (h : Heap K V) (s : State)
      → ((a : ℕ) → count a ps ≤ 1)
      → ((a : ℕ) → 0 < count a ps → IsAllocated h a)
      → Returns (λ _ h' s'. Freed ps h h' × (s' ≡ s)) (free_all ps (quiet h s))
  unfolding free_all count
  free_all-Freed [] h s once alloc = returns (
    record {
      same_root = refl;
      same_deferred = refl;
      others = λ a e. refl;
      gone = λ a e. absurd (omega arith);
    },
    refl,
  )
  free_all-Freed (p ∷ ps) h s once alloc =
      rw (free-ok h s p (alloc p.addr (omega (arith, hit_self p.addr)))) (
        Returns.weaken
          (free_all-Freed ps (freeing h p) s (λ a. omega (arith, once a))
            λ a pos. elim (Bool-cases (a == p.addr)) [
              | inl e ↦ absurd (ground (arith, once a, hit_self a))
              | inr e ↦ let (n, c) = alloc a (omega arith) in (n, rw e c)
            ])
          λ _ h' s' (f, same). (
            record {
              same_root = f.same_root;
              same_deferred = f.same_deferred;
              others = λ a out. ground (arith, f.others a, hit_self a);
              gone = λ a pos. elim (zero_or_pos (count a ps)) [
                | inr again ↦ f.gone a again
                | inl last ↦ ground (arith, f.others a, hit_ne a p.addr)
              ];
            },
            same,
          ))

-- From the heap `h` to the heap `h'`: no node that `h` can reach is changed, and no other is left.
module _ {K V : Type 0} where
  pub record Restored (h h' : Heap K V) : Type 0 where
    pub same_root : h'.root ≡ h.root
    pub same_deferred : h'.deferred ≡ h.deferred
    pub same_cells : (a : ℕ) → 0 < a → h'.cells a ≡ h.cells a

module _ {K V : Type 0} {h h' : Heap K V} {s' : State} (start : IsGood h.fresh h new_state)
    (grows : Grows h.fresh h h' s') where
  new_once : (a : ℕ) → count a s'.new_nodes ≤ 1
  new_once a = elim (lt_or_ge a h.fresh) [
    | inl old ↦ omega (arith, grows.good.old a old)
    | inr new ↦ elim (lt_or_ge a h'.fresh) [
      | inl below ↦ omega (arith, grows.good.once a new below)
      | inr beyond ↦ omega (arith, grows.good.future a beyond)
    ]
  ]

  new-IsAllocated : (a : ℕ) → 0 < count a s'.new_nodes → IsAllocated h' a
  new-IsAllocated a pos = elim (lt_or_ge a h.fresh) [
    | inl old ↦ absurd (omega (arith, grows.good.old a old))
    | inr new ↦ elim (lt_or_ge a h'.fresh) [
      | inl below ↦ grows.good.live a (omega (arith, start.positive)) below
      | inr beyond ↦ absurd (omega (arith, grows.good.future a beyond))
    ]
  ]

  same_cell :
      {h'' : Heap K V} → Freed s'.new_nodes h' h'' → (a : ℕ) → 0 < a → h''.cells a ≡ h.cells a
  same_cell f a pos = elim (lt_or_ge a h.fresh) [
    | inl old ↦
        let (n, e) = start.live a pos old in
        f.others a (grows.good.old a old) ∙ grows.keeps a n e ∙ sym e
    | inr new ↦ elim (lt_or_ge a h'.fresh) [
      | inl below ↦ f.gone a (omega (arith, grows.good.once a new below)) ∙ sym (start.unused a new)
      | inr beyond ↦
          f.others a (grows.good.future a beyond)
          ∙ grows.good.unused a beyond
          ∙ sym (start.unused a new)
    ]
  ]

  pub abort-Restored :
      Returns (λ _ h'' s''. Restored h h'' × (s'' ≡ new_state)) (abort (quiet h' s'))
  unfolding abort
  abort-Restored =
      Returns.weaken (free_all-Freed s'.new_nodes h' new_state new_once new-IsAllocated)
        λ _ h'' s'' (f, same). (
          record {
            same_root = f.same_root ∙ grows.same_root;
            same_deferred = f.same_deferred ∙ grows.same_deferred;
            same_cells = same_cell f;
          },
          same,
        )
