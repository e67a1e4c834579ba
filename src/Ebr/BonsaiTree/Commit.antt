-- ===== src/Ebr/BonsaiTree/Commit.antt =====
-- `commit` of ebr/bonsai_tree.rs marks the retired nodes and hands them to the collector.
use pebr_benchmark.Base.{
  ℕ, ◌+◌, ◌<◌, ◌≡◌, refl, inl, inr, some, List, [], ◌∷◌, arith, ◌==◌, Bool-cases, ltb, ==-refl,
}
use pebr_benchmark.Shared.{Shared, count, hit_self, hit_ne}
use pebr_benchmark.World.{ok, quiet}
use pebr_benchmark.World.Returns
use pebr_benchmark.World.Returns.{Returns, returns}
use pebr_benchmark.Ebr.BonsaiTree.Node.{
  Node, Heap, State, update, store_left, store_right, defer_destroy, retired_node,
}
use pebr_benchmark.Ebr.BonsaiTree.State.{retire_all}

module _ {K V : Type 0} where
  abbrev pub IsAllocated : Heap K V → ℕ → Type 0
  IsAllocated h a = (n : Node K V) × (h.cells a ≡ some n)

  -- Both child pointers of a node carry the retired mark.
  abbrev pub IsMarked : Heap K V → ℕ → Type 0
  IsMarked h a =
      (n : Node K V) × (h.cells a ≡ some n) × (n.left ≡ retired_node) × (n.right ≡ retired_node)

  pub record Retired (ps : List Shared) (h h' : Heap K V) : Type 0 where
    pub same_root : h'.root ≡ h.root
    pub same_fresh : h'.fresh ≡ h.fresh
    pub deferred : (a : ℕ) → count a h'.deferred ≡ count a h.deferred + count a ps
    pub others : (a : ℕ) → count a ps ≡ 0 → h'.cells a ≡ h.cells a
    pub marked : (a : ℕ) → 0 < count a ps → IsMarked h' a

  abbrev mark : Node K V → Node K V
  mark n = record n { left = retired_node; right = retired_node }

  abbrev written : Heap K V → Shared → Node K V → Heap K V
  written h p n = record h { cells = update h.cells p.addr (some n) }

  abbrev marking : Heap K V → Shared → Node K V → Heap K V
  marking h p n = record h {
    cells =
        update (update h.cells p.addr (some (record n { left = retired_node }))) p.addr
          (some (mark n));
    deferred = p ∷ h.deferred;
  }

  store_left-ok :
      (h : Heap K V) (s : State) (p q : Shared) (n : Node K V)
      → h.cells p.addr ≡ some n
      → store_left p q (quiet h s) ≡ ok tt (quiet (written h p (record n { left = q })) s)
  unfolding store_left
  store_left-ok h s p q n e = rw e

  store_right-ok :
      (h : Heap K V) (s : State) (p q : Shared) (n : Node K V)
      → h.cells p.addr ≡ some n
      → store_right p q (quiet h s) ≡ ok tt (quiet (written h p (record n { right = q })) s)
  unfolding store_right
  store_right-ok h s p q n e = rw e

  retire_one :
      (h : Heap K V) (s : State) (p : Shared) (ps : List Shared) (n : Node K V)
      → h.cells p.addr ≡ some n
      → retire_all (p ∷ ps) (quiet h s) ≡ retire_all ps (quiet (marking h p n) s)
  unfolding retire_all defer_destroy
  retire_one h s p ps n e =
      let n' = record n { left = retired_node } in
      let again : (written h p n').cells p.addr ≡ some n' = rw (==-refl p.addr) in
      rw (
        store_left-ok h s p retired_node n e,
        store_right-ok (written h p n') s p retired_node n' again,
      )

  pub retire_all-Retired :
      (ps : List Shared) (h : Heap K V) (s : State)
      → ((a : ℕ) → 0 < count a ps → IsAllocated h a)
      → Returns (λ _ h' s'. Retired ps h h' × (s' ≡ s)) (retire_all ps (quiet h s))
  unfolding retire_all count
  retire_all-Retired [] h s alloc = returns (
    record {
      same_root = refl;
      same_fresh = refl;
      deferred = λ a. omega arith;
      others = λ a e. refl;
      marked = λ a e. absurd (omega arith);
    },
    refl,
  )
  retire_all-Retired (p ∷ ps) h s alloc =
      let (n, e) = alloc p.addr (omega (arith, hit_self p.addr)) in
      rw (retire_one h s p ps n e) (
        Returns.weaken (retire_all-Retired ps (marking h p n) s (allocated n)) λ _ h' s' (r, same).
          (
            record {
              same_root = r.same_root;
              same_fresh = r.same_fresh;
              deferred = λ a. omega (arith, r.deferred a);
              others = λ a out. ground (arith, r.others a, hit_self a);
              marked = λ a pos. elim (Bool-cases (ltb 0 (count a ps))) [
                | inl again ↦ r.marked a (ground arith)
                | inr last ↦ (mark n, ground (arith, r.others a, hit_ne a p.addr), refl, refl)
              ];
            },
            same,
          ))
    where
      allocated : (n : Node K V) (a : ℕ) → 0 < count a ps → IsAllocated (marking h p n) a
      allocated n a pos = elim (Bool-cases (a == p.addr)) [
        | inl e ↦ (mark n, rw e)
        | inr e ↦ let (m, f) = alloc a (omega arith) in (m, rw e f)
      ]
