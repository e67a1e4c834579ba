-- ===== src/Ebr/BonsaiTree/Owns.antt =====
-- ebr/bonsai_tree.rs: the fate of every allocated node. It is in the tree, or it was given to the
-- collector once, and `commit` keeps it so.
use pebr_benchmark.Base.{
  ℕ, ◌+◌, ◌≤◌, ◌<◌, ◌≡◌, ◌∙◌, inl, inr, Option, none, arith, zero_or_pos, eq_or_ne, lt_or_ge,
}
use pebr_benchmark.SortedMap.{Entries}
use pebr_benchmark.Shared.{Shared, count, count_nil, hit_self, hit_ne}
use pebr_benchmark.World.{quiet}
use pebr_benchmark.World.Returns
use pebr_benchmark.World.Returns.{Returns}
use pebr_benchmark.Ebr.BonsaiTree.Node.{Node, Heap, State}
use pebr_benchmark.Ebr.BonsaiTree.State.{new_state, commit}
use pebr_benchmark.Ebr.BonsaiTree.Tree.{Tree, leaf, node, occ, ptr, cell, Stored}
use pebr_benchmark.Ebr.BonsaiTree.Made.{IsGood, Made}
use pebr_benchmark.Ebr.BonsaiTree.Commit.{IsAllocated, IsMarked, Retired, retire_all-Retired}

module _ {K V : Type 0} where
  -- The root leads to the tree `t`, and every allocated address occurs exactly once: in the tree,
  -- or among the nodes that the collector was given, which then carry the mark.
  pub record Owns (h : Heap K V) (t : Tree K V) : Type 0 where
    pub root : h.root ≡ ptr t
    pub stored : Stored h.cells t
    pub positive : 0 < h.fresh
    pub live : (a : ℕ) → 0 < a → a < h.fresh → IsAllocated h a
    pub unused : (a : ℕ) → h.fresh ≤ a → h.cells a ≡ none
    pub accounted : (a : ℕ) → 0 < a → a < h.fresh → occ a t + count a h.deferred ≡ 1
    pub only : (a : ℕ) → 0 < count a h.deferred → (0 < a) × (a < h.fresh)
    pub marked : (a : ℕ) → 0 < count a h.deferred → IsMarked h a

  pub Stored-frame :
      {c d : ℕ → Option (Node K V)} (t : Tree K V)
      → ((a : ℕ) → 0 < occ a t → d a ≡ c a)
      → Stored c t
      → Stored d t
  Stored-frame leaf same s = tt
  Stored-frame (node a l k v r) same s = (
    s.0,
    same a (omega (arith, hit_self a)) ∙ s.1,
    Stored-frame l (λ b o. same b (omega arith)) s.2,
    Stored-frame r (λ b o. same b (omega arith)) s.3,
  )

  -- A stored tree occupies allocated addresses only.
  pub occ-IsAllocated :
      (h : Heap K V) (t : Tree K V) (a : ℕ)
      → Stored h.cells t
      → 0 < occ a t
      → (0 < a) × IsAllocated h a
  occ-IsAllocated h leaf a s o = absurd (omega arith)
  occ-IsAllocated h (node b l k v r) a s o = elim (eq_or_ne a b) [
    | inl same ↦ rw same (s.0, (cell l k v r, s.1))
    | inr ne ↦ elim (zero_or_pos (occ a l)) [
      | inl right ↦ occ-IsAllocated h r a s.3 (omega (arith, hit_ne a b ne))
      | inr left ↦ occ-IsAllocated h l a s.2 left
    ]
  ]

  occ-beyond :
      (h : Heap K V) (t : Tree K V) (a : ℕ) → Stored h.cells t → h.cells a ≡ none → occ a t ≡ 0
  occ-beyond h t a s e = elim (zero_or_pos (occ a t)) [
    | inl out ↦ out
    | inr inside ↦ let (_, (n, c)) = occ-IsAllocated h t a s inside in cc (c, e)
  ]

  new_range :
      {base : ℕ} (h : Heap K V) (s : State) (a : ℕ)
      → IsGood base h s
      → 0 < count a s.new_nodes
      → (base ≤ a) × (a < h.fresh)
  new_range h s a g pos = ground (arith, g.old a, g.future a)

  pub allocated_below :
      {base : ℕ} (h : Heap K V) (s : State) (a : ℕ)
      → IsGood base h s
      → IsAllocated h a
      → a < h.fresh
  allocated_below h s a g (n, e) = elim (lt_or_ge a h.fresh) [
    | inl below ↦ below
    | inr beyond ↦ cc (e, g.unused a beyond)
  ]

module _ {K V : Type 0} {h h' : Heap K V} {t : Tree K V} {s' : State} {xs : Entries K V}
    {p : Shared} (w : Owns h t) (m : Made h.fresh xs (λ a. occ a t) h new_state p h' s') where
  retired-IsAllocated : (a : ℕ) → 0 < count a s'.retired_nodes → (0 < a) × IsAllocated h' a
  retired-IsAllocated a pos = elim (zero_or_pos (occ a t)) [
    | inl new ↦
        let made : 0 < count a s'.new_nodes = omega (arith, m.books a, count_nil a) in
        let (from, below) = new_range h' s' a m.grows.good made in
        let positive : 0 < a = omega (arith, w.positive) in
        (positive, m.grows.good.live a positive below)
    | inr old ↦
        let (positive, (n, e)) = occ-IsAllocated h t a w.stored old in
        (positive, (n, m.grows.keeps a n e))
  ]

  -- Each allocated address is in the new tree, newly retired, or was given to the collector before.
  partition :
      (a : ℕ)
      → 0 < a
      → a < h'.fresh
      → occ a m.tree + count a s'.retired_nodes + count a h.deferred ≡ 1
  partition a pos below = elim (lt_or_ge a h.fresh) [
    | inl old ↦ omega (arith, m.books a, count_nil a, m.grows.good.old a old, w.accounted a pos old)
    | inr new ↦
        let absent = occ-beyond h t a w.stored (w.unused a new) in
        let kept : count a h.deferred ≡ 0 = ground (arith, w.only a) in
        omega (arith, m.books a, count_nil a, m.grows.good.once a new below)
  ]

  tree-not_retired : (a : ℕ) → 0 < occ a m.tree → count a s'.retired_nodes ≡ 0
  tree-not_retired a o =
      let (pos, alloc) = occ-IsAllocated h' m.tree a m.stored o in
      omega (arith, partition a pos (allocated_below h' s' a m.grows.good alloc))

  module _ {h'' : Heap K V}
      (r : Retired s'.retired_nodes (record h' { root = ptr m.tree }) h'') where
    deferred_sum : (a : ℕ) → count a h''.deferred ≡ count a h.deferred + count a s'.retired_nodes
    deferred_sum a = rw (← m.grows.same_deferred) (r.deferred a)

    live_after : (a : ℕ) → 0 < a → a < h'.fresh → IsAllocated h'' a
    live_after a pos below = elim (zero_or_pos (count a s'.retired_nodes)) [
      | inl out ↦ rw (r.others a out) (m.grows.good.live a pos below)
      | inr gone ↦ let (n, e, _, _) = r.marked a gone in (n, e)
    ]

    unused_after : (a : ℕ) → h'.fresh ≤ a → h''.cells a ≡ none
    unused_after a beyond = elim (zero_or_pos (count a s'.retired_nodes)) [
      | inl out ↦ r.others a out ∙ m.grows.good.unused a beyond
      | inr gone ↦
          let (_, alloc) = retired-IsAllocated a gone in
          absurd (omega (arith, allocated_below h' s' a m.grows.good alloc))
    ]

    only_after : (a : ℕ) → 0 < count a h''.deferred → (0 < a) × (a < h'.fresh)
    only_after a pos = elim (zero_or_pos (count a s'.retired_nodes)) [
      | inl out ↦
          let (positive, below) = w.only a (omega (arith, deferred_sum a)) in
          (positive, omega (arith, m.grows.good.base_le))
      | inr gone ↦
          let (positive, alloc) = retired-IsAllocated a gone in
          (positive, allocated_below h' s' a m.grows.good alloc)
    ]

    deferred-IsMarked : (a : ℕ) → 0 < count a h''.deferred → IsMarked h'' a
    deferred-IsMarked a pos = elim (zero_or_pos (count a s'.retired_nodes)) [
      | inl out ↦
          let (n, e, left, right) = w.marked a (omega (arith, deferred_sum a)) in
          (n, r.others a out ∙ m.grows.keeps a n e, left, right)
      | inr gone ↦ r.marked a gone
    ]

    Retired-Owns : Owns h'' m.tree
    Retired-Owns = record {
      root = r.same_root;
      stored = Stored-frame m.tree (λ a o. r.others a (tree-not_retired a o)) m.stored;
      positive = omega (arith, r.same_fresh, m.grows.good.base_le, w.positive);
      live = λ a pos below. live_after a pos (omega (arith, r.same_fresh));
      unused = λ a beyond. unused_after a (omega (arith, r.same_fresh));
      accounted = λ a pos below.
          omega (arith, partition a pos (omega (arith, r.same_fresh)), deferred_sum a);
      only = λ a pos. omega (arith, only_after a pos, r.same_fresh);
      marked = deferred-IsMarked;
    }

  -- The root is swung, then `commit` runs.
  pub commit-Owns :
      Returns
        (λ _ h'' s''. Owns h'' m.tree × (s'' ≡ new_state))
        (commit (quiet (record h' { root = ptr m.tree }) s'))
  unfolding commit
  commit-Owns =
      Returns.weaken
        (retire_all-Retired s'.retired_nodes (record h' { root = ptr m.tree }) new_state
          λ a pos. (retired-IsAllocated a pos).1)
        λ _ h'' s'' (r, same). (Retired-Owns r, same)
