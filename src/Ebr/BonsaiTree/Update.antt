-- ===== src/Ebr/BonsaiTree/Update.antt =====
-- `new`, `insert` and `remove` of ebr/bonsai_tree.rs as operations of the dictionary.
use pebr_benchmark.Base.{ℕ, suc, ◌<◌, ◌≡◌, refl, ap, ◌∙◌, true, [], arith, is_none}
use pebr_benchmark.Ord.{Ord}
use pebr_benchmark.SortedMap.{Entries, lookup, insert, remove, IsSorted}
use pebr_benchmark.SortedMap.Sorted.{insert-IsSorted, remove-IsSorted}
use pebr_benchmark.Shared.{Shared, count_nil, ◌=ₚ◌, =ₚ-refl}
use pebr_benchmark.World.{ok, quiet, access}
use pebr_benchmark.World.Returns
use pebr_benchmark.World.Returns.{Returns, returns}
use pebr_benchmark.Ebr.BonsaiTree.Node.{Heap, State, load_root, cas_root}
use pebr_benchmark.Ebr.BonsaiTree.State.{new_state}
use pebr_benchmark.Ebr.BonsaiTree.Map
use pebr_benchmark.Ebr.BonsaiTree.Tree.{Tree, leaf, entries, ptr, tag-ptr}
use pebr_benchmark.Ebr.BonsaiTree.Made.{IsGood}
use pebr_benchmark.Ebr.BonsaiTree.Insert.{height, do_insert-Inserted}
use pebr_benchmark.Ebr.BonsaiTree.Remove.{do_remove-Removed}
use pebr_benchmark.Ebr.BonsaiTree.Owns.{Owns, commit-Owns}

module _ {K V : Type 0} ⦃o : Ord K⦄ where
  -- The map holds the entries `xs`, in key order.
  pub record Holds (h : Heap K V) (xs : Entries K V) : Type 0 where
    pub tree : Tree K V
    pub owns : Owns h tree
    pub listed : entries tree ≡ xs
    pub sorted : IsSorted xs

  -- A new map is empty.
  pub new-Holds : Holds Map.new []
  new-Holds = record {
    tree = leaf;
    owns = record {
      root = refl;
      stored = tt;
      positive = omega arith;
      live = λ a pos below. absurd (omega arith);
      unused = λ a beyond. refl;
      accounted = λ a pos below. absurd (omega arith);
      only = λ a pos. absurd (omega (arith, count_nil a));
      marked = λ a pos. absurd (omega (arith, count_nil a));
    };
    listed = refl;
    sorted = tt;
  }

  pub start : {h : Heap K V} {t : Tree K V} → Owns h t → IsGood h.fresh h new_state
  start w = record {
    positive = w.positive;
    base_le = omega arith;
    unused = w.unused;
    live = w.live;
    once = λ a p q. absurd (omega arith);
    old = λ a p. count_nil a;
    future = λ a p. count_nil a;
  }

  pub load_root-ok :
      (h : Heap K V) (s : State) (p : Shared)
      → h.root ≡ p
      → load_root (quiet h s) ≡ ok p (quiet h s)
  unfolding load_root
  load_root-ok h s p e = ap (λ q. ok q (quiet h s)) e

  swing-ok :
      (h : Heap K V) (s : State) (p q : Shared)
      → h.root ≡ p
      → cas_root p q (quiet h s) ≡ ok true (quiet (record h { root = q }) s)
  unfolding cas_root
  swing-ok h s p q e = let same : (h.root =ₚ p) ≡ true = rw e (=ₚ-refl p) in rw (same, access)

module _ {K V : Type 0} ⦃o : Ord K⦄ (rounds depth : ℕ) {h : Heap K V} {xs : Entries K V}
    (m : Holds h xs) (enough : height m.tree < depth) where
  open m use {tree, owns, listed, sorted}

  -- Undisturbed, on a map that holds the sorted entries `xs`, with a round and a depth above the
  -- tree's height, `insert` returns. It answers whether the key was missing, the map then holds
  -- `xs` with the entry inserted (a key that is there keeps its value), every allocated node is in
  -- the tree or with the collector, just once, and the private lists are empty.
  pub insert-Holds :
      (key : K) (value : V)
      → Returns
          (λ inserted h' s'.
            (inserted ≡ is_none (lookup key xs))
            × Holds h' (insert key value xs)
            × (s' ≡ new_state))
          (Map.insert (suc rounds) depth key value (quiet h new_state))
  unfolding Map.insert
  insert-Holds key value = rw (load_root-ok h new_state (ptr tree) owns.root) (
      Returns.bind _
        (do_insert-Inserted h.fresh key value depth tree h new_state enough (rw listed sorted)
          (start owns) owns.stored)
        λ (p, b) h' s' (found, made).
          rw
            (
              made.is_ptr,
              tag-ptr made.tree,
              swing-ok h' s' (ptr tree) (ptr made.tree) (made.grows.same_root ∙ owns.root),
            )
            (Returns.bind _ (commit-Owns owns made) λ _ h'' s'' (after, clean). returns (
              rw (← listed) found,
              record {
                tree = made.tree;
                owns = after;
                listed = made.holds ∙ ap (insert key value) listed;
                sorted = insert-IsSorted key value xs sorted;
              },
              clean,
            )))

  -- Undisturbed, on a map that holds the sorted entries `xs`, with a round and a depth above the
  -- tree's height, `remove` returns. It answers what `xs` has at the key, the map then holds `xs`
  -- without the key, every allocated node is in the tree or with the collector, just once, and the
  -- private lists are empty.
  pub remove-Holds :
      (key : K)
      → Returns
          (λ found h' s'. (found ≡ lookup key xs) × Holds h' (remove key xs) × (s' ≡ new_state))
          (Map.remove (suc rounds) depth key (quiet h new_state))
  unfolding Map.remove
  remove-Holds key = rw (load_root-ok h new_state (ptr tree) owns.root) (
      Returns.bind _
        (do_remove-Removed h.fresh key depth tree h new_state enough (rw listed sorted) (start owns)
          owns.stored)
        λ (p, b) h' s' (found, made).
          rw
            (
              made.is_ptr,
              tag-ptr made.tree,
              swing-ok h' s' (ptr tree) (ptr made.tree) (made.grows.same_root ∙ owns.root),
            )
            (Returns.bind _ (commit-Owns owns made) λ _ h'' s'' (after, clean). returns (
              rw (← listed) found,
              record {
                tree = made.tree;
                owns = after;
                listed = made.holds ∙ ap (remove key) listed;
                sorted = remove-IsSorted key xs sorted;
              },
              clean,
            )))
