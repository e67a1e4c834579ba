-- ===== src/Ebr/BonsaiTree/Tests.antt =====
-- Runs of the tree of ebr/bonsai_tree.rs, and its theorems at small trees.
use pebr_benchmark.Base.{
  ℕ, ◌<◌, ◌≡◌, refl, Bool, true, false, Option, none, some, [], ◌∷◌, arith, is_none, ◌==◌,
  if◌then◌else◌,
}
use pebr_benchmark.Ord.{nat_ord}
use pebr_benchmark.SortedMap.{Entries, lookup, insert, remove}
use pebr_benchmark.Shared.{shared, count, hit}
use pebr_benchmark.World.{pure, ok, ◌>>=◌, ◌>>◌, quiet, Run}
use pebr_benchmark.World.Returns.{Returns}
use pebr_benchmark.Ebr.BonsaiTree.Node.{Heap}
use pebr_benchmark.Ebr.BonsaiTree.Node.{
  C, deref, load_left, load_right, store_left, store_right, alloc, free, defer_destroy, load_root,
  cas_root, is_retired_spot, node_size,
}
use pebr_benchmark.Ebr.BonsaiTree.State.{
  new_state, abort, commit, retire_node, add_new_node, mk_node,
}
use pebr_benchmark.Ebr.BonsaiTree.Balance.{
  single_left, double_left, mk_balanced_left, single_right, double_right, mk_balanced_right,
  mk_balanced,
}
use pebr_benchmark.Ebr.BonsaiTree.Edit.{do_insert, do_remove}
use pebr_benchmark.Ebr.BonsaiTree.Map
use pebr_benchmark.Ebr.BonsaiTree.Map.{get, insert as put, remove as take, drop}
use pebr_benchmark.Ebr.BonsaiTree.Tree.{Tree, leaf, node, ptr, cell}
use pebr_benchmark.Ebr.BonsaiTree.Rebalance.{Rebuilt, mk_balanced-Rebuilt}
use pebr_benchmark.Ebr.BonsaiTree.Update.{Holds, start, insert-Holds, remove-Holds}
use pebr_benchmark.Ebr.BonsaiTree.Abort.{Restored}
use pebr_benchmark.Ebr.BonsaiTree.Attempt.{do_insert-Restored, do_remove-Restored}
use pebr_benchmark.Ebr.BonsaiTree.Drop.{drop-frees}
use pebr_benchmark.Ebr.BonsaiTree.Get.{get-lookup}
use pebr_benchmark.Ebr.BonsaiTree.RoundTrip.{put_get_take, remove-get-insert}

abbrev result : {H S A : Type 0} → Run H S A → Option A
result (Run.ok a w) = some a
result _ = none

smoke : C ℕ ℕ (Bool × Bool × Bool × Bool × Bool × Option ℕ × Option ℕ × Option ℕ × Option ℕ)
unfolding get put take do_insert do_remove drop commit abort deref load_left load_right store_left
    store_right alloc free defer_destroy load_root cas_root is_retired_spot node_size retire_node
    add_new_node mk_node single_left double_left mk_balanced_left single_right double_right
    mk_balanced_right mk_balanced
smoke = do
  a ← put 1 9 1 10
  b ← put 1 9 2 20
  c ← put 1 9 3 30
  d ← put 1 9 4 40
  e ← put 1 9 3 33
  x ← get 1 9 3
  y ← take 1 9 2
  z ← get 1 9 2
  u ← get 1 9 4
  drop 20
  pure (a, b, c, d, e, x, y, z, u)

result-smoke :
    result (smoke (quiet Map.new new_state))
    ≡ some (true, true, true, true, false, some 30, some 20, none, some 40)
unfolding smoke
result-smoke = refl

-- A tree of two nodes, with a third that the collector was given.
abbrev sample_tree : Tree ℕ ℕ
sample_tree = node 2 leaf 5 50 (node 1 leaf 7 70 leaf)

abbrev sample : Heap ℕ ℕ
sample = record {
  root = ptr sample_tree;
  cells = λ a.
      if a == 1
      then some (cell leaf 7 70 leaf)
      else if a == 2
      then some (cell leaf 5 50 (node 1 leaf 7 70 leaf))
      else none;
  fresh = 3;
  deferred = [];
}

abbrev sample_entries : Entries ℕ ℕ
sample_entries = (5, 50) ∷ (7, 70) ∷ []

sample-Holds : Holds sample sample_entries
unfolding count hit
sample-Holds = record {
  tree = sample_tree;
  owns = record {
    root = refl;
    stored = (omega arith, refl, tt, (omega arith, refl, tt, tt));
    positive = omega arith;
    live = λ a pos below. (
      if a == 1 then cell leaf 7 70 leaf else cell leaf 5 50 (node 1 leaf 7 70 leaf),
      ground arith,
    );
    unused = λ a beyond. ground arith;
    accounted = λ a pos below. ground arith;
    only = λ a pos. absurd (omega arith);
    marked = λ a pos. absurd (omega arith);
  };
  listed = refl;
  sorted = ((refl, tt), (tt, tt));
}

insert-Holds_example :
    Returns
      (λ inserted h s.
        (inserted ≡ is_none (lookup 6 sample_entries))
        × Holds h (insert 6 60 sample_entries)
        × (s ≡ new_state))
      (put 1 3 6 60 (quiet sample new_state))
unfolding sample-Holds
insert-Holds_example = insert-Holds 0 3 sample-Holds (omega arith) 6 60

remove-Holds_example :
    Returns
      (λ found h s.
        (found ≡ lookup 5 sample_entries) × Holds h (remove 5 sample_entries) × (s ≡ new_state))
      (take 1 3 5 (quiet sample new_state))
unfolding sample-Holds
remove-Holds_example = remove-Holds 0 3 sample-Holds (omega arith) 5

get-lookup_example :
    get 1 3 7 (quiet sample new_state) ≡ ok (lookup 7 sample_entries) (quiet sample new_state)
unfolding sample-Holds
get-lookup_example = get-lookup 7 0 3 new_state sample-Holds (omega arith)

mk_balanced-Rebuilt_example :
    Returns
      (Rebuilt 3 sample new_state 2 leaf 5 50 (node 1 leaf 7 70 leaf))
      (mk_balanced (shared 2 0) (ptr {K = ℕ} {V = ℕ} leaf) (shared 1 0) (quiet sample new_state))
unfolding sample-Holds
mk_balanced-Rebuilt_example =
    mk_balanced-Rebuilt 3 sample new_state 2 leaf 5 50 (node 1 leaf 7 70 leaf) leaf
      (node 1 leaf 7 70 leaf) (start sample-Holds.owns) sample-Holds.owns.stored tt
      sample-Holds.owns.stored.3

do_insert-Restored_example :
    Returns
      (λ _ h' s'. Restored sample h' × (s' ≡ new_state))
      ((load_root >>= λ root. do_insert 3 root 6 60 >>= λ _. abort) (quiet sample new_state))
unfolding sample-Holds
do_insert-Restored_example = do_insert-Restored 3 sample-Holds (omega arith) 6 60

do_remove-Restored_example :
    Returns
      (λ _ h' s'. Restored sample h' × (s' ≡ new_state))
      ((load_root >>= λ root. do_remove 3 root 5 >>= λ _. abort) (quiet sample new_state))
unfolding sample-Holds
do_remove-Restored_example = do_remove-Restored 3 sample-Holds (omega arith) 5

drop-frees_example :
    Returns
      (λ _ h' s'.
        (h'.deferred ≡ sample.deferred)
        × ((a : ℕ) → 0 < a → a < 3 → count a sample.deferred ≡ 0 → h'.cells a ≡ none)
        × ((a : ℕ) → 0 < count a sample.deferred → h'.cells a ≡ sample.cells a))
      (drop 6 (quiet sample new_state))
unfolding sample-Holds
drop-frees_example = drop-frees 6 sample-Holds (omega arith)

remove-get-insert_example :
    Returns
      (λ (inserted, found, removed) h s.
        (inserted ≡ true)
        × (found ≡ some 60)
        × (removed ≡ some 60)
        × Holds h sample_entries
        × (s ≡ new_state))
      (put_get_take 1 4 6 60 (quiet sample new_state))
unfolding sample-Holds lookup
remove-get-insert_example = remove-get-insert 0 4 sample-Holds (omega arith) 6 60 refl
