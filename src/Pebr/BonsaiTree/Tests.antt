-- ===== src/Pebr/BonsaiTree/Tests.antt =====
-- Runs of the tree of pebr/bonsai_tree.rs, and its theorems at a small state.
use pebr_benchmark.Base.{ℕ, ◌≡◌, refl, Bool, true, false, Option, none, some, [], ◌∷◌}
use pebr_benchmark.Ord.{nat_ord, by_order}
use pebr_benchmark.Shared.{shared, null}
use pebr_benchmark.World.{World, Run, pure, quiet, ◌>>=◌, ◌>>◌}
use pebr_benchmark.Pebr.ShieldPool.{defend, reuse, grow, drop_handle}
use pebr_benchmark.Pebr.ShieldPool.Handles.{pool_of}
use pebr_benchmark.Pebr.ShieldPool.Tests.{small_api, two_shields, one_held-IsFull}
use pebr_benchmark.Pebr.BonsaiTree.Node.{
  Heap, deref, load_left, load_right, store_left, store_right, alloc, free, defer_destroy,
  load_root, cas_root, is_retired_spot, node_size,
}
use pebr_benchmark.Pebr.BonsaiTree.State.{
  Local, C, reset, modify_state, abort, commit, free_all, retire_all, retire_node, add_new_node,
  mk_node,
}
use pebr_benchmark.Pebr.BonsaiTree.Shields.{
  on_result, defend_ptr, release_ptr, shielded, defend_root, release_root, repin,
}
use pebr_benchmark.Pebr.BonsaiTree.Balance.{
  single_left, double_left, mk_balanced_left, single_right, double_right, mk_balanced_right,
  mk_balanced,
}
use pebr_benchmark.Pebr.BonsaiTree.Pull.{pull_leftmost, pull_rightmost}
use pebr_benchmark.Pebr.BonsaiTree.Edit.{remove_found, do_insert, do_remove}
use pebr_benchmark.Pebr.BonsaiTree.Attempt.{deref_root, walk, get_inner, try_insert, try_remove}
use pebr_benchmark.Pebr.BonsaiTree.Map
use pebr_benchmark.Pebr.BonsaiTree.Map.{get, insert as put, remove as take, clear, drop_loop, drop}
use pebr_benchmark.Pebr.BonsaiTree.Keeps.Map.{Loses, insert-Loses, remove-Loses}

abbrev result : {H S A : Type 0} → Run H S A → Option A
result (Run.ok a w) = some a
result _ = none

smoke :
    C small_api ℕ ℕ (Bool × Bool × Bool × Bool × Bool × Option ℕ × Option ℕ × Option ℕ × Option ℕ)
unfolding get put take do_insert do_remove drop drop_loop commit abort free_all retire_all reset
    modify_state deref load_left load_right store_left store_right alloc free defer_destroy
    load_root cas_root is_retired_spot node_size retire_node add_new_node mk_node single_left
    double_left mk_balanced_left single_right double_right mk_balanced_right mk_balanced
    pull_leftmost pull_rightmost remove_found by_order defend reuse grow drop_handle on_result
    defend_ptr release_ptr shielded defend_root release_root repin deref_root walk get_inner
    try_insert try_remove clear
smoke = do
  a ← put small_api 1 9 1 10
  b ← put small_api 1 9 2 20
  c ← put small_api 1 9 3 30
  d ← put small_api 1 9 4 40
  e ← put small_api 1 9 3 33
  x ← get small_api 1 9 3
  y ← take small_api 1 9 2
  z ← get small_api 1 9 2
  u ← get small_api 1 9 4
  clear small_api
  drop 20
  pure (a, b, c, d, e, x, y, z, u)

abbrev fresh_local : Local small_api.Shield small_api.Guard
fresh_local = record {
  state = record {
    root_shield = null;
    shields = pool_of [] [];
    retired_nodes = [];
    new_nodes = [];
  };
  guard = false;
}

result-smoke :
    result (smoke (quiet Map.new fresh_local))
    ≡ some (true, true, true, true, false, some 30, some 20, none, some 40)
unfolding smoke
result-smoke = refl

-- Two shields, of which one is held, an ejected thread, and another thread that inserts a key.
abbrev disturbed : World (Heap ℕ ℕ) (Local small_api.Shield small_api.Guard)
disturbed = record {
  heap = Map.new;
  env =
      (λ h. h)
      ∷ (λ h. record h {
        root = shared 1 0;
        cells = λ a. some (record { key = 5; value = 50; size = 1; left = null; right = null });
        fresh = 2;
      })
      ∷ [];
  own = record {
    state = record {
      root_shield = null;
      shields = pool_of two_shields (1 ∷ []);
      retired_nodes = [];
      new_nodes = [];
    };
    guard = true;
  };
}

insert-Loses_example : Loses small_api 3 (0 ∷ []) (put small_api 3 3 6 60 disturbed)
insert-Loses_example = insert-Loses small_api (0 ∷ []) disturbed one_held-IsFull 3 3 6 60

remove-Loses_example : Loses small_api 3 (0 ∷ []) (take small_api 3 3 5 disturbed)
remove-Loses_example = remove-Loses small_api (0 ∷ []) disturbed one_held-IsFull 3 3 5
