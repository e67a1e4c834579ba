-- ===== src/Ebr/NmTree/Tests.antt =====
-- Runs of the tree of ebr/natarajan_mittal_tree.rs.
use pebr_benchmark.Base.{ℕ, ◌≡◌, refl, Bool, true, false, Option, none, some, [], is_none, arith}
use pebr_benchmark.Ord.{nat_ord}
use pebr_benchmark.SortedMap.{lookup}
use pebr_benchmark.Shared.{shared}
use pebr_benchmark.Ebr.NmTree.Tree.{Tree, tip, fork, leaf_node, fork_node}
use pebr_benchmark.Ebr.NmTree.Get.{get-entries}
use pebr_benchmark.World.{Run, ok, Cmd, pure, quiet, ◌>>=◌, ◌>>◌}
use pebr_benchmark.Ebr.NmTree.Node.{
  Node, fin, inf, update, Heap, deref, load, compare_and_set, tag_edge, alloc, set_node, free,
  defer_destroy, new_internal,
}
use pebr_benchmark.Ebr.NmTree.Seek.{advance, seek_loop, seek}
use pebr_benchmark.Ebr.NmTree.Map
use pebr_benchmark.Ebr.NmTree.Map.{
  destroy, cleanup, help, get, give_back, inject, insert_loop, insert, cleanup_phase, flagged,
  remove, drop_loop, drop,
}

abbrev result : {H S A : Type 0} → Run H S A → Option A
result (Run.ok a w) = some a
result _ = none

abbrev no_nodes : Heap ℕ ℕ
no_nodes = record { cells = λ _. none; fresh = 1; deferred = [] }

smoke :
    Cmd
      (Heap ℕ ℕ)
      (Unit {0})
      (Bool × Bool × Bool × Bool × Option ℕ × Option ℕ × Option ℕ × Option ℕ)
unfolding deref load compare_and_set tag_edge alloc set_node free defer_destroy new_internal advance
    seek_loop seek Map.new destroy cleanup help get give_back inject insert_loop insert
    cleanup_phase flagged remove drop_loop drop
smoke = do
  r ← Map.new
  a ← insert 2 9 r 3 30
  b ← insert 2 9 r 1 10
  c ← insert 2 9 r 2 20
  d ← insert 2 9 r 2 22
  x ← get 9 r 2
  y ← remove 2 9 r 2
  z ← get 9 r 2
  u ← get 9 r 3
  drop 20 r
  pure (is_none a, is_none b, is_none c, is_none d, x, y, z, u)

result-smoke :
    result (smoke (quiet no_nodes tt))
    ≡ some (true, true, true, false, some 20, some 20, none, some 30)
unfolding smoke
result-smoke = refl

-- The keys 1 and 2, below the two topmost nodes 1 and 2.
abbrev pub two_leaves : Tree ℕ ℕ
two_leaves = fork 3 inf (fork 4 (fin 2) (tip 5 (some (1, 10))) (tip 6 (some (2, 20)))) (tip 7 none)

abbrev pub whole : Tree ℕ ℕ
whole = fork 1 inf (fork 2 inf two_leaves (tip 8 none)) (tip 9 none)

abbrev pub place_all : Tree ℕ ℕ → (ℕ → Option (Node ℕ ℕ)) → ℕ → Option (Node ℕ ℕ)
place_all (tip a p) mem = update mem a (some (leaf_node p))
place_all (fork a k l r) mem = update (place_all l (place_all r mem)) a (some (fork_node k l r))

abbrev pub placed : Heap ℕ ℕ
placed = record { cells = place_all whole (λ _. none); fresh = 10; deferred = [] }

get-entries_example : get 6 (shared 1 0) 2 (quiet placed tt) ≡ ok (some 20) (quiet placed tt)
unfolding lookup
get-entries_example =
    get-entries 2 placed 6 1 2 two_leaves (tip 8 none) (tip 9 none) tt (omega arith)
      (
        omega arith,
        refl,
        (
          omega arith,
          refl,
          (
            omega arith,
            refl,
            (omega arith, refl, (omega arith, refl), (omega arith, refl)),
            (omega arith, refl),
          ),
          (omega arith, refl),
        ),
        (omega arith, refl),
      )
      ((tt, (tt, tt)), tt, ((refl, tt), ((λ e. ground arith), tt), tt, tt), tt)
