-- ===== src/Pebr/NmTree/Tests.antt =====
-- Runs of the tree of pebr/natarajan_mittal_tree.rs.
use pebr_benchmark.Base.{
  ℕ, ◌-◌, ◌≡◌, refl, Bool, true, false, Option, none, some, [], ◌∷◌, is_none, arith, ◌==◌,
  if◌then◌else◌,
}
use pebr_benchmark.Ord.{nat_ord, by_order}
use pebr_benchmark.Shared.{Shared, shared, null}
use pebr_benchmark.World.{Run, World, pure, quiet, ◌>>=◌, ◌>>◌}
use pebr_benchmark.Ebr.NmTree.Node.{
  fin, inf, new_leaf, update, Heap, deref, load, compare_and_set, tag_edge, alloc, set_node, free,
  defer_destroy, new_internal,
}
use pebr_benchmark.Ebr.NmTree.Seek
use pebr_benchmark.Ebr.NmTree.Map
use pebr_benchmark.Ebr.NmTree.Map.{destroy, inject, drop_loop, drop}
use pebr_benchmark.Pebr.ShieldPool.{ShieldApi}
use pebr_benchmark.Pebr.Result.{on_result}
use pebr_benchmark.Pebr.NmTree.Record.{
  Local, C, new_record, release, defend, defend_ancestor, defend_successor, defend_leaf,
  get_pointers, repin,
}
use pebr_benchmark.Pebr.NmTree.Seek.{advance_ancestor, advance_leaf, seek_loop, seek}
use pebr_benchmark.Pebr.NmTree.Map.{
  on_insertion, cleanup, help, take_back, get_inner, get, insert_inner_loop, insert_inner, insert,
  cleanup_phase, flagged, remove_inner, remove,
}
use pebr_benchmark.Pebr.NmTree.Follows.{put, Follows}
use pebr_benchmark.Pebr.NmTree.Mirror.{found_by, answer_of, seek-Follows}
use pebr_benchmark.Pebr.NmTree.Answers.{get_inner-Follows, remove_inner-Follows}

abbrev result : {H S A : Type 0} → Run H S A → Option A
result (Run.ok a w) = some a
result _ = none

abbrev no_nodes : Heap ℕ ℕ
no_nodes = record { cells = λ _. none; fresh = 1; deferred = [] }

-- A guard lasts for so many calls to `defend` as it says, and for a hundred once it is repinned.
abbrev countdown : ShieldApi
countdown = record {
  Guard = ℕ;
  Shield = Shared;
  new_shield = λ ptr left. if left == 0 then none else some ptr;
  defend_shield = λ shield ptr left. if left == 0 then (shield, false) else (ptr, true);
  release_shield = λ shield. null;
  null_shield = λ left. null;
  fake_shield = λ shield ptr. ptr;
  deref_shield = λ shield. shield;
  repin = λ left. 100;
  elapse = λ left. left - 1;
}

-- A thread that is ejected in the middle of its first walk.
start : Heap ℕ ℕ → World (Heap ℕ ℕ) (Local Shared ℕ)
unfolding new_record
start h = quiet h (record { rec = new_record countdown 0; guard = 2 })

smoke : C countdown ℕ ℕ (Bool × Bool × Bool × Bool × Option ℕ × Option ℕ × Option ℕ × Option ℕ)
unfolding deref load compare_and_set tag_edge alloc set_node free defer_destroy new_internal Map.new
    destroy Map.cleanup inject drop_loop drop on_result release defend defend_ancestor
    defend_successor defend_leaf get_pointers repin advance_ancestor advance_leaf seek_loop seek
    on_insertion cleanup help take_back get_inner get insert_inner_loop insert_inner insert
    cleanup_phase flagged remove_inner remove by_order
smoke = do
  r ← Map.new
  a ← insert countdown 2 9 r 3 30
  b ← insert countdown 2 9 r 1 10
  c ← insert countdown 2 9 r 2 20
  d ← insert countdown 2 9 r 2 22
  x ← get countdown 2 9 r 2
  y ← remove countdown 2 9 r 2
  z ← get countdown 2 9 r 2
  u ← get countdown 2 9 r 3
  release countdown
  drop 20 r
  pure (is_none a, is_none b, is_none c, is_none d, x, y, z, u)

result-smoke :
    result (smoke (start no_nodes))
    ≡ some (true, true, true, false, some 20, some 20, none, some 30)
unfolding smoke start
result-smoke = refl

-- A map that holds the key 7, with the address 4 as its field `r`.
abbrev tree_of_seven : Heap ℕ ℕ
tree_of_seven = record {
  cells =
      update
        (update
          (update
            (update
              (update (update (λ _. none) 1 (some (new_leaf inf none))) 2
                (some (new_leaf (fin 7) (some 70))))
              3 (some (record { key = inf; value = none; left = shared 2 0; right = shared 1 0 })))
            5 (some (new_leaf inf none)))
          6 (some (record { key = inf; value = none; left = shared 3 0; right = shared 5 0 })))
        4 (some (record { key = inf; value = none; left = shared 6 0; right = shared 7 0 }));
  fresh = 8;
  deferred = [];
}

-- Another thread marks the edge to the leaf between two accesses.
disturbed : World (Heap ℕ ℕ) (Local Shared ℕ)
unfolding new_record
disturbed = record {
  heap = tree_of_seven;
  env =
      (λ h. h)
      ∷ (λ h. h)
      ∷ (λ h. record h {
        cells =
            update h.cells 3
              (some (record { key = inf; value = none; left = shared 2 2; right = shared 1 1 }));
      })
      ∷ [];
  own = record { rec = new_record countdown 0; guard = 50 };
}

held_if :
    (gone : Bool) (s p : Shared) (answer : Shared × Bool)
    → (if gone then (s, false) else (p, true)) ≡ answer
    → answer.1 ≡ true
    → answer.0 ≡ p
held_if true s p answer e held = grind arith
held_if false s p answer e held = grind arith

countdown-held :
    (s p : Shared) (g : ℕ)
    → (countdown.defend_shield s p g).1 ≡ true
    → countdown.deref_shield (countdown.defend_shield s p g).0 ≡ p
countdown-held s p g e = held_if (g == 0) s p (countdown.defend_shield s p g) refl e

seek-Follows_example :
    Follows disturbed.own
      (found_by countdown)
      (seek countdown 9 (shared 4 0) 7 disturbed)
      (Seek.seek 9 (shared 4 0) 7 (put disturbed.own disturbed))
seek-Follows_example =
    seek-Follows countdown countdown-held (λ s p. refl) 9 (shared 4 0) 7 disturbed disturbed.own

get_inner-Follows_example :
    Follows disturbed.own answer_of
      (get_inner countdown 9 (shared 4 0) 7 disturbed)
      (Map.get 9 (shared 4 0) 7 (put disturbed.own disturbed))
get_inner-Follows_example =
    get_inner-Follows countdown countdown-held (λ s p. refl) 9 (shared 4 0) 7 disturbed
      disturbed.own

remove_inner-Follows_example :
    Follows disturbed.own answer_of
      (remove_inner countdown 2 9 (shared 4 0) 7 disturbed)
      (Map.remove 2 9 (shared 4 0) 7 (put disturbed.own disturbed))
remove_inner-Follows_example =
    remove_inner-Follows countdown countdown-held (λ s p. refl) 2 9 (shared 4 0) 7 disturbed
      disturbed.own
