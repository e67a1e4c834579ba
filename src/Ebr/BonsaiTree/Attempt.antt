-- ===== src/Ebr/BonsaiTree/Attempt.antt =====
-- ebr/bonsai_tree.rs: an attempt to change the map that is given up, as when the root was swung by
-- another thread.
use pebr_benchmark.Base.{ℕ, ◌<◌, ◌≡◌}
use pebr_benchmark.Ord.{Ord}
use pebr_benchmark.SortedMap.{Entries}
use pebr_benchmark.World.{quiet, ◌>>=◌}
use pebr_benchmark.World.Returns
use pebr_benchmark.World.Returns.{Returns}
use pebr_benchmark.Ebr.BonsaiTree.Node.{Heap, load_root}
use pebr_benchmark.Ebr.BonsaiTree.State.{new_state, abort}
use pebr_benchmark.Ebr.BonsaiTree.Edit.{do_insert, do_remove}
use pebr_benchmark.Ebr.BonsaiTree.Tree.{ptr}
use pebr_benchmark.Ebr.BonsaiTree.Insert.{height, do_insert-Inserted}
use pebr_benchmark.Ebr.BonsaiTree.Remove.{do_remove-Removed}
use pebr_benchmark.Ebr.BonsaiTree.Abort.{Restored, abort-Restored}
use pebr_benchmark.Ebr.BonsaiTree.Update.{Holds, start, load_root-ok}

module _ {K V : Type 0} ⦃o : Ord K⦄ (depth : ℕ) {h : Heap K V} {xs : Entries K V} (m : Holds h xs)
    (enough : height m.tree < depth) where
  open m use {tree, owns, listed, sorted}

  -- Undisturbed, on a map that holds the sorted entries `xs`, with a depth above the tree's height:
  -- the rebuilding of `insert` and then `abort` return. The root, the collector's list and every
  -- cell are as they were, so no new node is left, and the private lists are empty.
  pub do_insert-Restored :
      (key : K) (value : V)
      → Returns
          (λ _ h' s'. Restored h h' × (s' ≡ new_state))
          ((load_root >>= λ root. do_insert depth root key value >>= λ _. abort)
            (quiet h new_state))
  do_insert-Restored key value = rw (load_root-ok h new_state (ptr tree) owns.root) (
      Returns.bind _
        (do_insert-Inserted h.fresh key value depth tree h new_state enough (rw listed sorted)
          (start owns) owns.stored)
        λ (p, b) h' s' (found, made). abort-Restored (start owns) made.grows)

  -- Undisturbed, on a map that holds the sorted entries `xs`, with a depth above the tree's height:
  -- the rebuilding of `remove` and then `abort` return. The root, the collector's list and every
  -- cell are as they were, so no new node is left, and the private lists are empty.
  pub do_remove-Restored :
      (key : K)
      → Returns
          (λ _ h' s'. Restored h h' × (s' ≡ new_state))
          ((load_root >>= λ root. do_remove depth root key >>= λ _. abort) (quiet h new_state))
  do_remove-Restored key = rw (load_root-ok h new_state (ptr tree) owns.root) (
      Returns.bind _
        (do_remove-Removed h.fresh key depth tree h new_state enough (rw listed sorted) (start owns)
          owns.stored)
        λ (p, b) h' s' (found, made). abort-Restored (start owns) made.grows)
