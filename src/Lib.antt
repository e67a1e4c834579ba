-- ===== src/Lib.antt =====
-- The concurrent maps of the benchmark (src/ebr and src/pebr): data structures of nodes linked by
-- tagged atomic pointers, which many threads read and change without locks and whose memory is
-- reclaimed by epochs (EBR) or by epochs and shields (PEBR).
--
-- The parts, and the files that model them:
-- - World: a thread's commands on the shared heap. A run ends with a value, in a fault (a null or
--   dangling pointer, a panic, a failed debug_assert!) or out of fuel. `env` lists what the other
--   threads do to the heap, one entry before each atomic access of this thread, so that every
--   interleaving is a list. An empty `env` is an undisturbed run.
-- - Shared: pointers with a tag (crossbeam's Shared). Ord: Rust's Ord as an interface of
--   operations and laws. SortedMap: the dictionary that a map is compared with, as
--   sorted entries and (Assign) as a function.
-- - Ebr/BonsaiTree: src/ebr/bonsai_tree.rs. Node has the nodes, the retired mark and the accesses
--   of fields, State the private lists with commit and abort, Balance the rotations, Edit the
--   recursive insertion and removal, Map the operations with their retries. The other files there
--   are proofs: Tree reads a tree off the heap, Made says what a step of rebuilding leaves behind,
--   Rotate, Rebalance, Pull, Insert, Remove and Commit follow the code, Owns accounts for every
--   node, Update, Get, RoundTrip and Drop state the operations, Abort and Attempt what a lost race
--   leaves.
-- - Ebr/LinkedList: src/ebr/list.rs and the trait of src/ebr/concurrent_map.rs. Heap has the nodes
--   and the places a pointer is read from, Find the three searches, Map the operations over a
--   search, Variants the lists that the benchmark runs. Chain reads a list off the heap, Search and
--   Get are about searches that only read, Drop about the values that are dropped, Relink,
--   Position, Placed, Update and Unlink about a place in a list and what one write there does,
--   Alone about what it leaves of the other lists of the heap, Insert, Remove and Lookup about
--   the operations with these.
-- - Ebr/HashMap: src/ebr/michael_hash_map.rs, a vector of such lists. Buckets is about its bounds;
--   Table says which dictionary a vector of lists is, Disjoint what one list leaves of another,
--   Dictionary is about the three operations and Empty about a new map.
-- - Ebr/NmTree: src/ebr/natarajan_mittal_tree.rs, the external tree whose edges are flagged and
--   tagged. Node has the nodes and the marks of edges, Seek the walk to a leaf, Map the operations.
--   Tree and Access read a tree off the heap, Get is about the lookup in it, Path and Within about
--   the way down to a leaf, Landing about where a walk ends, Leaf about the leaf that it ends at.
--   Represents says which map a tree is and what a replaced subtree leaves of that; Graft, Swing and
--   Inject lead to Insert, Cleanup and Cut to Remove, and Empty is about a new tree.
-- - Pebr/ShieldPool: src/pebr/shield_pool.rs, with crossbeam's shields as a parameter (ShieldApi).
--   Handles is about the indices handed out, Full about what is lost.
-- - Pebr/Result: results that an ejection ends.
-- - Pebr/BonsaiTree: src/pebr/bonsai_tree.rs. As for Ebr, with Shields for the scopes of shields
--   and the results that an ejection ends, and Attempt for what is retried. Keeps is about the
--   shields, whatever the other threads do: Tries about a command that an ejection may end, Balance
--   and Edit about the rebuilding, Map about the operations.
-- - Pebr/LinkedList: src/pebr/list.rs and the trait of src/pebr/concurrent_map.rs. Heap has the
--   cells, of lists and of nodes, since the code reads the head of a list as the next of a node;
--   Cursor the two shields, Find the three searches, Map the operations, Variants the lists. Chain
--   reads a list off the memory, as that of Ebr; Search and Get are about searches that only read.
-- - Pebr/HashMap: src/pebr/michael_hash_map.rs, a vector of such lists.
-- - Pebr/NmTree: src/pebr/natarajan_mittal_tree.rs. Record has the four shields of a walk, Seek the
--   walk, Map the operations; what is the same in the two files is taken from Ebr/NmTree. Follows,
--   Moves, Mirror and Answers compare its runs with those of the EBR tree.
-- - Bench: src/main.rs. Config has the command line's choices and the configuration derived from
--   them, Prefill the filling of a map, Worker the loop that runs operations, Sampler the thread
--   that measures memory, Main the choice of the map and the summary. The crate rand is a parameter
--   (RandApi), as are what a clock and the memory sampler answer.
--
-- The state: a heap maps addresses to nodes. Address 0 is null, an address is never used twice, and
-- a freed one maps to nothing, so that a use after free is a fault. `deferred` is what
-- defer_destroy was given; the collector itself is not run. `own` is what only this thread writes.
-- Memory orderings are not modelled: an atomic access is one step. Sizes are natural numbers, since
-- a size is bounded by the number of nodes in memory. Keys and values are cloned freely.
--
-- Fuel: `rounds` bounds the retries of an operation and `depth` the nodes on its way. One round is
-- enough for an undisturbed run, with a depth above the tree's height or the length of the list or
-- bucket; a thread that was ejected takes one more.
--
-- Not modelled: the parsing of arguments, threads, channels and output of src/main.rs. crossbeam's
-- own code is not in the repository: its shields and guards are parameters.
pub mod Base
pub mod Bench
pub mod Ebr
pub mod Ord
pub mod Pebr
pub mod Shared
pub mod SortedMap
pub mod World
