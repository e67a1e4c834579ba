-- ===== src/Ebr/BonsaiTree.antt =====
-- ebr/bonsai_tree.rs: a weight-balanced search tree, rebuilt along a path and swung at its root.
pub mod Node
pub mod State
pub mod Balance
pub mod Edit
pub mod Map
pub mod Tree
pub mod Made
pub mod Rotate
pub mod Rebalance
pub mod Insert
pub mod Pull
pub mod Remove
pub mod Commit
pub mod Owns
pub mod Abort
pub mod Update
pub mod Attempt
pub mod Drop
pub mod Get
pub mod RoundTrip
mod Tests
