-- ===== src/Pebr/NmTree.antt =====
-- pebr/natarajan_mittal_tree.rs: the tree of Ebr/NmTree, whose walk defends what it passes with
-- four shields.
pub mod Record
pub mod Seek
pub mod Map
pub mod Follows
pub mod Moves
pub mod Mirror
pub mod Answers
mod Tests
