-- ===== src/Ebr/NmTree.antt =====
-- ebr/natarajan_mittal_tree.rs: the lock-free external search tree, whose edges are flagged and
-- tagged before a leaf and its parent are cut off.
pub mod Node
pub mod Seek
pub mod Map
pub mod Tree
pub mod Access
pub mod Get
pub mod Empty
pub mod Path
pub mod Within
pub mod Landing
pub mod Represents
pub mod Graft
pub mod Leaf
pub mod Swing
pub mod Inject
pub mod Insert
pub mod Cleanup
pub mod Cut
pub mod Remove
mod Tests
mod UpdateTests
