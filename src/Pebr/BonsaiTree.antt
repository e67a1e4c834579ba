-- ===== src/Pebr/BonsaiTree.antt =====
-- pebr/bonsai_tree.rs: the Bonsai tree over pointer- and epoch-based reclamation.
pub mod Node
pub mod State
pub mod Shields
pub mod Balance
pub mod Pull
pub mod Edit
pub mod Attempt
pub mod Map
pub mod Keeps
mod Tests
