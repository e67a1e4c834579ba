-- ===== src/Ebr.antt =====
-- The maps of ebr/: data structures over epoch-based reclamation.
pub mod BonsaiTree
pub mod LinkedList
pub mod HashMap
pub mod NmTree
