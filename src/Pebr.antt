-- ===== src/Pebr.antt =====
-- The maps of pebr/: the same data structures over pointer- and epoch-based reclamation, where a
-- pointer is dereferenced under a shield and a slow thread can be ejected.
pub mod BonsaiTree
pub mod LinkedList
pub mod ShieldPool
pub mod Result
pub mod NmTree
pub mod HashMap
