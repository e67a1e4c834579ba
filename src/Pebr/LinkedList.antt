-- ===== src/Pebr/LinkedList.antt =====
-- pebr/list.rs: the lock-free sorted linked list, with a cursor of two shields.
pub mod Heap
pub mod Cursor
pub mod Find
pub mod Map
pub mod Variants
pub mod Chain
pub mod Search
pub mod Get
mod Tests
mod GetTests
