-- ===== src/Ebr/LinkedList.antt =====
-- ebr/list.rs: the lock-free sorted linked list, with three ways to find a key's place.
pub mod Heap
pub mod Find
pub mod Map
pub mod Variants
pub mod Chain
pub mod Search
pub mod Relink
pub mod Position
pub mod Placed
pub mod Alone
pub mod Update
pub mod Insert
pub mod Unlink
pub mod Remove
pub mod Lookup
pub mod Get
pub mod Drop
mod Tests
mod UpdateTests
