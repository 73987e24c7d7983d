-- ===== src/Containers/Links.antt =====
-- The doubly linked lists of src/kernel/lib/list.h, which the other containers and the lists of
-- waiting tasks stand on.
pub mod Defs
pub mod Order
pub mod Without
pub mod Refines
pub mod Commands
mod Tests
