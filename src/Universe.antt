-- ===== src/Universe.antt =====
-- src/kernel/user/universe.c: the capability tables of the kernel. A universe maps small numbers
-- (handles) to references, each pinned to the key of who may move or drop it.
pub mod Defs
pub mod Single
pub mod Pair
pub mod Life
pub mod Table
pub mod Frame
pub mod Refusal
pub mod Spec
pub mod Errors
pub mod Across
mod Tests
