-- ===== src/Shm.antt =====
-- src/kernel/user/shm.c: shared memory, reached by a reference or by its number and a cookie.
pub mod Defs
pub mod ById
pub mod Bounds
pub mod Access
mod Tests
