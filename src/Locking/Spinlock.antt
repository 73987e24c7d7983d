-- ===== src/Locking/Spinlock.antt =====
-- The ticket lock of src/kernel/thread/locking/spinlock.c.
pub mod Defs
pub mod Queue
pub mod Safety
mod Tests
