-- ===== src/Locking/RwLock.antt =====
-- src/kernel/thread/locking/rwlock.c.
pub mod Defs
pub mod Unlock
