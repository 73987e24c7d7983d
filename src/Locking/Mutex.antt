-- ===== src/Locking/Mutex.antt =====
-- src/kernel/thread/locking/mutex.c: a mutex that hands itself over to the longest sleeper.
pub mod Defs
pub mod System
pub mod Fifo
