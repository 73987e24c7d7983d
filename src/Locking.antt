-- ===== src/Locking.antt =====
-- The sleeping locks of kernel/thread/locking. A spinlock is held only inside these functions, so a
-- call is one atomic step on the lock's state; the scheduler is what suspends and wakes tasks.
pub mod Mutex
pub mod Spinlock
pub mod RwLock
mod Tests
