-- ===== src/Tasking.antt =====
-- src/kernel/thread/tasking: which task a core runs.
pub mod Defs
pub mod Queue
pub mod Places
pub mod Handlers
pub mod System
pub mod Wakeup
pub mod Balancer
mod Tests
