-- ===== src/Rpc.antt =====
-- src/kernel/user/rpc.c: remote calls from callers to callees through containers.
pub mod Defs
pub mod Calls
pub mod Containers
pub mod Messages
pub mod System
pub mod RoundTrip
pub mod Shutdown
pub mod Faults
mod Tests
