-- ===== src/Entry.antt =====
-- src/kernel/user/entry.c: the system calls, as compositions of the calls of the other components.
pub mod System
pub mod Handles
pub mod Create
pub mod Groups
pub mod Remote
pub mod Universes
pub mod Shared
pub mod Calls
pub mod Refusals
pub mod Access
mod Tests
