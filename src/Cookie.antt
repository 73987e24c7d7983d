-- ===== src/Cookie.antt =====
-- src/kernel/user/cookie.c: the keys that decide who may use a pinned reference.
pub mod Defs
pub mod Auth
pub mod Groups
pub mod Create
mod Tests
