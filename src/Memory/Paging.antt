-- ===== src/Memory/Paging.antt =====
-- Page tables: src/kernel/mem/virt/paging.c.
pub mod Defs
pub mod Flags
pub mod Total
pub mod Tree
pub mod Change
pub mod Install
pub mod Spare
pub mod Grow
pub mod Map
pub mod Backed
pub mod Regen
pub mod Unmap
pub mod Missing
pub mod System
mod Tests
