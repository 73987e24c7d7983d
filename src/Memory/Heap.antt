-- ===== src/Memory/Heap.antt =====
-- The kernel's heap: src/kernel/mem/heap/heap.c.
pub mod Defs
pub mod Carve
pub mod Slabs
pub mod Moves
pub mod Serve
pub mod Node
pub mod Free
mod Tests
