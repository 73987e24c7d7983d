-- ===== src/Memory/Phys.antt =====
-- Physical memory: the slab of one memory region (src/kernel/mem/phys/slab.c), and the allocator
-- over the regions of the NUMA nodes (src/kernel/mem/phys/phys.c).
pub mod Slab
pub mod Cover
pub mod Orders
pub mod Alloc
pub mod Nodes
pub mod Ledger
pub mod Walk
pub mod Enter
pub mod Release
pub mod System
pub mod Fresh
pub mod Reuse
pub mod Sample
mod Tests
