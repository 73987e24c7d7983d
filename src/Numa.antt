-- ===== src/Numa.antt =====
-- The NUMA nodes of src/kernel/sys/numa/numa.c.
pub mod Defs
pub mod Occurs
pub mod Sort
mod Tests
