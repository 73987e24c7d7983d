-- ===== src/Containers.antt =====
-- The intrusive containers of kernel/lib: pairing heaps and maps from numbers.
pub mod PairingHeap
pub mod Intmap
pub mod Queue
pub mod Links
