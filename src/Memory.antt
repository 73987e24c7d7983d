-- ===== src/Memory.antt =====
-- Reference counts (kernel/mem/rc.h), size orders of the heap (kernel/mem/heap/heap.c) and the
-- resizable arrays on top of it (kernel/lib/dynarray.h).
pub mod Refcount
pub mod SizeOrder
pub mod Dynarray
pub mod Phys
pub mod Heap
pub mod Paging
mod Tests
