-- ===== src/Memory/Heap/Tests.antt =====
-- The heap run on one node with 8 MiB of memory, and the theorems at it.
use ricerca.Common.{
  ℕ, ◌≡◌, refl, ap, true, Option, none, some, [], ◌==◌, if◌then◌else◌, Outcome, returns, suspended,
  fault, arith,
}
use ricerca.Memory.SizeOrder.{size_order, order_loop, slab_orders}
use ricerca.Memory.Dynarray.{align_up, align_down}
use ricerca.Memory.Phys.Slab.{init, take, extend, alloc, get_order}
use ricerca.Memory.Phys.Slab
use ricerca.Memory.Phys.Nodes.{Phys, store_info, walk, alloc_specific}
use ricerca.Memory.Heap.Defs.{
  Heap, carve, add_slab, allocate_from_slab, allocate_new, chunk_slabs, allocate_new_slabs_chunk,
  allocate_at, neighbour_loop, heap_alloc, heap_free,
}
use ricerca.Memory.Heap.Carve.{no_piece}
use ricerca.Memory.Phys.Cover.{held}
use ricerca.Memory.Heap.Slabs.{IsSound, data_room}
use ricerca.Memory.Heap.Node.{Answer, allocate_at-Answer}
use ricerca.Memory.Heap.Free.{Returned, heap_free-Returned}

-- The window of physical memory.
abbrev window : ℕ
window = 0xffff_8000_0000_0000

abbrev memory : Phys
memory = record {
  nodes = λ id. record { neighbours = λ i. 0; ranges = 2 };
  nodes_count = 1;
  ranges = λ r.
      if r == 2
      then some (record { next_range = 0; rc_word = 0; slab = init 0x20_0000 0x80_0000 })
      else none;
  info = some (λ page. record { range = 0; size = 0; node_id = 0 });
}

abbrev empty : Heap
empty = record {
  data_of = λ id. record { free_lists = λ i. []; slabs = [] };
  owner = λ a. 0;
  phys = memory;
}

empty-IsSound : IsSound empty.owner 0 (empty.data_of 0)
empty-IsSound = record { objects = λ o l h. no_piece; unused = no_piece }

empty-room : (p : ℕ) → data_room (empty.data_of 0) p ≡ 0
unfolding held
empty-room p = refl

abbrev object_of : Outcome Heap (Option ℕ) → Option ℕ
object_of (returns o h) = o
object_of (suspended h) = none
object_of fault = none

-- The last object of the last slab of the chunk.
last_object : object_of (heap_alloc window 8 2000 0 empty) ≡ some 0xffff_8000_005f_f800
unfolding heap_alloc neighbour_loop allocate_at allocate_from_slab allocate_new_slabs_chunk
    allocate_new add_slab chunk_slabs carve align_up align_down size_order order_loop alloc_specific
    walk store_info alloc take extend get_order Slab.order_loop
last_object = refl

abbrev backing_of : Outcome Phys (Option ℕ) → ℕ
backing_of (returns (some a) p) = a
backing_of (returns none p) = 0
backing_of (suspended p) = 0
backing_of fault = 0

allocate_at-Answer_example : Answer window 8 0 11 empty (allocate_at window 8 11 0 empty)
unfolding alloc_specific walk store_info alloc take extend get_order Slab.order_loop
allocate_at-Answer_example =
    allocate_at-Answer window 8 0 11 empty (omega arith) (omega arith) refl
      (λ backing p e. omega (arith, ap backing_of e))
      (λ backing p e q. ground (arith, empty-room q)) empty-IsSound
      (λ p. omega (arith, empty-room p))

heap_free-Returned_example :
    (h' : Heap) × (heap_free window 0xffff_8000_0041_0800 2000 empty ≡ returns true h')
    × Returned empty 0 (size_order 2000 slab_orders) 0xffff_8000_0041_0800 h'
    × (h'' : Heap) × (allocate_at window 8 (size_order 2000 slab_orders) 0 h'
        ≡ returns (some 0xffff_8000_0041_0800) h'')
unfolding size_order order_loop align_down
heap_free-Returned_example =
    heap_free-Returned window 8 0xffff_8000_0041_0800 2000 empty 0 (omega arith) empty-IsSound
      (record { aligned = refl; behind = omega arith; inside = omega arith; owned = refl })
