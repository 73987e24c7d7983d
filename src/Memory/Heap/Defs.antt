-- ===== src/Memory/Heap/Defs.antt =====
-- src/kernel/mem/heap/heap.c: the heap of every NUMA node. Free objects and free slabs are lists of
-- their virtual addresses, the links being words of the free memory itself; `owner` is the first
-- word of the slab at an address. A node's spinlock is held where the source holds it.
use ricerca.Common.{
  ℕ, zero, suc, ◌+◌, ◌-◌, ◌*◌, ◌/◌, ◌^◌, Bool, true, false, Option, none, some, List, [], ◌∷◌, ◌==◌,
  ltb, if◌then◌else◌, Outcome, returns, suspended, fault,
}
use ricerca.Memory.SizeOrder.{size_order, slab_orders}
use ricerca.Memory.Dynarray.{align_up, align_down}
use ricerca.Memory.Phys.Slab.{put}
use ricerca.Memory.Phys.Nodes.{
  Phys, alloc_specific, alloc_on_behalf as phys_alloc_on_behalf, free_object,
}

-- struct mem_heap_slab_data
pub record SlabData : Type 0 where
  pub free_lists : ℕ → List ℕ
  pub slabs : List ℕ

pub record Heap : Type 0 where
  pub data_of : ℕ → SlabData
  pub owner : ℕ → ℕ
  pub phys : Phys

-- MEM_HEAP_SLAB_SIZE, MEM_HEAP_CHUNK_SIZE and sizeof(struct mem_heap_slab_hdr)
abbrev pub slab_size : ℕ
slab_size = 65536

abbrev pub chunk_size : ℕ
chunk_size = 64 * slab_size

abbrev pub hdr_size : ℕ
hdr_size = 16

abbrev pub put_data : ℕ → SlabData → Heap → Heap
put_data id d h = record h { data_of = λ i. if i == id then d else h.data_of i }

abbrev pub set_owner : (slab id : ℕ) → (ℕ → ℕ) → ℕ → ℕ
set_owner slab id owner a = if a == slab then id else owner a

-- The loops that walk memory by `step` from `addr` up to `end` and push every address, of the slabs of
-- a chunk and of the objects of a slab, for at most `left` rounds.
unfoldable pub carve : (left addr end step : ℕ) → List ℕ → List ℕ
carve zero addr end step list = list
carve (suc left) addr end step list =
    let rest = carve left (addr + step) end step (addr ∷ list) in
    if ltb addr end then rest else list

-- mem_heap_add_slab, for the slab `slab` of the list `slab ∷ slabs`
unfoldable pub add_slab : (id order slab : ℕ) → (slabs : List ℕ) → Heap → Heap
add_slab id order slab slabs h =
    let start = align_up (slab + hdr_size) (2 ^ order) in
    let list =
      carve (slab_size / 2 ^ order) start (slab + slab_size) (2 ^ order)
        ((h.data_of id).free_lists order) in
    record (put_data id
      (record { free_lists = put order list (h.data_of id).free_lists; slabs = slabs }) h) {
        owner = set_owner slab id h.owner;
      }

-- mem_allocate_from_slab; none where the free list is empty, which the source asserts against.
unfoldable pub allocate_from_slab : (id order : ℕ) → Heap → Option (ℕ × Heap)
allocate_from_slab id order h = elim ((h.data_of id).free_lists order) [
  | [] ↦ none
  | obj ∷ next ↦ some (
    obj,
    put_data id (record (h.data_of id) { free_lists = put order next (h.data_of id).free_lists }) h,
  )
]

-- The object of a slab that has just been added.
unfoldable pub allocate_new :
    (id order slab : ℕ) → (slabs : List ℕ) → Heap → Outcome Heap (Option ℕ)
allocate_new id order slab slabs h =
    elim (allocate_from_slab id order (add_slab id order slab slabs h)) [
      | none ↦ fault
      | some (obj, h') ↦ returns (some obj) h'
    ]

-- `win` is mem_wb_phys_win_base.
module _ (win : ℕ) where
  -- mem_allocate_new_slabs_chunk, behind the allocation of the memory at `backing`
  unfoldable pub chunk_slabs : (backing : ℕ) → List ℕ → List ℕ
  chunk_slabs backing slabs =
      let begin = align_up backing slab_size in
      let end = align_down (backing + chunk_size) slab_size in
      carve 64 (win + begin) (win + end) slab_size slabs

  unfoldable pub allocate_new_slabs_chunk : (fuel id : ℕ) → Heap → Outcome Heap Bool
  allocate_new_slabs_chunk fuel id h = elim (alloc_specific fuel chunk_size id h.phys) [
    | returns none p ↦ returns false (record h { phys = p })
    | returns (some backing) p ↦ returns true (
        put_data id (record (h.data_of id) { slabs = chunk_slabs backing (h.data_of id).slabs })
          (record h { phys = p }))
    | suspended p ↦ suspended (record h { phys = p })
    | fault ↦ fault
  ]

  -- The body of the loop of mem_heap_alloc_on_behalf, at one neighbour: none where the loop goes on.
  unfoldable pub allocate_at : (fuel order id : ℕ) → Heap → Outcome Heap (Option ℕ)
  allocate_at fuel order id h = elim (allocate_from_slab id order h) [
    | some (obj, h') ↦ returns (some obj) h'
    | none ↦ elim ((h.data_of id).slabs) [
      | slab ∷ slabs ↦ allocate_new id order slab slabs h
      | [] ↦ elim (allocate_new_slabs_chunk fuel id h) [
        | returns true h' ↦ elim ((h'.data_of id).slabs) [
          | slab ∷ slabs ↦ allocate_new id order slab slabs h'
          | [] ↦ fault
        ]
        | returns false h' ↦ returns none h'
        | suspended h' ↦ suspended h'
        | fault ↦ fault
      ]
    ]
  ]

  unfoldable pub neighbour_loop :
      (fuel order : ℕ) → (ℕ → ℕ) → (left i : ℕ) → Heap → Outcome Heap (Option ℕ)
  neighbour_loop fuel order neighbours zero i h = returns none h
  neighbour_loop fuel order neighbours (suc left) i h =
      elim (allocate_at fuel order (neighbours i) h) [
        | returns (some obj) h' ↦ returns (some obj) h'
        | returns none h' ↦ neighbour_loop fuel order neighbours left (suc i) h'
        | suspended h' ↦ suspended h'
        | fault ↦ fault
      ]

  -- mem_heap_alloc_on_behalf; mem_heap_alloc calls it with the node of the core.
  unfoldable pub heap_alloc : (fuel size id : ℕ) → Heap → Outcome Heap (Option ℕ)
  heap_alloc fuel size id h =
      let order = size_order size slab_orders in
      if order == slab_orders
      then elim (phys_alloc_on_behalf fuel size id h.phys) [
        | returns none p ↦ returns none (record h { phys = p })
        | returns (some res) p ↦ returns (some (win + res)) (record h { phys = p })
        | suspended p ↦ suspended (record h { phys = p })
        | fault ↦ fault
      ]
      else neighbour_loop fuel order (h.phys.nodes id).neighbours h.phys.nodes_count 0 h

  -- mem_heap_free of a block that is not NULL
  unfoldable pub heap_free : (mem size : ℕ) → Heap → Outcome Heap Bool
  heap_free mem size h =
      let order = size_order size slab_orders in
      let id = h.owner (align_down mem slab_size) in
      let d = h.data_of id in
      if order == slab_orders
      then elim (free_object (mem - win) h.phys) [
        | returns ok p ↦ returns ok (record h { phys = p })
        | suspended p ↦ suspended (record h { phys = p })
        | fault ↦ fault
      ]
      else returns true (
          put_data id (record d { free_lists = put order (mem ∷ d.free_lists order) d.free_lists })
            h)

  -- mem_heap_realloc, with NULL as none; what memcpy copies is not part of the state.
  unfoldable pub heap_realloc :
      (fuel id : ℕ) (mem : Option ℕ) (newsize oldsize : ℕ) → Heap → Outcome Heap (Option ℕ)
  heap_realloc fuel id none newsize oldsize h = heap_alloc fuel newsize id h
  heap_realloc fuel id (some mem) newsize oldsize h =
      if newsize == 0
      then elim (heap_free mem oldsize h) [
        | returns ok h' ↦ returns none h'
        | suspended h' ↦ suspended h'
        | fault ↦ fault
      ]
      else if size_order oldsize 64 == size_order newsize 64
      then returns (some mem) h
      else elim (heap_alloc fuel newsize id h) [
        | returns none h' ↦ returns none h'
        | returns (some result) h' ↦ elim (heap_free mem oldsize h') [
          | returns ok h'' ↦ returns (some result) h''
          | suspended h'' ↦ suspended h''
          | fault ↦ fault
        ]
        | suspended h' ↦ suspended h'
        | fault ↦ fault
      ]
