-- ===== src/Memory/Phys/Slab.antt =====
-- src/kernel/mem/phys/slab.c. A free list is the list of the blocks that its links run through, the
-- links being words of the free blocks themselves; PHYS_NULL is the empty list, and none where a
-- block is returned.
use ricerca.Common.{
  ℕ, zero, suc, ◌+◌, ◌-◌, ◌*◌, ◌%◌, ◌^◌, Bool, true, false, ◌&&◌, Option, none, some, List, [], ◌∷◌,
  ◌==◌, ltb, leb, if◌then◌else◌, size_mod,
}

-- struct mem_phys_slab
pub record PhysSlab : Type 0 where
  pub base : ℕ
  pub brk_bytes : ℕ
  pub length : ℕ
  pub free_lists : ℕ → List ℕ
  pub max_freed_order : ℕ

-- MEM_PHYS_SLAB_ORDERS_COUNT
abbrev pub orders_count : ℕ
orders_count = 64

-- mem_phys_slab_init
abbrev pub init : (base length : ℕ) → PhysSlab
init base length = record {
  base = base;
  brk_bytes = 0;
  length = length;
  free_lists = λ i. [];
  max_freed_order = 0;
}

-- A write to one entry of the free_lists array.
abbrev pub put : ℕ → List ℕ → (ℕ → List ℕ) → ℕ → List ℕ
put order blocks lists i = if i == order then blocks else lists i

-- mem_phys_slab_enqueue
unfoldable pub enqueue : (order block : ℕ) → PhysSlab → PhysSlab
enqueue order block s = record s {
  max_freed_order = if ltb s.max_freed_order order then order else s.max_freed_order;
  free_lists = put order (block ∷ s.free_lists order) s.free_lists;
}

abbrev pub is_empty : List ℕ → Bool
is_empty [] = true
is_empty (b ∷ bs) = false

-- The while loop of mem_phys_slab_dequeue
unfoldable pub rescan : (i : ℕ) → (ℕ → List ℕ) → (max : ℕ) → ℕ
rescan zero lists max = max
rescan (suc i) lists max = rescan i lists (if is_empty (lists i) then max else i)

-- mem_phys_slab_dequeue of a list of the blocks `block ∷ rest`: the slab it leaves.
unfoldable pub dequeue : (order : ℕ) (rest : List ℕ) → PhysSlab → PhysSlab
unfolding rescan
dequeue order rest s =
    let lists = put order rest s.free_lists in
    record s {
      free_lists = lists;
      max_freed_order =
          if is_empty rest && s.max_freed_order == order
          then rescan (s.max_freed_order - 1) lists 0
          else s.max_freed_order;
    }

-- mem_phys_slab_split_until_target
unfoldable pub split_until_target : (base order target : ℕ) → PhysSlab → PhysSlab
unfolding enqueue
split_until_target base zero target s = s
split_until_target base (suc order) target s =
    let split =
      split_until_target base order target (enqueue order ((base + 2 ^ order) % size_mod) s) in
    if ltb target (suc order) then split else s

-- The loop of mem_phys_slab_get_order, on the number of orders left.
unfoldable pub order_loop : (left size current order : ℕ) → ℕ
order_loop zero size current order = orders_count
order_loop (suc left) size current order =
    let next = order_loop left size (current * 2 % size_mod) (order + 1) in
    if leb size current then order else next

-- PHYS_SLAB_GRAN and PAGE_SIZE of src/kernel/mem/misc.h
abbrev pub slab_gran : ℕ
slab_gran = 12

abbrev pub page_size : ℕ
page_size = 4096

-- mem_phys_slab_get_order
unfoldable pub get_order : (size : ℕ) → ℕ
unfolding order_loop
get_order size = order_loop (orders_count - slab_gran) size page_size slab_gran

-- The for loop of mem_phys_slab_alloc, over `left` orders from `i`: the slab and the block of the
-- first list that is not empty.
unfoldable pub take : (left i order : ℕ) → PhysSlab → Option (ℕ × PhysSlab)
take zero i order s = none
take (suc left) i order s = elim (s.free_lists i) [
  | [] ↦ take left (suc i) order s
  | block ∷ rest ↦ some (block, split_until_target block i order (dequeue i rest s))
]

-- The end of mem_phys_slab_alloc, where no list serves: more of the region.
unfoldable pub extend : (order : ℕ) → PhysSlab → Option (ℕ × PhysSlab)
extend order s =
    let new_brk_bytes = (s.brk_bytes + 2 ^ order) % size_mod in
    if leb new_brk_bytes s.length
    then some ((s.brk_bytes + s.base) % size_mod, record s { brk_bytes = new_brk_bytes })
    else none

-- mem_phys_slab_alloc: the block and the slab it leaves; where it returns PHYS_NULL it has written
-- nothing.
unfoldable pub alloc : (size : ℕ) → PhysSlab → Option (ℕ × PhysSlab)
alloc size s =
    let order = get_order size in
    if order == orders_count
    then none
    else elim (take (s.max_freed_order + 1 - order) order order s) [
      | some taken ↦ some taken
      | none ↦ extend order s
    ]

-- mem_phys_slab_free
unfoldable pub free : (addr size : ℕ) → PhysSlab → PhysSlab
free addr size s = enqueue (get_order size) addr s
