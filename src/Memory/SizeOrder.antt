-- ===== src/Memory/SizeOrder.antt =====
-- mem_heap_get_size_order of src/kernel/mem/heap/heap.c, and when mem_heap_realloc gives memory.
pub mod Bounds
use ricerca.Common.{
  ℕ, zero, suc, ◌+◌, ◌-◌, ◌*◌, ◌%◌, ◌^◌, ◌≤◌, ◌<◌, ◌≡◌, refl, Bool, true, false, ◌||◌, not, ◌==◌,
  ltb, if◌then◌else◌, arith, size_mod,
}

-- The while loop, on fuel: `result` grows in every round and the loop ends when it meets max_order.
unfoldable pub order_loop : ℕ → ℕ → ℕ → ℕ → ℕ → ℕ
order_loop zero size max_order test result = max_order
order_loop (suc fuel) size max_order test result =
    let next = order_loop fuel size max_order (test * 2 % size_mod) (result + 1) in
    if ltb test size then (if result + 1 == max_order then max_order else next) else result

-- mem_heap_get_size_order
unfoldable pub size_order : ℕ → ℕ → ℕ
unfolding order_loop
size_order size max_order = order_loop max_order (if ltb size 16 then 16 else size) max_order 16 4

-- MEM_HEAP_SLAB_ORDERS
abbrev pub slab_orders : ℕ
slab_orders = 12

-- mem_heap_realloc of a block that is not NULL: whether it returns memory, where `alloc` says
-- whether mem_heap_alloc would.
unfoldable pub realloc_succeeds : (alloc : Bool) (newsize oldsize : ℕ) → Bool
realloc_succeeds alloc newsize oldsize =
    if newsize == 0 then false else size_order oldsize 64 == size_order newsize 64 || alloc
