-- ===== src/Memory/Phys/Tests.antt =====
-- Physical memory run on one node of one range of 16 pages.
use ricerca.Common.{
  ℕ, ◌≡◌, refl, Option, none, some, [], ◌∷◌, ◌==◌, if◌then◌else◌, returns, suspended, fault, arith,
}
use ricerca.Memory.Phys.Slab.{
  PhysSlab, enqueue, dequeue, rescan, take, extend, alloc, free, get_order, order_loop,
  split_until_target,
}
use ricerca.Memory.Phys.Nodes.{
  Phys, store_info, walk, alloc_specific, over_neighbours, alloc_on_behalf,
}
use ricerca.Memory.Phys.System.{begin, later, allocates, IsSafe, Reach-IsSafe}
use ricerca.Memory.Phys.Sample.{fresh, range, start, start-AreApart, start-IsValid}
use ricerca.Memory.Phys.Reuse.{alloc-free, next_range_counts}

-- Requests of one page, of two pages, and of one page of a block of two.
page_then_two : PhysSlab → Option (ℕ × ℕ)
page_then_two s = elim (alloc 4096 s) [
  | none ↦ none
  | some (a, t) ↦ elim (alloc 8192 t) [ none ↦ none | some (b, u) ↦ some (a, b) ]
]

grows : page_then_two fresh ≡ some (0x20_0000, 0x20_1000)
unfolding page_then_two alloc take extend get_order order_loop
grows = refl

splits :
    page_then_two (free 0x20_8000 8192 (free 0x20_4000 8192 fresh)) ≡ some (0x20_8000, 0x20_4000)
unfolding page_then_two alloc take get_order order_loop free enqueue dequeue split_until_target
    rescan
splits = refl

too_large : alloc 0x2_0000 fresh ≡ none
unfolding alloc take extend get_order order_loop
too_large = refl

abbrev after : (size : ℕ) → Phys
after size = elim (alloc_on_behalf 8 size 0 start) [
  | returns a p ↦ p
  | suspended p ↦ start
  | fault ↦ start
]

Reach-IsSafe_example :
    IsSafe start (after 8192) (record { range = 2; addr = 0x20_0000; size = 8192 } ∷ [])
unfolding alloc_on_behalf over_neighbours alloc_specific walk store_info alloc take extend get_order
    order_loop
Reach-IsSafe_example =
    Reach-IsSafe start-IsValid start-AreApart (later begin (allocates 8 8192 0 refl refl))

alloc-free_example :
    (s' : PhysSlab) × (alloc 8192 (free 0x20_4000 8192 fresh) ≡ some (0x20_4000, s'))
    × ((i : ℕ) → s'.free_lists i ≡ fresh.free_lists i)
alloc-free_example = alloc-free fresh 0x20_4000 8192 (omega arith)

abbrev two_orders : PhysSlab
two_orders = record fresh {
  free_lists = λ i. if i == 13 then 0x20_8000 ∷ [] else (if i == 12 then 0x20_a000 ∷ [] else []);
  max_freed_order = 13;
}

next_range_counts_example :
    (q : Phys) × (alloc_specific 1 0x1_0000 0 start ≡ returns (some 0x20_0000) q)
    × (alloc_specific 2 4096 0 q ≡ fault)
unfolding alloc take extend get_order order_loop
next_range_counts_example =
    next_range_counts start (λ page. record { range = 0; size = 0; node_id = 0 }) range
      (record fresh { brk_bytes = 0x1_0000 }) 0 0x1_0000 4096 0x20_0000 0 0 refl refl refl refl refl
      refl refl
