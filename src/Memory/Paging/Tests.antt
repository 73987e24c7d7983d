-- ===== src/Memory/Paging/Tests.antt =====
-- Runs of src/kernel/mem/virt/paging.c, and uses of the theorems.
use ricerca.Common.{
  Option, true, ℕ, ◌+◌, ◌*◌, ◌^◌, ◌≡◌, refl, false, none, some, if◌then◌else◌, arith, returns,
  suspended, fault, [], ◌∷◌,
}
use ricerca.Memory.Phys.Nodes.{Phys}
use ricerca.Memory.Paging.Defs.{
  or_flags, Pages, get_lvl_index, intermediate, perms_mask, map_locked, map_at, last_table,
  unmap_at,
}
use ricerca.Memory.Paging.Total.{total}
use ricerca.Memory.Paging.Tree.{translate, same}
use ricerca.Memory.Paging.Change.{IsTree}
use ricerca.Memory.Paging.Install.{IsBlank, blank-uses}
use ricerca.Memory.Paging.Spare.{spare}
use ricerca.Memory.Paging.Grow.{AreBlank}
use ricerca.Memory.Paging.Backed.{IsBacked}
use ricerca.Memory.Paging.Regen.{Mapped, map_at-Mapped}
use ricerca.Memory.Phys.Slab.{alloc, take, extend, get_order, order_loop}
use ricerca.Memory.Phys.Nodes.{
  write_info, store_info, walk, alloc_specific, over_neighbours, alloc_on_behalf,
}
use ricerca.Memory.Phys.Ledger.{Block, room_at}
use ricerca.Memory.Phys.System.{begin, later, allocates, Reach-IsSound}
use ricerca.Memory.Phys.Fresh.{IsRam}
use ricerca.Memory.Phys.Sample.{start, start-room, start-AreApart, start-IsValid}
use ricerca.Memory.Paging.System.{
  CanWalk, complete, blank_page_zero, Step, maps, fails, unmaps, Reach, IsAccurate,
  Reach-IsAccurate,
}
use ricerca.Memory.Paging.System
use ricerca.Memory.Paging.Defs.{new_zeroed, regen_cache}
use ricerca.Memory.Paging.Unmap.{has_tables, freed, unmap_at-map_at}

abbrev root : ℕ
root = 0x1000

abbrev no_entries : ℕ → ℕ → ℕ
no_entries t i = 0

abbrev pages : ℕ → ℕ
pages k = 0x2000 + k * 0x1000

abbrev writable : ℕ
writable = 2

-- A writable page, which is not executable.
abbrev mapped : ℕ → ℕ → ℕ
mapped = (map_locked 4 root 0x40_3000 0x9000 writable pages no_entries).1

mapped_there : translate mapped 4 root 0x40_3000 ≡ some (2 ^ 63 + 0x9003)
unfolding translate map_locked intermediate perms_mask or_flags get_lvl_index
mapped_there = refl

next_to_it : translate mapped 4 root 0x40_4000 ≡ none
unfolding translate map_locked intermediate perms_mask or_flags get_lvl_index
next_to_it = refl

unmapped : (unmap_at 4 root 0x40_3000 mapped).0 ≡ 0x9000
unfolding unmap_at last_table map_locked intermediate perms_mask or_flags get_lvl_index
unmapped = refl

pages-AreBlank : AreBlank 3 pages no_entries
pages-AreBlank k lt = record {
  nonzero = omega arith;
  aligned = omega arith;
  physical = omega arith;
  zeroed = λ i lt. refl;
}

root-IsBlank : IsBlank no_entries root
root-IsBlank = record {
  nonzero = omega arith;
  aligned = refl;
  physical = omega arith;
  zeroed = λ i lt. refl;
}

pages-IsTree : IsTree no_entries 4 root (spare 3 pages)
unfolding spare total
pages-IsTree a = ground (arith, blank-uses no_entries 3 root a root-IsBlank)

-- The root is the first page that the allocator gives, and the mapper has none yet.
abbrev block : Block
block = record { range = 2; addr = 0x20_0000; size = 4096 }

abbrev given : Phys
given = elim (alloc_on_behalf 8 4096 0 start) [
  | returns a p ↦ p
  | suspended p ↦ start
  | fault ↦ start
]

abbrev memory : Pages
memory = record { tables = no_entries; phys = given }

first_root : IsBlank no_entries 0x20_0000
first_root = record {
  nonzero = omega arith;
  aligned = refl;
  physical = omega arith;
  zeroed = λ i lt. refl;
}

memory-IsBacked : IsBacked (λ r a. room_at r start a) 3 0x20_0000 (block ∷ []) (λ k. 0) memory
unfolding alloc_on_behalf over_neighbours alloc_specific walk store_info alloc take extend get_order
    order_loop spare total
memory-IsBacked = record {
  memory = record {
    sound =
        Reach-IsSound {start = start} start-IsValid start-AreApart
          (later begin (allocates {addr = 0x20_0000} 8 4096 0 refl refl));
    info =
        write_info 0x200 (record { range = 2; size = 4096; node_id = 0 })
          (λ page. record { range = 0; size = 0; node_id = 0 });
    info_is = refl;
  };
  owned = λ a. ground (arith, blank-uses no_entries 3 0x20_0000 a first_root);
  ready = λ k lt there. absurd (omega arith);
}

start-IsRam : IsRam (λ r a. room_at r start a)
start-IsRam r a h = (ground (arith, h, start-room r a), ground (arith, h, start-room r a))

map_at-Mapped_example :
    Mapped
      (λ r a. room_at r start a)
      3
      0x20_0000
      0x40_3000
      (or_flags 0x9000 (perms_mask writable))
      memory
      (map_at 8 0 false 0x20_0000 0x40_3000 0x9000 writable (λ k. 0) memory)
map_at-Mapped_example =
    map_at-Mapped 8 0 false 0x20_0000 0x40_3000 0x9000 writable (λ k. 0) memory start-AreApart
      start-IsRam memory-IsBacked

unmap_at-map_at_example :
    (left : ℕ → ℕ) × (tables : ℕ → ℕ → ℕ) × (map_at 1 0 false root 0x40_3000 0x9000 writable pages
        memory
      ≡ returns (true, left) (record memory { tables = tables }))
    × ((unmap_at 4 root 0x40_3000 tables).0 ≡ 0x9000)
    × ((w : ℕ)
        → translate (unmap_at 4 root 0x40_3000 tables).1 4 root w
          ≡ (if same 4 w 0x40_3000 then none else translate no_entries 4 root w))
unmap_at-map_at_example =
    unmap_at-map_at 1 0 false root 0x40_3000 0x9000 writable pages memory pages-IsTree
      pages-AreBlank refl (omega arith)

abbrev no_view : ℕ → Option ℕ
no_view w = none

memory-IsAccurate : IsAccurate (λ r a. room_at r start a) 3 0x20_0000 (λ k. 0) memory no_view
unfolding translate
memory-IsAccurate = record { blocks = block ∷ []; backed = memory-IsBacked; translated = λ w. refl }

abbrev new_state : (ℕ → ℕ) × Pages
new_state = elim (map_at 8 0 false 0x20_0000 0x40_3000 0x9000 writable (λ k. 0) memory) [
  | returns (found, left) m ↦ (left, m)
  | suspended m ↦ ((λ k. 0), m)
  | fault ↦ ((λ k. 0), memory)
]

-- The page is mapped, a page without tables is unmapped, and then the one that was mapped.
abbrev mapped_view : ℕ → Option ℕ
mapped_view w =
    if same 4 w 0x40_3000 then some (or_flags 0x9000 (perms_mask writable)) else no_view w

abbrev last_view : ℕ → Option ℕ
last_view w =
    if same 4 w 0x40_3000 then none else (if same 4 w 0x80_0000_0000 then none else mapped_view w)

abbrev after_absent : Pages
after_absent = record new_state.1 {
  tables = (unmap_at 4 0x20_0000 0x80_0000_0000 new_state.1.tables).1;
}

abbrev after_both : Pages
after_both = record after_absent { tables = (unmap_at 4 0x20_0000 0x40_3000 after_absent.tables).1 }

Reach-IsAccurate_example :
    IsAccurate (λ r a. room_at r start a) 3 0x20_0000 new_state.0 after_both last_view
    × ((v : ℕ)
        → CanWalk after_both.tables 4 0x20_0000 v
        → (unmap_at 4 0x20_0000 v after_both.tables).0 ≡ freed (last_view v))
unfolding map_at regen_cache new_zeroed alloc_on_behalf over_neighbours alloc_specific walk
    store_info alloc take extend get_order order_loop has_tables unmap_at last_table map_locked
    intermediate get_lvl_index or_flags perms_mask
Reach-IsAccurate_example =
    Reach-IsAccurate (λ r a. room_at r start a) start-AreApart start-IsRam 0x20_0000 false
      memory-IsAccurate
      (System.later
        (System.later (System.later System.begin (maps 8 0 0x40_3000 0x9000 writable refl))
          (unmaps 0x80_0000_0000 (blank_page_zero refl (λ i. refl))))
        (unmaps 0x40_3000 (complete refl)))
