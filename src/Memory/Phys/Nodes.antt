-- ===== src/Memory/Phys/Nodes.antt =====
-- src/kernel/mem/phys/phys.c: the memory ranges by address, as the objects of struct mem_range that
-- the nodes' lists link. A node's spinlock is held for the whole of an operation on its ranges.
use ricerca.Common.{
  ℕ, zero, suc, ◌+◌, ◌-◌, ◌*◌, ◌/◌, ◌%◌, Bool, true, ◌&&◌, not, Option, none, some, ◌==◌,
  if◌then◌else◌, size_mod, Outcome, returns, suspended, fault,
}
use ricerca.Memory.Phys.Slab.{PhysSlab, alloc, free, page_size}

-- struct mem_range. Nothing sets the reference count of a slab, `rc_word`.
pub record MemRange : Type 0 where
  pub next_range : ℕ
  pub rc_word : ℕ
  pub slab : PhysSlab

-- struct mem_phys_object_data
pub record ObjectData : Type 0 where
  pub range : ℕ
  pub size : ℕ
  pub node_id : ℕ

-- The fields of struct numa_node that the allocator reads.
pub record Node : Type 0 where
  pub neighbours : ℕ → ℕ
  pub ranges : ℕ

-- `info` is mem_phys_objects_info, none while it is NULL; `ranges` has what is at an address.
pub record Phys : Type 0 where
  pub nodes : ℕ → Node
  pub nodes_count : ℕ
  pub ranges : ℕ → Option MemRange
  pub info : Option (ℕ → ObjectData)

abbrev pub put_range : ℕ → MemRange → Phys → Phys
put_range r x p = record p { ranges = λ q. if q == r then some x else p.ranges q }

abbrev pub write_info : ℕ → ObjectData → (ℕ → ObjectData) → ℕ → ObjectData
write_info page obj info q = if q == page then obj else info q

-- mem_phys_get_data, and a read of what it points to
abbrev pub get_data : ℕ → Phys → Option ObjectData
get_data addr p = elim p.info [ none ↦ none | some info ↦ some (info (addr / page_size)) ]

-- mem_phys_store_info, for the range x at the address r. MEM_REF_BORROW counts up the first word of
-- the object, which in a range is next_range.
unfoldable pub store_info : (addr size r : ℕ) → MemRange → (id : ℕ) → Phys → Phys
store_info addr size r x id p = elim p.info [
  | none ↦ p
  | some info ↦ record (put_range r (record x { next_range = (x.next_range + 1) % size_mod }) p) {
    info =
        some (write_info (addr / page_size) (record { range = r; size = size; node_id = id }) info);
  }
]

-- The loop of mem_phys_alloc_specific_nolock, from the range at the address r on, for at most
-- `fuel` ranges; suspended stands for a walk that goes on behind them.
unfoldable pub walk : (fuel size id r : ℕ) → Phys → Outcome Phys (Option ℕ)
unfolding store_info
walk zero size id r p = suspended p
walk (suc fuel) size id zero p = returns none p
walk (suc fuel) size id (suc r) p = elim (p.ranges (suc r)) [
  | none ↦ fault
  | some x ↦ elim (alloc size x.slab) [
    | some (result, slab) ↦
        let x' : MemRange = record x { slab = slab } in
        returns (some result) (store_info result size (suc r) x' id (put_range (suc r) x' p))
    | none ↦ walk fuel size id x.next_range p
  ]
]

-- mem_phys_alloc_specific and mem_phys_alloc_specific_nolock
unfoldable pub alloc_specific : (fuel size id : ℕ) → Phys → Outcome Phys (Option ℕ)
unfolding walk
alloc_specific fuel size id p = walk fuel size id (p.nodes id).ranges p

-- The loop of mem_phys_alloc_on_behalf, over `left` neighbours from the index i.
unfoldable pub over_neighbours :
    (fuel size : ℕ) → (ℕ → ℕ) → (left i : ℕ) → Phys → Outcome Phys (Option ℕ)
unfolding alloc_specific
over_neighbours fuel size neighbours zero i p = returns none p
over_neighbours fuel size neighbours (suc left) i p =
    elim (alloc_specific fuel size (neighbours i) p) [
      | returns (some result) p' ↦ returns (some result) p'
      | returns none p' ↦ over_neighbours fuel size neighbours left (suc i) p'
      | suspended p' ↦ suspended p'
      | fault ↦ fault
    ]

-- mem_phys_alloc_on_behalf
unfoldable pub alloc_on_behalf : (fuel size id : ℕ) → Phys → Outcome Phys (Option ℕ)
unfolding over_neighbours
alloc_on_behalf fuel size id p = over_neighbours fuel size (p.nodes id).neighbours p.nodes_count 0 p

-- MEM_REF_DROP of the range x at r: the first word counts down, and the second word is called when
-- the first was 1 and the second is not NULL.
unfoldable pub drop_range : (r : ℕ) → MemRange → Phys → Outcome Phys Bool
drop_range r x p =
    let x' : MemRange = record x { next_range = (x.next_range + size_mod - 1) % size_mod } in
    if x.next_range == 1 && not (x.rc_word == 0) then fault else returns true (put_range r x' p)

-- mem_phys_free
unfoldable pub free_object : (addr : ℕ) → Phys → Outcome Phys Bool
unfolding drop_range
free_object addr p = elim (get_data addr p) [
  | none ↦ fault
  | some obj ↦ elim (p.ranges obj.range) [
    | none ↦ fault
    | some x ↦
        let x' : MemRange = record x { slab = free addr obj.size x.slab } in
        drop_range obj.range x' (put_range obj.range x' p)
  ]
]

-- mem_phys_init, where `junk` is what the memory of the table held before; it panics where the
-- table cannot be allocated.
unfoldable pub init_objects :
    (fuel space_size boot_domain : ℕ) → (junk : ℕ → ObjectData) → Phys → Outcome Phys Bool
unfolding alloc_on_behalf
init_objects fuel space_size boot_domain junk p =
    elim (alloc_on_behalf fuel (space_size / page_size * 24 % size_mod) boot_domain p) [
      | returns (some info_phys) p' ↦ returns true (record p' { info = some junk })
      | returns none p' ↦ fault
      | suspended p' ↦ suspended p'
      | fault ↦ fault
    ]
