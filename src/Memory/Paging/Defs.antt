-- ===== src/Memory/Paging/Defs.antt =====
-- src/kernel/mem/virt/paging.c: the page tables as words by the physical address of the table and the
-- index. The part under the spinlock of the root is `map_locked` and `unmap_at`; mem_paging_regen_cache runs
-- before it, on a mapper's own pages. The assertions on the address are not there without DEBUG.
use ricerca.Common.{
  ℕ, zero, suc, ◌+◌, ◌-◌, ◌*◌, ◌/◌, ◌%◌, ◌^◌, Bool, true, false, ◌&&◌, Option, none, some, ◌==◌,
  if◌then◌else◌, Outcome, returns, suspended, fault,
}
use ricerca.Memory.Phys.Slab.{page_size}
use ricerca.Memory.Phys.Nodes.{Phys, alloc_on_behalf}

-- The memory that the calls work on: the tables, and the physical allocator.
pub record Pages : Type 0 where
  pub tables : ℕ → ℕ → ℕ
  pub phys : Phys

-- FLAG_PRESENT, FLAG_WRITABLE, FLAGS_USER and FLAGS_NOEXEC
abbrev pub flag_present : ℕ
flag_present = 1

abbrev pub flag_writable : ℕ
flag_writable = 2

abbrev pub flags_user : ℕ
flags_user = 4

abbrev pub flags_noexec : ℕ
flags_noexec = 2 ^ 63

-- entry & ~FLAGS_MASK
abbrev pub page_of : ℕ → ℕ
page_of entry = entry % 2 ^ 63 / 512 * 512

-- x | flags, for a word whose bits are among the four flags
abbrev pub or_flag : (flag flags x : ℕ) → ℕ
or_flag flag flags x =
    if flags / flag % 2 == 0 then x else (if x / flag % 2 == 0 then x + flag else x)

unfoldable pub or_flags : (x flags : ℕ) → ℕ
or_flags x flags =
    or_flag flags_noexec flags
      (or_flag flags_user flags (or_flag flag_writable flags (or_flag flag_present flags x)))

-- mem_paging_get_lvl_index
unfoldable pub get_lvl_index : (addr lvl : ℕ) → ℕ
get_lvl_index addr lvl = addr / 2 ^ (9 * lvl + 3) % 512

-- A write to one word of one table.
abbrev pub set_entry : (table index entry : ℕ) → (ℕ → ℕ → ℕ) → ℕ → ℕ → ℕ
set_entry table index entry tables t i = if (t == table) && (i == index) then entry else tables t i

-- mem_paging_new_zeroed on a core of the node `id`
unfoldable pub new_zeroed : (fuel id : ℕ) → Pages → Outcome Pages (Option ℕ)
new_zeroed fuel id m = elim (alloc_on_behalf fuel page_size id m.phys) [
  | returns none p ↦ returns none (record m { phys = p })
  | returns (some res) p ↦
      returns (some res) (record { tables = λ t i. if t == res then 0 else m.tables t i; phys = p })
  | suspended p ↦ suspended (record m { phys = p })
  | fault ↦ fault
]

-- The loop of mem_paging_regen_cache over `left` pages of a mapper from i on; 0 is PHYS_NULL. Beside
-- the mapper's pages it gives whether they are all there.
unfoldable pub regen_cache :
    (fuel id left i : ℕ) → (zeroed_pages : ℕ → ℕ) → Pages → Outcome Pages (Bool × (ℕ → ℕ))
unfolding new_zeroed
regen_cache fuel id zero i zeroed_pages m = returns (true, zeroed_pages) m
regen_cache fuel id (suc left) i zeroed_pages m =
    let rest = regen_cache fuel id left (suc i) zeroed_pages m in
    if zeroed_pages i == 0
    then elim (new_zeroed fuel id m) [
      | returns none m' ↦ returns (false, zeroed_pages) m'
      | returns (some res) m' ↦
          regen_cache fuel id left (suc i) (λ k. if k == i then res else zeroed_pages k) m'
      | suspended m' ↦ suspended m'
      | fault ↦ fault
    ]
    else rest

-- interm_perms
abbrev pub interm_perms : ℕ
interm_perms = flag_present + flag_writable + flags_user

-- The body of the loop of mem_paging_map_at at the level i, and the loop from the level `lvl` down: the
-- table of the last level, the pages that are left and the tables.
unfoldable pub intermediate :
    (lvl current_phys vaddr : ℕ) → (ℕ → ℕ) → (ℕ → ℕ → ℕ) → ℕ × (ℕ → ℕ) × (ℕ → ℕ → ℕ)
intermediate zero current_phys vaddr zeroed_pages tables = (current_phys, zeroed_pages, tables)
intermediate (suc zero) current_phys vaddr zeroed_pages tables =
    (current_phys, zeroed_pages, tables)
intermediate (suc (suc l)) current_phys vaddr zeroed_pages tables =
    let index = get_lvl_index vaddr (suc (suc l)) in
    let entry = tables current_phys index in
    let page = zeroed_pages l in
    let added =
      intermediate (suc l) page vaddr (λ k. if k == l then 0 else zeroed_pages k)
        (set_entry current_phys index (or_flags page interm_perms) tables) in
    let there = intermediate (suc l) (page_of entry) vaddr zeroed_pages tables in
    if entry == 0 then added else there

-- perms_mask
unfoldable pub perms_mask : (perms : ℕ) → ℕ
perms_mask perms =
    flag_present
    + (if perms / 2 % 2 == 0 then 0 else flag_writable)
    + (if perms / 4 % 2 == 0 then flags_noexec else 0)
    + (if perms / 8 % 2 == 0 then 0 else flags_user)

-- The number of levels.
abbrev pub levels : (five_level : Bool) → ℕ
levels five_level = if five_level then 5 else 4

-- The part of mem_paging_map_at under the lock.
unfoldable pub map_locked :
    (lvls cr3 vaddr paddr perms : ℕ) → (ℕ → ℕ) → (ℕ → ℕ → ℕ) → (ℕ → ℕ) × (ℕ → ℕ → ℕ)
unfolding perms_mask or_flags
map_locked lvls cr3 vaddr paddr perms zeroed_pages tables =
    let (table, left, tables') = intermediate lvls cr3 vaddr zeroed_pages tables in
    (left, set_entry table (get_lvl_index vaddr 1) (or_flags paddr (perms_mask perms)) tables')

-- mem_paging_map_at: whether it succeeds, and the mapper's pages.
unfoldable pub map_at :
    (fuel id : ℕ) (five_level : Bool) (cr3 vaddr paddr perms : ℕ)
    → (ℕ → ℕ)
    → Pages
    → Outcome Pages (Bool × (ℕ → ℕ))
map_at fuel id five_level cr3 vaddr paddr perms zeroed_pages m =
    elim (regen_cache fuel id (levels five_level - 1) 0 zeroed_pages m) [
      | returns (true, pages) m' ↦
          let (left, tables) =
            map_locked (levels five_level) cr3 vaddr paddr perms pages m'.tables in
          returns (true, left) (record m' { tables = tables })
      | returns (false, pages) m' ↦ returns (false, pages) m'
      | suspended m' ↦ suspended m'
      | fault ↦ fault
    ]

-- The loop of mem_paging_unmap_at: the table of the last level.
unfoldable pub last_table : (lvl current_phys vaddr : ℕ) → (ℕ → ℕ → ℕ) → ℕ
last_table zero current_phys vaddr tables = current_phys
last_table (suc zero) current_phys vaddr tables = current_phys
last_table (suc (suc l)) current_phys vaddr tables =
    last_table (suc l) (page_of (tables current_phys (get_lvl_index vaddr (suc (suc l))))) vaddr
      tables

-- mem_paging_unmap_at: the address that it returns, and the tables.
unfoldable pub unmap_at : (lvls cr3 vaddr : ℕ) → (ℕ → ℕ → ℕ) → ℕ × (ℕ → ℕ → ℕ)
unmap_at lvls cr3 vaddr tables =
    let table = last_table lvls cr3 vaddr tables in
    let index = get_lvl_index vaddr 1 in
    (page_of (tables table index), set_entry table index 0 tables)
