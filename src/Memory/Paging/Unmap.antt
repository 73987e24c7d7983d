-- ===== src/Memory/Paging/Unmap.antt =====
-- mem_paging_unmap_at of src/kernel/mem/virt/paging.c.
use ricerca.Common.{
  Option, false, ◌≤◌, Bool, returns, ◌-◌, ℕ, zero, suc, ◌+◌, ◌%◌, ◌^◌, ◌<◌, ◌≡◌, refl, ap, ◌∙◌,
  true, none, some, ◌==◌, ==_refl, if◌then◌else◌, arith, inl, inr, Bool-cases,
}
use ricerca.Memory.Paging.Defs.{
  or_flags, Pages, regen_cache, map_at, levels, get_lvl_index, page_of, set_entry, last_table,
  unmap_at, map_locked, perms_mask,
}
use ricerca.Memory.Paging.Flags.{page_of-or_flags}
use ricerca.Memory.Paging.Tree.{translate, same, index-lt, uses-child}
use ricerca.Memory.Paging.Change.{Changed, IsTree, Changed-up}
use ricerca.Memory.Paging.Install.{leaf-Changed}
use ricerca.Memory.Paging.Spare.{spare}
use ricerca.Memory.Paging.Grow.{AreBlank}
use ricerca.Memory.Paging.Map.{map_locked-Mapping}

-- The tables with the last write of the unmapping done.
unfoldable pub cleared : (lvls cr3 v : ℕ) → (ℕ → ℕ → ℕ) → ℕ → ℕ → ℕ
cleared lvls cr3 v tables = set_entry (last_table lvls cr3 v tables) (get_lvl_index v 1) 0 tables

-- The walk follows the processor's where it finds a page.
walk-there :
    (tables : ℕ → ℕ → ℕ) (l cr3 v entry : ℕ)
    → translate tables (suc l) cr3 v ≡ some entry
    → tables (last_table (suc l) cr3 v tables) (get_lvl_index v 1) ≡ entry
unfolding translate last_table
walk-there tables zero cr3 v entry e = ground (arith, e)
walk-there tables (suc l) cr3 v entry e =
    elim (Bool-cases (tables cr3 (get_lvl_index v (suc (suc l))) == 0)) [
      | inl empty ↦ absurd (ground (arith, e, empty))
      | inr there_is ↦
          walk-there tables l (page_of (tables cr3 (get_lvl_index v (suc (suc l))))) v entry
            (ground (arith, e, there_is))
    ]

-- Every upper table on the way to an address is there.
unfoldable pub has_tables : (tables : ℕ → ℕ → ℕ) (lvl table v : ℕ) → Bool
has_tables tables zero table v = true
has_tables tables (suc zero) table v = true
has_tables tables (suc (suc l)) table v =
    let entry = tables table (get_lvl_index v (suc (suc l))) in
    let below = has_tables tables (suc l) (page_of entry) v in if entry == 0 then false else below

translate-has_tables :
    (tables : ℕ → ℕ → ℕ) (l cr3 v entry : ℕ)
    → translate tables (suc l) cr3 v ≡ some entry
    → has_tables tables (suc l) cr3 v ≡ true
unfolding translate has_tables
translate-has_tables tables zero cr3 v entry e = refl
translate-has_tables tables (suc l) cr3 v entry e =
    let below =
      translate-has_tables tables l (page_of (tables cr3 (get_lvl_index v (suc (suc l))))) v
        entry in
    ground (arith, e, below)

pub cleared-Changed :
    (tables : ℕ → ℕ → ℕ) (l cr3 v : ℕ)
    → IsTree tables (suc l) cr3 (λ a. 0)
    → has_tables tables (suc l) cr3 v ≡ true
    → Changed tables (cleared (suc l) cr3 v tables) (suc l) cr3 v none (λ a. 0)
unfolding has_tables last_table cleared
cleared-Changed tables zero cr3 v tree e = leaf-Changed tables cr3 v 0
cleared-Changed tables (suc l) cr3 v tree e =
    let k = get_lvl_index v (suc (suc l)) in
    let c = page_of (tables cr3 k) in
    elim (Bool-cases (tables cr3 k == 0)) [
      | inl empty ↦ absurd (ground (arith, e, empty))
      | inr there_is ↦
          Changed-up tables (cleared (suc l) c v tables) l cr3 v none (λ a. 0) tree k refl there_is
            (cleared-Changed tables l c v
              (λ a.
                omega
                  (arith, tree a, uses-child tables l cr3 k a (index-lt v (suc (suc l))) there_is))
              (ground (arith, e, there_is)))
    ]

pub same-own : (lvl v : ℕ) → same lvl v v ≡ true
unfolding same
same-own zero v = refl
same-own (suc l) v = rw (==_refl (get_lvl_index v (suc l)), same-own l v) refl

-- What an unmapping gives back for what a page is mapped to.
unfoldable pub freed : Option ℕ → ℕ
freed none = 0
freed (some entry) = page_of entry

walk-freed :
    (tables : ℕ → ℕ → ℕ) (l cr3 v : ℕ)
    → has_tables tables (suc l) cr3 v ≡ true
    → page_of (tables (last_table (suc l) cr3 v tables) (get_lvl_index v 1))
      ≡ freed (translate tables (suc l) cr3 v)
unfolding translate has_tables last_table freed
walk-freed tables zero cr3 v e = ground arith
walk-freed tables (suc l) cr3 v e =
    let below = walk-freed tables l (page_of (tables cr3 (get_lvl_index v (suc (suc l))))) v in
    elim (Bool-cases (tables cr3 (get_lvl_index v (suc (suc l))) == 0)) [
      | inl empty ↦ absurd (ground (arith, e, empty))
      | inr there_is ↦ rw there_is (below (ground (arith, e, there_is)))
    ]

pub unmap_at_complete :
    (tables : ℕ → ℕ → ℕ) (l cr3 v : ℕ)
    → has_tables tables (suc l) cr3 v ≡ true
    → (unmap_at (suc l) cr3 v tables).0 ≡ freed (translate tables (suc l) cr3 v)
unfolding unmap_at
unmap_at_complete tables l cr3 v e = walk-freed tables l cr3 v e

-- What mem_paging_unmap_at returns, and leaves of the tree.
pub record Unmapping (tables : ℕ → ℕ → ℕ) (lvls cr3 v entry : ℕ) (out : ℕ × (ℕ → ℕ → ℕ))
    : Type 0 where
  pub returned : out.0 ≡ page_of entry
  pub translated :
      (w : ℕ)
      → translate out.1 lvls cr3 w ≡ (if same lvls w v then none else translate tables lvls cr3 w)
  pub tree : IsTree out.1 lvls cr3 (λ a. 0)

-- A page that a tree of distinct tables maps is unmapped: the address of its entry comes back, its
-- translation is gone and no other, and the tables are still distinct.
unmap_at-Unmapping :
    (tables : ℕ → ℕ → ℕ) (l cr3 v entry : ℕ)
    → IsTree tables (suc l) cr3 (λ a. 0)
    → translate tables (suc l) cr3 v ≡ some entry
    → Unmapping tables (suc l) cr3 v entry (unmap_at (suc l) cr3 v tables)
unfolding unmap_at cleared
unmap_at-Unmapping tables l cr3 v entry tree e =
    let c = cleared-Changed tables l cr3 v tree (translate-has_tables tables l cr3 v entry e) in
    record {
      returned = ap page_of (walk-there tables l cr3 v entry e);
      translated = c.translated;
      tree = λ a. omega (arith, c.used a, tree a);
    }

unmap_at-map_locked :
    (l cr3 v paddr perms : ℕ) (pages : ℕ → ℕ) (tables : ℕ → ℕ → ℕ)
    → IsTree tables (suc l) cr3 (spare l pages)
    → AreBlank l pages tables
    → paddr % 4096 ≡ 0
    → paddr < 2 ^ 63
    → ((unmap_at (suc l) cr3 v ((map_locked (suc l) cr3 v paddr perms pages tables).1)).0 ≡ paddr)
      × ((w : ℕ)
          → translate
              ((unmap_at (suc l) cr3 v ((map_locked (suc l) cr3 v paddr perms pages tables).1)).1)
              (suc l)
              cr3
              w
            ≡ (if same (suc l) w v then none else translate tables (suc l) cr3 w))
unfolding perms_mask
unmap_at-map_locked l cr3 v paddr perms pages tables tree blank aligned physical =
    let mapped = map_locked-Mapping l cr3 v paddr perms pages tables tree blank in
    let tables' = (map_locked (suc l) cr3 v paddr perms pages tables).1 in
    let there : translate tables' (suc l) cr3 v ≡ some (or_flags paddr (perms_mask perms)) =
      mapped.translated v ∙ rw (same-own (suc l) v) refl in
    let u =
      unmap_at-Unmapping tables' l cr3 v (or_flags paddr (perms_mask perms))
        (λ a. omega (arith, mapped.owned a, tree a)) there in
    let back : page_of (or_flags paddr (perms_mask perms)) ≡ paddr =
      page_of-or_flags paddr (perms_mask perms) aligned physical in
    (
      u.returned ∙ back,
      λ w. u.translated w ∙ elim (Bool-cases (same (suc l) w v)) [
        | inl is_v ↦ rw is_v refl
        | inr other ↦ rw (other, mapped.translated w, other) refl
      ],
    )

-- A mapper that has its pages is left alone.
regen_cache-full :
    (fuel id left i : ℕ) (pages : ℕ → ℕ) (m : Pages)
    → ((k : ℕ) → k < left + i → 1 ≤ pages k)
    → regen_cache fuel id left i pages m ≡ returns (true, pages) m
unfolding regen_cache
regen_cache-full fuel id zero i pages m full = refl
regen_cache-full fuel id (suc left) i pages m full =
    let there : (pages i == 0) ≡ false = ground (arith, full i (omega arith)) in
    rw there (regen_cache-full fuel id left (suc i) pages m (λ k lt. full k (omega (arith, lt))))

map_at-full :
    (fuel id : ℕ) (five_level : Bool) (cr3 v paddr perms : ℕ) (pages : ℕ → ℕ) (m : Pages)
    → AreBlank (levels five_level - 1) pages m.tables
    → map_at fuel id five_level cr3 v paddr perms pages m
      ≡ returns
          (true, (map_locked (levels five_level) cr3 v paddr perms pages m.tables).0)
          (record m {
            tables = (map_locked (levels five_level) cr3 v paddr perms pages m.tables).1;
          })
unfolding map_at
map_at-full fuel id five_level cr3 v paddr perms pages m blank =
    let e =
      regen_cache-full fuel id (levels five_level - 1) 0 pages m
        (λ k lt. (blank k (omega (arith, lt))).nonzero) in
    rw (map_at, e) refl

-- With blank pages at hand that are not in the tree, mem_paging_map_at returns true without a call of the
-- allocator; mem_paging_unmap_at then returns the address of the page that was mapped, which has no
-- translation any more, and every other page translates as before.
pub unmap_at-map_at :
    (fuel id : ℕ) (five_level : Bool) (cr3 v paddr perms : ℕ) (pages : ℕ → ℕ) (m : Pages)
    → IsTree m.tables (levels five_level) cr3 (spare (levels five_level - 1) pages)
    → AreBlank (levels five_level - 1) pages m.tables
    → paddr % 4096 ≡ 0
    → paddr < 2 ^ 63
    → (left : ℕ → ℕ) × (tables : ℕ → ℕ → ℕ) × (map_at fuel id five_level cr3 v paddr perms pages m
        ≡ returns (true, left) (record m { tables = tables }))
      × ((unmap_at (levels five_level) cr3 v tables).0 ≡ paddr)
      × ((w : ℕ)
          → translate (unmap_at (levels five_level) cr3 v tables).1 (levels five_level) cr3 w ≡ (
              if same (levels five_level) w v
              then none
              else translate m.tables (levels five_level) cr3 w))
unmap_at-map_at fuel id true cr3 v paddr perms pages m tree blank aligned physical =
    let done = map_locked 5 cr3 v paddr perms pages m.tables in
    let back = unmap_at-map_locked 4 cr3 v paddr perms pages m.tables tree blank aligned physical in
    (done.0, done.1, map_at-full fuel id true cr3 v paddr perms pages m blank, back.0, back.1)
unmap_at-map_at fuel id false cr3 v paddr perms pages m tree blank aligned physical =
    let done = map_locked 4 cr3 v paddr perms pages m.tables in
    let back = unmap_at-map_locked 3 cr3 v paddr perms pages m.tables tree blank aligned physical in
    (done.0, done.1, map_at-full fuel id false cr3 v paddr perms pages m blank, back.0, back.1)
