-- ===== src/Memory/Paging/Missing.antt =====
-- mem_paging_unmap_at of src/kernel/mem/virt/paging.c where an upper table of the page is not there.
use ricerca.Common.{
  ℕ, zero, suc, ◌≡◌, refl, true, false, none, ◌==◌, if◌then◌else◌, arith, inl, inr, Bool-cases,
}
use ricerca.Memory.Paging.Defs.{get_lvl_index, page_of, last_table, unmap_at}
use ricerca.Memory.Paging.Tree.{translate, same}
use ricerca.Memory.Paging.Unmap.{cleared, has_tables, freed, same-own}

-- Where an upper table is not there, the walk goes on in physical page 0. While all its words are 0,
-- nothing is written there that is not, and nothing is mapped.
last_table-zero :
    (tables : ℕ → ℕ → ℕ) (l v : ℕ) → ((i : ℕ) → tables 0 i ≡ 0) → last_table (suc l) 0 v tables ≡ 0
unfolding last_table
last_table-zero tables zero v blank = refl
last_table-zero tables (suc l) v blank =
    rw (blank (get_lvl_index v (suc (suc l)))) (last_table-zero tables l v blank)

last_table-missing :
    (tables : ℕ → ℕ → ℕ) (l cr3 v : ℕ)
    → ((i : ℕ) → tables 0 i ≡ 0)
    → has_tables tables (suc l) cr3 v ≡ false
    → last_table (suc l) cr3 v tables ≡ 0
unfolding last_table has_tables
last_table-missing tables zero cr3 v blank e = absurd (ground (arith, e))
last_table-missing tables (suc l) cr3 v blank e =
    let c = page_of (tables cr3 (get_lvl_index v (suc (suc l)))) in
    elim (Bool-cases (tables cr3 (get_lvl_index v (suc (suc l))) == 0)) [
      | inl empty ↦
          let zero_entry : tables cr3 (get_lvl_index v (suc (suc l))) ≡ 0 = ground (arith, empty) in
          rw zero_entry (last_table-zero tables l v blank)
      | inr there_is ↦ last_table-missing tables l c v blank (ground (arith, e, there_is))
    ]

translate-missing :
    (tables : ℕ → ℕ → ℕ) (l cr3 v w : ℕ)
    → has_tables tables (suc l) cr3 v ≡ false
    → same (suc l) w v ≡ true
    → translate tables (suc l) cr3 w ≡ none
unfolding translate has_tables same
translate-missing tables zero cr3 v w e h = absurd (ground (arith, e))
translate-missing tables (suc l) cr3 v w e h =
    let k = get_lvl_index v (suc (suc l)) in
    let below = translate-missing tables l (page_of (tables cr3 k)) v w in
    let one : get_lvl_index w (suc (suc l)) ≡ k = ground (arith, h) in
    rw one (ground (arith, e, h, below))

pub cleared-missing :
    (tables : ℕ → ℕ → ℕ) (l cr3 v : ℕ)
    → ((i : ℕ) → tables 0 i ≡ 0)
    → has_tables tables (suc l) cr3 v ≡ false
    → ((t i : ℕ) → cleared (suc l) cr3 v tables t i ≡ tables t i)
      × ((w : ℕ)
          → translate tables (suc l) cr3 w
            ≡ (if same (suc l) w v then none else translate tables (suc l) cr3 w))
unfolding cleared
cleared-missing tables l cr3 v blank e = (
  λ t i. rw (last_table-missing tables l cr3 v blank e) (ground (arith, blank i)),
  λ w. elim (Bool-cases (same (suc l) w v)) [
    | inl one ↦ rw one (translate-missing tables l cr3 v w e one)
    | inr other ↦ rw other refl
  ],
)

pub unmap_at_missing :
    (tables : ℕ → ℕ → ℕ) (l cr3 v : ℕ)
    → ((i : ℕ) → tables 0 i ≡ 0)
    → has_tables tables (suc l) cr3 v ≡ false
    → (unmap_at (suc l) cr3 v tables).0 ≡ freed (translate tables (suc l) cr3 v)
unfolding unmap_at freed
unmap_at_missing tables l cr3 v blank e =
    rw
      (
        last_table-missing tables l cr3 v blank e,
        blank (get_lvl_index v 1),
        translate-missing tables l cr3 v v e (same-own (suc l) v),
      )
      refl
