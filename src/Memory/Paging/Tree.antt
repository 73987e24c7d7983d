-- ===== src/Memory/Paging/Tree.antt =====
-- The page tables of src/kernel/mem/virt/paging.c as a tree: which tables it has, and what it maps.
use ricerca.Common.{
  ℕ, zero, suc, ◌+◌, ◌/◌, ◌^◌, ◌≤◌, ◌<◌, ◌≡◌, refl, ap, Bool, true, false, ◌&&◌, Option, none, some,
  ◌==◌, ==_refl, if◌then◌else◌, arith, inl, inr, Bool-cases,
}
use ricerca.Memory.Paging.Defs.{get_lvl_index, page_of}
use ricerca.Memory.Paging.Total.{total, total-same, total-term}

-- How often a table stands in the tree of `lvl` levels whose root is `table`.
unfoldable pub uses : (tables : ℕ → ℕ → ℕ) (lvl table : ℕ) → ℕ → ℕ
uses tables zero table a = 0
uses tables (suc zero) table a = if table == a then 1 else 0
uses tables (suc (suc l)) table a =
    (if table == a then 1 else 0)
    + total 512
        (λ i. if tables table i == 0 then 0 else uses tables (suc l) (page_of (tables table i)) a)

-- What the processor finds at a virtual address: the entry of the last level. A word is empty exactly
-- when it is 0, since the others have the present bit.
unfoldable pub translate : (tables : ℕ → ℕ → ℕ) (lvl table vaddr : ℕ) → Option ℕ
translate tables zero table vaddr = none
translate tables (suc zero) table vaddr =
    let entry = tables table (get_lvl_index vaddr 1) in if entry == 0 then none else some entry
translate tables (suc (suc l)) table vaddr =
    let entry = tables table (get_lvl_index vaddr (suc (suc l))) in
    let below = translate tables (suc l) (page_of entry) vaddr in if entry == 0 then none else below

-- Two addresses with the same indices from a level down lie in the same page there.
unfoldable pub same : (lvl w v : ℕ) → Bool
same zero w v = true
same (suc l) w v = (get_lvl_index w (suc l) == get_lvl_index v (suc l)) && same l w v

pub index-lt : (v lvl : ℕ) → get_lvl_index v lvl < 512
unfolding get_lvl_index
index-lt v lvl = omega arith

-- How often a table stands in the subtree of an entry.
abbrev pub child_uses : (tables : ℕ → ℕ → ℕ) (l table a i : ℕ) → ℕ
child_uses tables l table a i =
    if tables table i == 0 then 0 else uses tables (suc l) (page_of (tables table i)) a

-- Two memories agree on the tables of a tree.
abbrev pub AgreeOn : (tables tables' : ℕ → ℕ → ℕ) (lvl table : ℕ) → Type 0
AgreeOn tables tables' lvl table =
    (a i : ℕ) → 1 ≤ uses tables lvl table a → i < 512 → tables' a i ≡ tables a i

pub uses-own : (tables : ℕ → ℕ → ℕ) (l table : ℕ) → 1 ≤ uses tables (suc l) table table
unfolding uses
uses-own tables zero table = ground (arith, ==_refl table)
uses-own tables (suc l) table = ground (arith, ==_refl table)

pub uses-child :
    (tables : ℕ → ℕ → ℕ) (l table i a : ℕ)
    → i < 512
    → (tables table i == 0) ≡ false
    → uses tables (suc l) (page_of (tables table i)) a ≤ uses tables (suc (suc l)) table a
unfolding uses
uses-child tables l table i a lt there_is =
    ground (arith, total-term 512 i (child_uses tables l table a) lt)

AgreeOn-child :
    (tables tables' : ℕ → ℕ → ℕ) (l table i : ℕ)
    → i < 512
    → (tables table i == 0) ≡ false
    → AgreeOn tables tables' (suc (suc l)) table
    → AgreeOn tables tables' (suc l) (page_of (tables table i))
AgreeOn-child tables tables' l table i lt there_is same_words a j on lt' =
    same_words a j (omega (arith, on, uses-child tables l table i a lt there_is)) lt'

-- The tree is the same where its tables are.
pub uses-frame :
    (tables tables' : ℕ → ℕ → ℕ) (l table a : ℕ)
    → AgreeOn tables tables' (suc l) table
    → uses tables' (suc l) table a ≡ uses tables (suc l) table a
unfolding uses
uses-frame tables tables' zero table a h = refl
uses-frame tables tables' (suc l) table a h =
    ap (λ n. (if table == a then 1 else 0) + n)
      (total-same 512 (child_uses tables' l table a) (child_uses tables l table a) (λ i lt.
        rw (h table i (uses-own tables (suc l) table) lt) (elim (Bool-cases (tables table i == 0)) [
          | inl none_there ↦ rw none_there refl
          | inr there_is ↦ rw there_is (
              uses-frame tables tables' l (page_of (tables table i)) a
                (AgreeOn-child tables tables' l table i lt there_is h))
        ])))

pub translate-frame :
    (tables tables' : ℕ → ℕ → ℕ) (l table v : ℕ)
    → AgreeOn tables tables' (suc l) table
    → translate tables' (suc l) table v ≡ translate tables (suc l) table v
unfolding translate
translate-frame tables tables' zero table v h =
    rw (h table (get_lvl_index v 1) (uses-own tables 0 table) (index-lt v 1)) refl
translate-frame tables tables' (suc l) table v h =
    let i = get_lvl_index v (suc (suc l)) in
    let lt = index-lt v (suc (suc l)) in
    rw (h table i (uses-own tables (suc l) table) lt) (elim (Bool-cases (tables table i == 0)) [
      | inl none_there ↦ rw none_there refl
      | inr there_is ↦ rw there_is (
          translate-frame tables tables' l (page_of (tables table i)) v
            (AgreeOn-child tables tables' l table i lt there_is h))
    ])

-- Below 2 ^ 48 the indices of four levels say in which page an address lies, and below 2 ^ 57 those of
-- five levels.
pub same-page : (w v : ℕ) → w < 2 ^ 48 → v < 2 ^ 48 → same 4 w v ≡ (w / 4096 == v / 4096)
unfolding same get_lvl_index
same-page w v hw hv = elim (Bool-cases (w / 4096 == v / 4096)) [
  | inl one ↦ ground (arith, one, hw, hv)
  | inr apart ↦ ground (arith, apart, hw, hv)
]
