-- ===== src/Memory/Paging/Grow.antt =====
-- The loop of mem_paging_map_at of src/kernel/mem/virt/paging.c takes pages of the mapper as tables.
use mathlib.Core.Path.{subst}
use ricerca.Common.{
  ℕ, zero, suc, ◌+◌, ◌≤◌, ◌<◌, ◌≡◌, refl, sym, ap, ◌∙◌, true, false, Option, some, ◌==◌,
  if◌then◌else◌, arith, inl, inr, Bool-cases,
}
use ricerca.Memory.Paging.Defs.{
  or_flags, get_lvl_index, page_of, set_entry, interm_perms, intermediate,
}
use ricerca.Memory.Paging.Flags.{or_flags-pos}
use ricerca.Memory.Paging.Tree.{uses, same, index-lt, uses-own, uses-child}
use ricerca.Memory.Paging.Change.{Changed, IsTree, Changed-up}
use ricerca.Memory.Paging.Install.{
  IsBlank, leaf-Changed, entry_is, page_is, installed-uses, installed-translate,
}
use ricerca.Memory.Paging.Spare.{
  spare, spare-suc, spare-zero, spare-used, spare-has, spent, spent-there, spent-new,
}

abbrev pub AreBlank : (n : ℕ) → (ℕ → ℕ) → (ℕ → ℕ → ℕ) → Type 0
AreBlank n pages tables = (k : ℕ) → k < n → IsBlank tables (pages k)

-- The tables with the entry of v's page written.
unfoldable pub leaf_written : (lvl table v : ℕ) → (ℕ → ℕ) → (ℕ → ℕ → ℕ) → (entry : ℕ) → ℕ → ℕ → ℕ
leaf_written lvl table v pages tables entry =
    let (last, left, tables') = intermediate lvl table v pages tables in
    set_entry last (get_lvl_index v 1) entry tables'

Changed-weaken :
    {tables tables' : ℕ → ℕ → ℕ} {lvl table v : ℕ} {r : Option ℕ} {extra more : ℕ → ℕ}
    → ((a : ℕ) → extra a ≤ more a)
    → Changed tables tables' lvl table v r extra
    → Changed tables tables' lvl table v r more
Changed-weaken le c = record {
  translated = c.translated;
  used = λ a. omega (arith, c.used a, le a);
  apart = λ a i lt out spared. c.apart a i lt out (omega (arith, le a));
}

leaf_written-there :
    (l table v : ℕ) (pages : ℕ → ℕ) (tables : ℕ → ℕ → ℕ) (entry : ℕ)
    → (tables table (get_lvl_index v (suc (suc l))) == 0) ≡ false
    → leaf_written (suc (suc l)) table v pages tables entry
      ≡ leaf_written
          (suc l)
          (page_of (tables table (get_lvl_index v (suc (suc l)))))
          v
          pages
          tables
          entry
unfolding leaf_written intermediate
leaf_written-there l table v pages tables entry e = rw e refl

leaf_written-new :
    (l table v : ℕ) (pages : ℕ → ℕ) (tables : ℕ → ℕ → ℕ) (entry : ℕ)
    → (tables table (get_lvl_index v (suc (suc l))) == 0) ≡ true
    → leaf_written (suc (suc l)) table v pages tables entry
      ≡ leaf_written
          (suc l)
          (pages l)
          v
          (λ k. if k == l then 0 else pages k)
          (set_entry table (get_lvl_index v (suc (suc l))) (or_flags (pages l) interm_perms) tables)
          entry
unfolding leaf_written intermediate
leaf_written-new l table v pages tables entry e = rw e refl

-- The last level alone.
last-Changed :
    (table v : ℕ) (pages : ℕ → ℕ) (tables : ℕ → ℕ → ℕ) (entry : ℕ)
    → 1 ≤ entry
    → Changed tables
        (leaf_written (suc zero) table v pages tables entry)
        (suc zero)
        table
        v
        (some entry)
        (spare zero pages)
unfolding leaf_written intermediate
last-Changed table v pages tables entry there_is =
    let full : (entry == 0) ≡ false = ground arith in
    Changed-weaken (λ a. omega arith) (rw full at (leaf-Changed tables table v entry))

-- What is left to show where a page has become a table.
module _ (l table v : ℕ) (pages : ℕ → ℕ) (tables : ℕ → ℕ → ℕ)
    (tree : IsTree tables (suc (suc l)) table (spare (suc l) pages))
    (empty : tables table (get_lvl_index v (suc (suc l))) ≡ 0)
    (blank : AreBlank (suc l) pages tables) where
  abbrev k : ℕ
  k = get_lvl_index v (suc (suc l))

  abbrev grown : ℕ → ℕ → ℕ
  grown = set_entry table k (or_flags (pages l) interm_perms) tables

  abbrev pages_left : ℕ → ℕ
  pages_left j = if j == l then 0 else pages j

  with_page : (a : ℕ) → spare (suc l) pages a ≡ spare l pages a + (if pages l == a then 1 else 0)
  with_page a = ground (arith, spare-suc l pages a, (blank l (omega arith)).nonzero)

  one_more : IsTree tables (suc (suc l)) table (λ a. if pages l == a then 1 else 0)
  one_more a = omega (arith, tree a, with_page a)

  grown-uses :
      (a : ℕ)
      → uses grown (suc (suc l)) table a
        ≡ uses tables (suc (suc l)) table a + (if pages l == a then 1 else 0)
  grown-uses =
      installed-uses tables l table k (pages l) (index-lt v (suc (suc l))) one_more empty
        (blank l (omega arith))

  grown-IsTree : IsTree grown (suc (suc l)) table (spare l pages_left)
  grown-IsTree a = omega (arith, tree a, with_page a, spare-used l pages a, grown-uses a)

  -- A page of the mapper is not the table.
  not_table : (j : ℕ) → j < suc l → (pages j == table) ≡ false
  not_table j lt = elim (Bool-cases (pages j == table)) [
    | inr other ↦ other
    | inl at_table ↦
        let is_table : pages j ≡ table = ground arith in
        let has =
          subst (λ a. 1 ≤ spare (suc l) pages a) is_table
            (spare-has (suc l) j pages lt (blank j lt).nonzero) in
        absurd (omega (arith, has, tree table, uses-own tables (suc l) table))
  ]

  grown-AreBlank : AreBlank l pages_left grown
  grown-AreBlank j lt =
      let b = blank j (omega arith) in
      let not_l : (j == l) ≡ false = ground arith in
      let apart = not_table j (omega arith) in
      rw not_l (record {
        nonzero = b.nonzero;
        aligned = b.aligned;
        physical = b.physical;
        zeroed = λ i lt'. rw apart (b.zeroed i lt');
      })

  grown_entry : page_of (grown table k) ≡ pages l
  grown_entry =
      ap page_of (
        entry_is tables l table k (pages l) (index-lt v (suc (suc l))) one_more empty
          (blank l (omega arith)))
      ∙ page_is tables l table k (pages l) (index-lt v (suc (suc l))) one_more empty
          (blank l (omega arith))

  grown_there : (grown table k == 0) ≡ false
  grown_there = ground (
    arith,
    or_flags-pos (pages l) interm_perms refl,
    entry_is tables l table k (pages l) (index-lt v (suc (suc l))) one_more empty
        (blank l (omega arith)),
  )

  below-IsTree : IsTree grown (suc l) (pages l) (spare l pages_left)
  below-IsTree a =
      let below =
        subst (λ p. uses grown (suc l) p a ≤ uses grown (suc (suc l)) table a) grown_entry
          (uses-child grown l table k a (index-lt v (suc (suc l))) grown_there) in
      omega (arith, grown-IsTree a, below)

  under_grown :
      (r : Option ℕ) (tables' : ℕ → ℕ → ℕ) (extra : ℕ → ℕ)
      → ((a : ℕ) → extra a ≤ spare l pages_left a)
      → Changed grown tables' (suc l) (pages l) v r extra
      → Changed grown tables' (suc (suc l)) table v r extra
  under_grown r tables' extra le c =
      Changed-up grown tables' l table v r extra (λ a. omega (arith, grown-IsTree a, le a)) k refl
        grown_there (subst (λ p. Changed grown tables' (suc l) p v r extra) (sym grown_entry) c)

  grown-Changed :
      (tables' : ℕ → ℕ → ℕ) (r : Option ℕ) (extra more : ℕ → ℕ)
      → ((a : ℕ) → extra a + (if pages l == a then 1 else 0) ≡ more a)
      → Changed grown tables' (suc (suc l)) table v r extra
      → Changed tables tables' (suc (suc l)) table v r more
  grown-Changed tables' r extra more e c = record {
    translated = λ w.
        c.translated w
        ∙ ap (λ o. if same (suc (suc l)) w v then r else o)
            (installed-translate tables l table k (pages l) (index-lt v (suc (suc l))) one_more
              empty (blank l (omega arith)) w);
    used = λ a. omega (arith, c.used a, grown-uses a, e a);
    apart = λ a i lt out spared.
        let other : (a == table) ≡ false = elim (Bool-cases (a == table)) [
          | inr other ↦ other
          | inl at_table ↦
              let is_table : a ≡ table = ground arith in
              let out' = subst (λ b. uses tables (suc (suc l)) table b ≡ 0) is_table out in
              absurd (omega (arith, out', uses-own tables (suc l) table))
        ] in
        let rest =
          c.apart a i lt (omega (arith, out, grown-uses a, spared, e a))
            (omega (arith, spared, e a)) in
        rest ∙ rw other refl;
  }

-- The loop and the last write map v to the entry and nothing else, and take tables from the mapper's
-- pages only.
pub leaf_written-Changed :
    (l table v : ℕ) (pages : ℕ → ℕ) (tables : ℕ → ℕ → ℕ) (entry : ℕ)
    → 1 ≤ entry
    → IsTree tables (suc l) table (spare l pages)
    → AreBlank l pages tables
    → Changed tables
        (leaf_written (suc l) table v pages tables entry)
        (suc l)
        table
        v
        (some entry)
        (spent l table v pages tables)
leaf_written-Changed zero table v pages tables entry there_is tree blank =
    Changed-weaken (λ a. omega (arith, spare-zero pages a))
      (last-Changed table v pages tables entry there_is)
leaf_written-Changed (suc l) table v pages tables entry there_is tree blank =
    let k = get_lvl_index v (suc (suc l)) in
    elim (Bool-cases (tables table k == 0)) [
      | inr is_there ↦
          let c = page_of (tables table k) in
          rw (leaf_written-there l table v pages tables entry is_there) (
            Changed-weaken (λ a. spent-there l table v pages tables is_there a)
              (Changed-up tables (leaf_written (suc l) c v pages tables entry) l table v
                (some entry) (spent l c v pages tables)
                (λ a. omega (arith, tree a, spare-suc l pages a)) k refl is_there
                (leaf_written-Changed l c v pages tables entry there_is
                  (λ a. omega (
                    arith,
                    tree a,
                    spare-suc l pages a,
                    uses-child tables l table k a (index-lt v (suc (suc l))) is_there,
                  ))
                  (λ j lt. blank j (omega arith)))))
      | inl empty ↦
          let none_there : tables table k ≡ 0 = ground arith in
          let t = set_entry table k (or_flags (pages l) interm_perms) tables in
          let left : ℕ → ℕ = λ j. if j == l then 0 else pages j in
          rw (leaf_written-new l table v pages tables entry empty) (
            grown-Changed l table v pages tables tree none_there blank
              (leaf_written (suc l) (pages l) v left t entry) (some entry)
              (spent l (pages l) v left t) (spent (suc l) table v pages tables)
              (λ a. spent-new l table v pages tables empty (blank l (omega arith)).nonzero a)
              (under_grown l table v pages tables tree none_there blank (some entry)
                (leaf_written (suc l) (pages l) v left t entry) (spent l (pages l) v left t)
                (λ a. omega arith)
                (leaf_written-Changed l (pages l) v left t entry there_is
                  (below-IsTree l table v pages tables tree none_there blank)
                  (grown-AreBlank l table v pages tables tree none_there blank))))
    ]
