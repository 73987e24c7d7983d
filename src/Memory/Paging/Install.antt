-- ===== src/Memory/Paging/Install.antt =====
-- A blank page becomes a table of the tree, as in the loop of mem_paging_map_at of
-- src/kernel/mem/virt/paging.c.
use mathlib.Core.Path.{subst}
use ricerca.Common.{
  ℕ, zero, suc, ◌+◌, ◌%◌, ◌^◌, ◌≤◌, ◌<◌, ◌≡◌, refl, false, none, some, ◌==◌, ==_refl, if◌then◌else◌,
  arith, inl, inr, Bool-cases,
}
use ricerca.Memory.Paging.Defs.{or_flags, get_lvl_index, page_of, set_entry, interm_perms}
use ricerca.Memory.Paging.Flags.{or_flags-pos, page_of-or_flags}
use ricerca.Memory.Paging.Total.{total, total-term, total-change}
use ricerca.Memory.Paging.Tree.{
  uses, translate, same, index-lt, child_uses, AgreeOn, uses-own, uses-frame, translate-frame,
}
use ricerca.Memory.Paging.Change.{Changed, IsTree}

-- A write to an entry of the last level.
pub leaf-Changed :
    (tables : ℕ → ℕ → ℕ) (table v entry : ℕ)
    → Changed tables
        (set_entry table (get_lvl_index v 1) entry tables)
        (suc zero)
        table
        v
        (if entry == 0 then none else some entry)
        (λ a. 0)
unfolding uses translate same
leaf-Changed tables table v entry = record {
  translated = λ w. elim (Bool-cases (get_lvl_index w 1 == get_lvl_index v 1)) [
    | inl is_v ↦ rw (==_refl table, is_v) refl
    | inr other ↦ rw (==_refl table, other) refl
  ];
  used = λ a. omega arith;
  apart = λ a i lt out spared. ground arith;
}

-- A page that may become a table: its address is that of a page, and its words are 0.
pub record IsBlank (tables : ℕ → ℕ → ℕ) (page : ℕ) : Type 0 where
  pub nonzero : 1 ≤ page
  pub aligned : page % 4096 ≡ 0
  pub physical : page < 2 ^ 63
  pub zeroed : (i : ℕ) → i < 512 → tables page i ≡ 0

blank-translate :
    (tables : ℕ → ℕ → ℕ) (l page v : ℕ)
    → IsBlank tables page
    → translate tables (suc l) page v ≡ none
unfolding translate
blank-translate tables zero page v b = rw (b.zeroed (get_lvl_index v 1) (index-lt v 1)) refl
blank-translate tables (suc l) page v b =
    rw (b.zeroed (get_lvl_index v (suc (suc l))) (index-lt v (suc (suc l)))) refl

total-none : (n : ℕ) (f : ℕ → ℕ) → ((i : ℕ) → i < n → f i ≡ 0) → total n f ≡ 0
unfolding total
total-none zero f h = refl
total-none (suc n) f h =
    omega (arith, total-none n f (λ i lt. h i (omega arith)), h n (omega arith))

pub blank-uses :
    (tables : ℕ → ℕ → ℕ) (l page a : ℕ)
    → IsBlank tables page
    → uses tables (suc l) page a ≡ (if page == a then 1 else 0)
unfolding uses
blank-uses tables zero page a b = refl
blank-uses tables (suc l) page a b =
    omega (arith, total-none 512 (child_uses tables l page a) (λ i lt. rw (b.zeroed i lt) refl))

module _ (tables : ℕ → ℕ → ℕ) (l table k page : ℕ) (k-lt : k < 512)
    (tree : IsTree tables (suc (suc l)) table (λ a. if page == a then 1 else 0))
    (empty : tables table k ≡ 0) (blank : IsBlank tables page) where
  abbrev pub installed : ℕ → ℕ → ℕ
  installed = set_entry table k (or_flags page interm_perms) tables

  table_not_page : (page == table) ≡ false
  table_not_page = ground (arith, tree table, uses-own tables (suc l) table)

  pub still-IsBlank : IsBlank installed page
  still-IsBlank = record {
    nonzero = blank.nonzero;
    aligned = blank.aligned;
    physical = blank.physical;
    zeroed = λ i lt. ground (arith, table_not_page, blank.zeroed i lt);
  }

  pub entry_is : installed table k ≡ or_flags page interm_perms
  entry_is = rw (==_refl table, ==_refl k) refl

  pub page_is : page_of (or_flags page interm_perms) ≡ page
  page_is = page_of-or_flags page interm_perms blank.aligned blank.physical

  -- A child of the table does not hold the table.
  child_apart :
      (i : ℕ)
      → i < 512
      → (tables table i == 0) ≡ false
      → AgreeOn tables installed (suc l) (page_of (tables table i))
  unfolding uses
  child_apart i lt is_there a j on lt' = elim (Bool-cases (a == table)) [
    | inl is_root ↦
        let a_root : a ≡ table = ground arith in
        let on_root = subst (λ b. 1 ≤ uses tables (suc l) (page_of (tables table i)) b) a_root on in
        absurd (
          ground (
            arith,
            tree table,
            total-term 512 i (child_uses tables l table table) lt,
            ==_refl table,
            is_there,
            on_root,
          ))
    | inr other ↦ rw other refl
  ]

  other_entry : (i : ℕ) → (i == k) ≡ false → installed table i ≡ tables table i
  other_entry i other = rw (==_refl table, other) refl

  installed-child :
      (a i : ℕ)
      → i < 512
      → (i == k) ≡ false
      → child_uses installed l table a i ≡ child_uses tables l table a i
  installed-child a i lt other = rw (other_entry i other) (elim (Bool-cases (tables table i == 0)) [
    | inl none_there ↦ rw none_there refl
    | inr is_there ↦
        rw is_there
          (uses-frame tables installed l (page_of (tables table i)) a (child_apart i lt is_there))
  ])

  new_child : (a : ℕ) → child_uses installed l table a k ≡ (if page == a then 1 else 0)
  new_child a =
      let there_is : (or_flags page interm_perms == 0) ≡ false =
        ground (arith, or_flags-pos page interm_perms refl) in
      rw (entry_is, there_is, page_is) (blank-uses installed l page a still-IsBlank)

  -- The tree has one more table, and maps what it has mapped.
  pub installed-uses :
      (a : ℕ)
      → uses installed (suc (suc l)) table a
        ≡ uses tables (suc (suc l)) table a + (if page == a then 1 else 0)
  unfolding uses
  installed-uses a =
      let old : child_uses tables l table a k ≡ 0 = rw empty refl in
      omega (
        arith,
        total-change 512 k (child_uses installed l table a) (child_uses tables l table a) k-lt
            (installed-child a),
        new_child a,
        old,
      )

  pub installed-translate :
      (w : ℕ) → translate installed (suc (suc l)) table w ≡ translate tables (suc (suc l)) table w
  unfolding translate
  installed-translate w =
      let j = get_lvl_index w (suc (suc l)) in
      let lt = index-lt w (suc (suc l)) in
      elim (Bool-cases (j == k)) [
        | inl is_k ↦
            let j_k : j ≡ k = ground arith in
            let there_is : (or_flags page interm_perms == 0) ≡ false =
              ground (arith, or_flags-pos page interm_perms refl) in
            rw (j_k, entry_is, there_is, page_is, empty)
              (blank-translate installed l page w still-IsBlank)
        | inr other ↦ rw (other_entry j other) (elim (Bool-cases (tables table j == 0)) [
          | inl none_there ↦ rw none_there refl
          | inr is_there ↦ rw is_there (
              translate-frame tables installed l (page_of (tables table j)) w
                (child_apart j lt is_there))
        ])
      ]
