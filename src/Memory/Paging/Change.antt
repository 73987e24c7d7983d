-- ===== src/Memory/Paging/Change.antt =====
-- How a change of one entry of the page tables (src/kernel/mem/virt/paging.c) shows in the tree.
use ricerca.Common.{
  ℕ, suc, ◌+◌, ◌≤◌, ◌<◌, ◌≡◌, refl, false, Option, ◌==◌, ==_refl, if◌then◌else◌, arith, inl, inr,
  Bool-cases,
}
use ricerca.Memory.Paging.Defs.{get_lvl_index, page_of}
use ricerca.Memory.Paging.Total.{total-term, total-terms, total-change}
use ricerca.Memory.Paging.Tree.{
  uses, translate, same, index-lt, child_uses, AgreeOn, uses-own, uses-frame, translate-frame,
}

-- The tree maps what it has mapped, but for the page of v, where it has r; it has taken at most the
-- tables that `extra` counts; no other table has been written.
pub record Changed (tables tables' : ℕ → ℕ → ℕ) (lvl table v : ℕ) (r : Option ℕ) (extra : ℕ → ℕ)
    : Type 0 where
  pub translated :
      (w : ℕ)
      → translate tables' lvl table w ≡ (if same lvl w v then r else translate tables lvl table w)
  pub used : (a : ℕ) → uses tables' lvl table a ≤ uses tables lvl table a + extra a
  pub apart :
      (a i : ℕ) → i < 512 → uses tables lvl table a ≡ 0 → extra a ≡ 0 → tables' a i ≡ tables a i

-- No table stands twice in the tree and the tables that it may take.
abbrev pub IsTree : (tables : ℕ → ℕ → ℕ) (lvl table : ℕ) (extra : ℕ → ℕ) → Type 0
IsTree tables lvl table extra = (a : ℕ) → uses tables lvl table a + extra a ≤ 1

module _ (tables tables' : ℕ → ℕ → ℕ) (l table v : ℕ) (r : Option ℕ) (extra : ℕ → ℕ)
    (tree : IsTree tables (suc (suc l)) table extra) (k : ℕ)
    (k_is : get_lvl_index v (suc (suc l)) ≡ k) (there_is : (tables table k == 0) ≡ false)
    (c : Changed tables tables' (suc l) (page_of (tables table k)) v r extra) where
  k-lt : k < 512
  k-lt = omega (arith, k_is, index-lt v (suc (suc l)))

  -- The table itself is not in the subtree.
  not_below : uses tables (suc l) (page_of (tables table k)) table ≡ 0
  unfolding uses
  not_below = ground (
    arith,
    tree table,
    ==_refl table,
    there_is,
    total-term 512 k (child_uses tables l table table) k-lt,
  )

  root_same : (j : ℕ) → j < 512 → tables' table j ≡ tables table j
  root_same j lt =
      c.apart table j lt not_below (omega (arith, tree table, uses-own tables (suc l) table))

  sibling :
      (j : ℕ)
      → j < 512
      → (j == k) ≡ false
      → (tables table j == 0) ≡ false
      → AgreeOn tables tables' (suc l) (page_of (tables table j))
  unfolding uses
  sibling j lt other is_there a i on lt' =
      let both = total-terms 512 j k (child_uses tables l table a) lt k-lt other in
      c.apart a i lt' (ground (arith, tree a, both, is_there, there_is))
        (ground (arith, tree a, both, is_there, there_is))

  up-translated :
      (w : ℕ)
      → translate tables' (suc (suc l)) table w
        ≡ (if same (suc (suc l)) w v then r else translate tables (suc (suc l)) table w)
  unfolding translate same
  up-translated w =
      let j = get_lvl_index w (suc (suc l)) in
      let lt = index-lt w (suc (suc l)) in
      rw (root_same j lt, k_is)
        (elim (Bool-cases (j == k)) [
          | inl is_k ↦ let j_k : j ≡ k = ground arith in rw (is_k, j_k, there_is) (c.translated w)
          | inr other ↦ rw other (elim (Bool-cases (tables table j == 0)) [
            | inl none_there ↦ rw none_there refl
            | inr is_there ↦ rw is_there (
                translate-frame tables tables' l (page_of (tables table j)) w
                  (sibling j lt other is_there))
          ])
        ])

  child-same :
      (a i : ℕ)
      → i < 512
      → (i == k) ≡ false
      → child_uses tables' l table a i ≡ child_uses tables l table a i
  child-same a i lt other = rw (root_same i lt) (elim (Bool-cases (tables table i == 0)) [
    | inl none_there ↦ rw none_there refl
    | inr is_there ↦
        rw is_there
          (uses-frame tables tables' l (page_of (tables table i)) a (sibling i lt other is_there))
  ])

  child-more : (a : ℕ) → child_uses tables' l table a k ≤ child_uses tables l table a k + extra a
  child-more a = rw (root_same k k-lt, there_is) (c.used a)

  -- A change in a subtree is one of the tree.
  pub Changed-up : Changed tables tables' (suc (suc l)) table v r extra
  unfolding uses
  Changed-up = record {
    translated = up-translated;
    used = λ a. omega (
      arith,
      total-change 512 k (child_uses tables' l table a) (child_uses tables l table a) k-lt
          (child-same a),
      child-more a,
    );
    apart = λ a i lt out spared.
        c.apart a i lt
          (ground (arith, out, there_is, total-term 512 k (child_uses tables l table a) k-lt))
          spared;
  }
