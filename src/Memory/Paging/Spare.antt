-- ===== src/Memory/Paging/Spare.antt =====
-- The pages that a mapper of src/kernel/mem/virt/paging.c keeps for tables.
use mathlib.Core.Path.{subst}
use ricerca.Common.{
  ℕ, zero, suc, ◌+◌, ◌-◌, ◌≤◌, ◌<◌, ◌≡◌, refl, sym, ap, ◌∙◌, true, false, ◌==◌, ==_refl,
  if◌then◌else◌, arith, inl, inr, ◌⊎◌, Bool-cases,
}
use ricerca.Memory.Paging.Defs.{
  or_flags, get_lvl_index, page_of, set_entry, interm_perms, intermediate,
}
use ricerca.Memory.Paging.Total.{total, total-same, total-term}

abbrev pub at_page : (page : ℕ) → ℕ → ℕ
at_page page a = if page == 0 then 0 else (if page == a then 1 else 0)

-- How often an address stands among the first n pages of a mapper that are there.
unfoldable pub spare : (n : ℕ) → (ℕ → ℕ) → ℕ → ℕ
spare n pages a = total n (λ k. at_page (pages k) a)

pub spare-suc :
    (n : ℕ) (pages : ℕ → ℕ) (a : ℕ) → spare (suc n) pages a ≡ spare n pages a + at_page (pages n) a
unfolding spare total
spare-suc n pages a = refl

pub spare-zero : (pages : ℕ → ℕ) (a : ℕ) → spare zero pages a ≡ 0
unfolding spare total
spare-zero pages a = refl

pub spare-used :
    (n : ℕ) (pages : ℕ → ℕ) (a : ℕ)
    → spare n (λ k. if k == n then 0 else pages k) a ≡ spare n pages a
unfolding spare
spare-used n pages a =
    total-same n (λ k. at_page (if k == n then 0 else pages k) a) (λ k. at_page (pages k) a)
      (λ k lt. let other : (k == n) ≡ false = ground arith in rw other refl)

pub spare-has : (n k : ℕ) (pages : ℕ → ℕ) → k < n → 1 ≤ pages k → 1 ≤ spare n pages (pages k)
unfolding spare
spare-has n k pages lt there =
    ground (arith, there, total-term n k (λ j. at_page (pages j) (pages k)) lt, ==_refl (pages k))

-- The mapper's pages that the loop leaves.
abbrev pub left_of : (lvl table v : ℕ) → (ℕ → ℕ) → (ℕ → ℕ → ℕ) → ℕ → ℕ
left_of lvl table v pages tables = (intermediate lvl table v pages tables).1

pub left_of-there :
    (l table v : ℕ) (pages : ℕ → ℕ) (tables : ℕ → ℕ → ℕ)
    → (tables table (get_lvl_index v (suc (suc l))) == 0) ≡ false
    → left_of (suc (suc l)) table v pages tables
      ≡ left_of (suc l) (page_of (tables table (get_lvl_index v (suc (suc l))))) v pages tables
unfolding intermediate
left_of-there l table v pages tables e = rw (left_of, e) refl

pub left_of-new :
    (l table v : ℕ) (pages : ℕ → ℕ) (tables : ℕ → ℕ → ℕ)
    → (tables table (get_lvl_index v (suc (suc l))) == 0) ≡ true
    → left_of (suc (suc l)) table v pages tables
      ≡ left_of
          (suc l)
          (pages l)
          v
          (λ k. if k == l then 0 else pages k)
          (set_entry table (get_lvl_index v (suc (suc l))) (or_flags (pages l) interm_perms) tables)
unfolding intermediate
left_of-new l table v pages tables e = rw (left_of, e) refl

-- The loop takes pages below its level only; a page is left or taken.
pub left_of-above :
    (l table v k : ℕ) (pages : ℕ → ℕ) (tables : ℕ → ℕ → ℕ)
    → l ≤ k
    → left_of (suc l) table v pages tables k ≡ pages k
unfolding intermediate
left_of-above zero table v k pages tables le = refl
left_of-above (suc l) table v k pages tables le =
    let i = get_lvl_index v (suc (suc l)) in
    elim (Bool-cases (tables table i == 0)) [
      | inl empty ↦
          let other : (k == l) ≡ false = ground (arith, le) in
          ap (λ f. f k) (left_of-new l table v pages tables empty)
          ∙ left_of-above l (pages l) v k (λ j. if j == l then 0 else pages j)
              (set_entry table i (or_flags (pages l) interm_perms) tables) (omega (arith, le))
          ∙ rw other refl
      | inr there ↦
          ap (λ f. f k) (left_of-there l table v pages tables there)
          ∙ left_of-above l (page_of (tables table i)) v k pages tables (omega (arith, le))
    ]

pub left_of-cases :
    (l table v k : ℕ) (pages : ℕ → ℕ) (tables : ℕ → ℕ → ℕ)
    → (left_of (suc l) table v pages tables k ≡ 0)
      ⊎ (left_of (suc l) table v pages tables k ≡ pages k)
unfolding intermediate
left_of-cases zero table v k pages tables = inr refl
left_of-cases (suc l) table v k pages tables =
    let i = get_lvl_index v (suc (suc l)) in
    elim (Bool-cases (tables table i == 0)) [
      | inr there ↦
          subst (λ f. (f k ≡ 0) ⊎ (f k ≡ pages k))
            (sym (left_of-there l table v pages tables there))
            (left_of-cases l (page_of (tables table i)) v k pages tables)
      | inl empty ↦
          subst (λ f. (f k ≡ 0) ⊎ (f k ≡ pages k)) (sym (left_of-new l table v pages tables empty))
            (elim (left_of-cases l (pages l) v k (λ j. if j == l then 0 else pages j)
              (set_entry table i (or_flags (pages l) interm_perms) tables)) [
                | inl taken ↦ inl taken
                | inr same_page ↦ elim (Bool-cases (k == l)) [
                  | inl at_l ↦ inl (ground (arith, same_page, at_l))
                  | inr other ↦ inr (ground (arith, same_page, other))
                ]
              ])
    ]

pub left_spare :
    (n l table v : ℕ) (pages : ℕ → ℕ) (tables : ℕ → ℕ → ℕ) (a : ℕ)
    → spare n (left_of (suc l) table v pages tables) a ≤ spare n pages a
unfolding spare total
left_spare zero l table v pages tables a = omega arith
left_spare (suc n) l table v pages tables a =
    let below = left_spare n l table v pages tables a in
    elim (left_of-cases l table v n pages tables) [
      | inl taken ↦ ground (arith, below, taken)
      | inr same_page ↦ let e = ap (λ z. at_page z a) same_page in omega (arith, below, e)
    ]

-- What of the mapper's pages the loop has taken.
abbrev pub spent : (l table v : ℕ) → (ℕ → ℕ) → (ℕ → ℕ → ℕ) → ℕ → ℕ
spent l table v pages tables a = spare l pages a - spare l (left_of (suc l) table v pages tables) a

pub spent-there :
    (l table v : ℕ) (pages : ℕ → ℕ) (tables : ℕ → ℕ → ℕ)
    → (tables table (get_lvl_index v (suc (suc l))) == 0) ≡ false
    → (a : ℕ)
    → spent l (page_of (tables table (get_lvl_index v (suc (suc l))))) v pages tables a
      ≤ spent (suc l) table v pages tables a
spent-there l table v pages tables there a =
    let i = get_lvl_index v (suc (suc l)) in
    let e = ap (λ f. spare l f a) (left_of-there l table v pages tables there) in
    let kept =
      ap (λ z. at_page z a)
        (ap (λ f. f l) (left_of-there l table v pages tables there)
          ∙ left_of-above l (page_of (tables table i)) v l pages tables (omega arith)) in
    omega (
      arith,
      e,
      kept,
      spare-suc l pages a,
      spare-suc l (left_of (suc (suc l)) table v pages tables) a,
    )

pub spent-new :
    (l table v : ℕ) (pages : ℕ → ℕ) (tables : ℕ → ℕ → ℕ)
    → (tables table (get_lvl_index v (suc (suc l))) == 0) ≡ true
    → 1 ≤ pages l
    → (a : ℕ)
    → spent l
          (pages l)
          v
          (λ k. if k == l then 0 else pages k)
          (set_entry table (get_lvl_index v (suc (suc l))) (or_flags (pages l) interm_perms) tables)
          a
        + (if pages l == a then 1 else 0)
      ≡ spent (suc l) table v pages tables a
spent-new l table v pages tables empty there a =
    let t =
      set_entry table (get_lvl_index v (suc (suc l))) (or_flags (pages l) interm_perms) tables in
    let left : ℕ → ℕ = λ k. if k == l then 0 else pages k in
    let e = ap (λ f. spare l f a) (left_of-new l table v pages tables empty) in
    let taken : left_of (suc (suc l)) table v pages tables l ≡ 0 =
      ap (λ f. f l) (left_of-new l table v pages tables empty)
      ∙ left_of-above l (pages l) v l left t (omega arith)
      ∙ rw (==_refl l) refl in
    let gone : at_page (left_of (suc (suc l)) table v pages tables l) a ≡ 0 =
      ap (λ z. at_page z a) taken in
    let new_page : at_page (pages l) a ≡ (if pages l == a then 1 else 0) = ground (arith, there) in
    omega (
      arith,
      e,
      gone,
      new_page,
      spare-suc l pages a,
      spare-suc l (left_of (suc (suc l)) table v pages tables) a,
      spare-used l pages a,
      left_spare l l (pages l) v left t a,
    )
