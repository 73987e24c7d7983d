-- ===== src/Symmap.antt =====
-- src/kernel/lib/symmap.c: the function that an address belongs to.
pub mod Search
mod Tests
use ricerca.Common.{
  ℕ, zero, suc, ◌+◌, ◌-◌, ◌/◌, ◌%◌, Bool, Option, none, some, List, [], ◌∷◌, ltb, leb, ◌&&◌, length,
  get_elem?, if◌then◌else◌, size_mod,
}

-- symmap_in_section_text, for the section's two bounds
unfoldable pub in_section_text : (text_start text_end addr : ℕ) → Bool
in_section_text text_start text_end addr = leb text_start addr && ltb addr text_end

-- The loop of symmap_find_by_addr, whose result is its last `l`; `none` where it reads outside the array
-- or needs more rounds than `fuel`.
unfoldable pub search_loop : (fuel : ℕ) (addr : ℕ) → List ℕ → (l r : ℕ) → Option ℕ
search_loop zero addr addrs l r = none
search_loop (suc fuel) addr addrs l r =
    let m = ((l + r) % size_mod) / 2 in
    if ltb 1 (r - l)
    then elim (get_elem? addrs m) [
      | none ↦ none
      | some maddr ↦
          if ltb addr maddr
          then search_loop fuel addr addrs l m
          else search_loop fuel addr addrs m r
    ]
    else some l

-- symmap_find_by_addr; each round halves the distance, so that 65 do for every array.
unfoldable pub find_by_addr : (addr : ℕ) → List ℕ → Option ℕ
find_by_addr addr [] = some 0
find_by_addr addr (a ∷ rest) = elim (search_loop 65 addr (a ∷ rest) 0 (length (a ∷ rest))) [
  | none ↦ none
  | some l ↦ elim (get_elem? (a ∷ rest) l) [
    | none ↦ none
    | some x ↦ if ltb addr x then some 0 else some (1 + l)
  ]
]
