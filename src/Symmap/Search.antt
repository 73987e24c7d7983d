-- ===== src/Symmap/Search.antt =====
-- The search ends, and finds the last function that starts at or before the address.
use native.Mathlib.Nat.{pow-suc}
use ricerca.Common.{
  get_elem?-lt, ℕ, zero, suc, ◌+◌, ◌-◌, ◌*◌, ◌/◌, ◌%◌, ◌^◌, ◌≡◌, ◌≤◌, ◌<◌, ◌⊎◌, inl, inr, refl,
  some, List, [], ◌∷◌, ltb, length, get_elem?, size_mod, arith, Bool-cases, ap, sym, ◌∙◌,
}
use ricerca.Symmap.{search_loop, find_by_addr}

within : (xs : List ℕ) (i : ℕ) → i < length xs → (x : ℕ) × (get_elem? xs i ≡ some x)
within [] i h = absurd (omega (arith, h))
within (x ∷ xs) zero h = (x, refl)
within (x ∷ xs) (suc i) h = within xs i (omega (arith, h))

double : (n : ℕ) → 2 ^ suc n ≡ 2 * 2 ^ n
double n = omega (arith, pow-suc 2 n)

middle :
    (l r w : ℕ)
    → 1 < r - l
    → r < 2 ^ 63
    → r - l ≤ 2 * w
    → let m = ((l + r) % size_mod) / 2 in (m - l ≤ w) × (r - m ≤ w) × (l < m) × (m < r)
middle l r w far fits short =
    let whole : (l + r) % size_mod ≡ l + r = omega (arith, fits) in
    rw whole
      (omega (arith, far, short), omega (arith, far, short), omega (arith, far), omega (arith, far))

-- The starts do not descend.
abbrev pub IsSorted : List ℕ → Type 0
IsSorted addrs =
    (i j x y : ℕ) → i ≤ j → get_elem? addrs i ≡ some x → get_elem? addrs j ≡ some y → x ≤ y

module _ (addr : ℕ) (addrs : List ℕ) (fits : length addrs < 2 ^ 63) where
  -- The first `l` starts are not behind the address, nor is the start at `l` if it has been looked at; the
  -- start at `r`, if there is one, is.
  record Between (l r : ℕ) : Type 0 where
    order : l < r
    bound : r ≤ length addrs
    low : (x : ℕ) → 0 < l → get_elem? addrs l ≡ some x → x ≤ addr
    high : (x : ℕ) → get_elem? addrs r ≡ some x → addr < x

  abbrev Found : ℕ → Type 0
  Found k =
      (k < length addrs)
      × ((x : ℕ) → 0 < k → get_elem? addrs k ≡ some x → x ≤ addr)
      × ((x : ℕ) → get_elem? addrs (suc k) ≡ some x → addr < x)

  stops : (l r : ℕ) → r - l ≤ 1 → Between l r → Found l
  stops l r short b =
      let next : suc l ≡ r = omega (arith, short, b.order) in
      (
        omega (arith, b.order, b.bound),
        b.low,
        λ x e. b.high x (ap (get_elem? addrs) (sym next) ∙ e),
      )

  -- Each round halves the distance.
  search_loop-Found :
      (fuel l r : ℕ)
      → r - l ≤ 2 ^ fuel
      → Between l r
      → (k : ℕ) × (search_loop (suc fuel) addr addrs l r ≡ some k) × Found k
  unfolding search_loop
  search_loop-Found zero l r short b =
      (l, ground (arith, short), stops l r (omega (arith, short)) b)
  search_loop-Found (suc fuel) l r short b = elim (Bool-cases (ltb 1 (r - l))) [
    | inr e ↦ (l, rw e refl, stops l r (ground (arith, e)) b)
    | inl e ↦
        let m = ((l + r) % size_mod) / 2 in
        let half : (m - l ≤ 2 ^ fuel) × (r - m ≤ 2 ^ fuel) × (l < m) × (m < r) =
          middle l r (2 ^ fuel) (ground (arith, e)) (omega (arith, b.bound, fits))
            (rw (← double fuel) short) in
        let (x, at_m) = within addrs m (omega (arith, half.3, b.bound)) in
        elim (Bool-cases (ltb addr x)) [
          | inl c ↦
              let (k, runs, found) = search_loop-Found fuel l m half.0 (record {
                order = half.2;
                bound = omega (arith, half.3, b.bound);
                low = b.low;
                high = λ y h. ground (arith, at_m, h, c);
              }) in
              (k, rw (e, at_m, c) runs, found)
          | inr c ↦
              let (k, runs, found) = search_loop-Found fuel m r half.1 (record {
                order = half.3;
                bound = b.bound;
                low = λ y p h. ground (arith, at_m, h, c);
                high = b.high;
              }) in
              (k, rw (e, at_m, c) runs, found)
        ]
  ]

-- No function starts at or before the address.
abbrev pub IsBefore : ℕ → List ℕ → Type 0
IsBefore addr addrs = (i x : ℕ) → get_elem? addrs i ≡ some x → addr < x

-- The function with this index starts at or before the address, and every later one behind it.
abbrev pub IsLast : ℕ → List ℕ → ℕ → Type 0
IsLast addr addrs k =
    (x : ℕ) × (get_elem? addrs k ≡ some x)
    × (x ≤ addr)
    × ((j y : ℕ) → k < j → get_elem? addrs j ≡ some y → addr < y)

first :
    {addr : ℕ} (addrs : List ℕ)
    → IsSorted addrs
    → (k x : ℕ) → get_elem? addrs k ≡ some x
    → (0 < k → x ≤ addr)
    → addr < x
    → IsBefore addr addrs
first addrs sorted zero x at_k low above i y e =
    omega (arith, above, sorted 0 i x y (omega arith) at_k e)
first addrs sorted (suc k) x at_k low above i y e = absurd (omega (arith, above, low (omega arith)))

later_on :
    {addr : ℕ} (addrs : List ℕ)
    → IsSorted addrs
    → (k : ℕ) → ((x : ℕ) → get_elem? addrs (suc k) ≡ some x → addr < x)
    → (j y : ℕ) → k < j
    → get_elem? addrs j ≡ some y
    → addr < y
later_on addrs sorted k high j y lt e =
    let (z, at_z) = within addrs (suc k) (omega (arith, lt, get_elem?-lt addrs j e)) in
    omega (arith, high z at_z, sorted (suc k) j z y (omega (arith, lt)) at_z e)

-- In a sorted array of fewer than 2 ^ 63 starts the search ends within its rounds and reads inside the
-- array; it returns one more than the index of the last function that starts at or before the address,
-- and 0 where there is none.
pub find_by_addr-terminates :
    (addr : ℕ) (addrs : List ℕ)
    → IsSorted addrs
    → length addrs < 2 ^ 63
    → ((find_by_addr addr addrs ≡ some 0) × IsBefore addr addrs)
      ⊎ ((k : ℕ) × (find_by_addr addr addrs ≡ some (1 + k)) × IsLast addr addrs k)
unfolding find_by_addr
find_by_addr-terminates addr [] sorted fits = inl (refl, λ i x e. absurd (ground (arith, e)))
find_by_addr-terminates addr (a ∷ rest) sorted fits =
    let all = a ∷ rest in
    let (k, runs, (at_, low, high)) =
      search_loop-Found addr all fits 64 0 (length all) (omega (arith, fits)) (record {
        order = omega arith;
        bound = omega arith;
        low = λ x p. absurd (omega (arith, p));
        high = λ x e. absurd (omega (arith, get_elem?-lt all (length all) e));
      }) in
    let (x, at_k) = within all k at_ in
    elim (Bool-cases (ltb addr x)) [
      | inl c ↦ inl (
        rw (find_by_addr, runs, at_k, c) refl,
        λ i y e. first all sorted k x at_k (λ p. low x p at_k) (ground (arith, c)) i y e,
      )
      | inr c ↦ inr (
        k,
        rw (find_by_addr, runs, at_k, c) refl,
        (x, at_k, ground (arith, c), λ j y lt e. later_on all sorted k high j y lt e),
      )
    ]
