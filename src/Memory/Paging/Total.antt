-- ===== src/Memory/Paging/Total.antt =====
-- Sums over the entries of a table.
use native.Mathlib.Decide.{dec_lt}
use ricerca.Common.{
  ℕ, zero, suc, ◌+◌, ◌≤◌, ◌<◌, ◌≡◌, refl, ◌==◌, arith, inl, inr, Bool-cases, false,
}

unfoldable pub total : (n : ℕ) → (ℕ → ℕ) → ℕ
total zero f = 0
total (suc n) f = total n f + f n

pub total-same : (n : ℕ) (f g : ℕ → ℕ) → ((i : ℕ) → i < n → f i ≡ g i) → total n f ≡ total n g
unfolding total
total-same zero f g h = refl
total-same (suc n) f g h =
    omega (arith, total-same n f g (λ i lt. h i (omega arith)), h n (omega arith))

-- What one changed term changes.
pub total-change :
    (n k : ℕ) (f g : ℕ → ℕ)
    → k < n
    → ((i : ℕ) → i < n → (i == k) ≡ false → f i ≡ g i)
    → total n f + g k ≡ total n g + f k
unfolding total
total-change zero k f g lt h = absurd (omega arith)
total-change (suc n) k f g lt h = elim (dec_lt k n) [
  | yes below ↦ omega (
    arith,
    total-change n k f g below (λ i l e. h i (omega arith) e),
    h n (omega arith) (ground arith),
  )
  | no last ↦
      let n_k : n ≡ k = omega arith in
      rw n_k (omega (arith, total-same k f g (λ i l. h i (omega arith) (ground arith))))
]

pub total-term : (n k : ℕ) (f : ℕ → ℕ) → k < n → f k ≤ total n f
unfolding total
total-term zero k f lt = absurd (omega arith)
total-term (suc n) k f lt = elim (dec_lt k n) [
  | yes below ↦ omega (arith, total-term n k f below)
  | no last ↦ let n_k : n ≡ k = omega arith in rw n_k (omega arith)
]

pub total-terms : (n j k : ℕ) (f : ℕ → ℕ) → j < n → k < n → (j == k) ≡ false → f j + f k ≤ total n f
unfolding total
total-terms zero j k f lj lk ne = absurd (omega arith)
total-terms (suc n) j k f lj lk ne = elim (Bool-cases (j == n)) [
  | inl at_j ↦
      let j_n : j ≡ n = ground arith in rw j_n (omega (arith, total-term n k f (ground arith)))
  | inr not_j ↦ elim (Bool-cases (k == n)) [
    | inl at_k ↦
        let k_n : k ≡ n = ground arith in rw k_n (omega (arith, total-term n j f (ground arith)))
    | inr not_k ↦ omega (arith, total-terms n j k f (ground arith) (ground arith) ne)
  ]
]
