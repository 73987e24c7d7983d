-- ===== src/Containers/Links/Without.antt =====
-- What is left of a sequence of addresses without one of them, for src/kernel/lib/list.h.
use mathlib.Core.Path.{subst}
use ricerca.Common.{
  ℕ, ◌+◌, ◌≤◌, ◌≡◌, refl, true, false, List, [], ◌∷◌, ◌==◌, ==_refl, if◌then◌else◌, arith, inl, inr,
  Bool-cases,
}
use ricerca.Containers.Links.Order.{
  times, first, last, after, before, without, AreNodes, AreNodes-rest, absent, after-absent,
  before-times, last-times, before-after, after-before,
}

pub first-without :
    (n : ℕ) (xs : List ℕ) → first (without n xs) ≡ (if first xs == n then after xs n else first xs)
unfolding first without after
first-without n [] = ground arith
first-without n (x ∷ xs) = elim (Bool-cases (x == n)) [
  | inl is_n ↦ rw is_n refl
  | inr other ↦ rw other refl
]

pub times-without :
    (n a : ℕ) (xs : List ℕ)
    → times a (without n xs) + (if n == a then (if times n xs == 0 then 0 else 1) else 0)
      ≡ times a xs
unfolding times without
times-without n a [] = ground arith
times-without n a (x ∷ xs) = ground (arith, times-without n a xs)

pub after-without :
    (n a : ℕ) (xs : List ℕ)
    → AreNodes xs
    → 1 ≤ n
    → (a == n) ≡ false
    → after (without n xs) a ≡ (if after xs a == n then after xs n else after xs a)
unfolding after without times first
after-without n a [] ok h ne = ground arith
after-without n a (x ∷ xs) ok h ne = elim (Bool-cases (x == n)) [
  | inl is_n ↦
      let not_a : (x == a) ≡ false = ground (arith, ne) in
      let gone : times n xs ≡ 0 = ground (arith, ok.once n, is_n) in
      rw (is_n, not_a, after-absent xs a n h gone) refl
  | inr other ↦ rw other (elim (Bool-cases (x == a)) [
    | inl at_x ↦ rw at_x (first-without n xs)
    | inr apart ↦ rw apart (after-without n a xs (AreNodes-rest x xs ok) h ne)
  ])
]

before-head :
    (b x n a : ℕ) (xs : List ℕ)
    → (x == n) ≡ true
    → times n xs ≡ 0
    → 1 ≤ times a xs
    → before b xs a ≡ (if before x xs a == n then b else before x xs a)
unfolding before times
before-head b x n a [] is_n gone in_a = absurd (omega arith)
before-head b x n a (y ∷ ys) is_n gone in_a = elim (Bool-cases (y == a)) [
  | inl at_y ↦ rw (at_y, is_n) refl
  | inr other ↦
      let within = before-times y ys a (ground (arith, in_a, other)) in
      rw (other, absent (y ∷ ys) n (before y ys a) gone within) refl
]

pub before-without :
    (b n a : ℕ) (xs : List ℕ)
    → AreNodes xs
    → (a == n) ≡ false
    → (b == n) ≡ false
    → 1 ≤ times a xs
    → before b (without n xs) a ≡ (if before b xs a == n then before b xs n else before b xs a)
unfolding before without times
before-without b n a [] ok ne out in_a = absurd (omega arith)
before-without b n a (x ∷ xs) ok ne out in_a = elim (Bool-cases (x == n)) [
  | inl is_n ↦
      let not_a : (x == a) ≡ false = ground (arith, ne) in
      let gone : times n xs ≡ 0 = ground (arith, ok.once n, is_n) in
      rw (is_n, not_a) (before-head b x n a xs is_n gone (ground (arith, in_a, not_a)))
  | inr other ↦ rw other (elim (Bool-cases (x == a)) [
    | inl at_x ↦ rw (at_x, out) refl
    | inr apart ↦
        rw apart
          (before-without x n a xs (AreNodes-rest x xs ok) ne other (ground (arith, in_a, apart)))
  ])
]

last-head :
    (b x n : ℕ) (xs : List ℕ)
    → (x == n) ≡ true
    → times n xs ≡ 0
    → last b xs ≡ (if last x xs == n then b else last x xs)
unfolding last
last-head b x n [] is_n gone = rw is_n refl
last-head b x n (y ∷ ys) is_n gone = rw (absent (y ∷ ys) n (last y ys) gone (last-times y ys)) refl

pub last-without :
    (b n : ℕ) (xs : List ℕ)
    → AreNodes xs
    → (b == n) ≡ false
    → 1 ≤ times n xs
    → last b (without n xs) ≡ (if last b xs == n then before b xs n else last b xs)
unfolding last without times before
last-without b n [] ok out in_n = absurd (omega arith)
last-without b n (x ∷ xs) ok out in_n = elim (Bool-cases (x == n)) [
  | inl is_n ↦ rw is_n (last-head b x n xs is_n (ground (arith, ok.once n, is_n)))
  | inr other ↦
      rw other (last-without x n xs (AreNodes-rest x xs ok) other (ground (arith, in_n, other)))
]

pub without-AreNodes : (n : ℕ) (xs : List ℕ) → AreNodes xs → AreNodes (without n xs)
without-AreNodes n xs ok = record {
  once = λ a. omega (arith, ok.once a, times-without n a xs);
  nonzero = omega (arith, ok.nonzero, times-without n 0 xs);
}

-- An address that is left stood in the sequence, and is another.
pub left_times :
    (n a : ℕ) (xs : List ℕ)
    → AreNodes xs
    → 1 ≤ times n xs
    → 1 ≤ times a (without n xs)
    → (1 ≤ times a xs) × ((a == n) ≡ false)
left_times n a xs ok in_n in_a = (
  omega (arith, in_a, times-without n a xs),
  elim (Bool-cases (a == n)) [
    | inr other ↦ other
    | inl same ↦
        let a_n : a ≡ n = ground arith in
        let in_n' = subst (λ z. 1 ≤ times z (without n xs)) a_n in_a in
        absurd (ground (arith, times-without n n xs, in_n', in_n, ok.once n, ==_refl n))
  ],
)

-- Which address stands before n, and which behind it.
pub next_is :
    (n a : ℕ) (xs : List ℕ)
    → AreNodes xs
    → 1 ≤ n
    → 1 ≤ a
    → 1 ≤ times n xs
    → (after xs a == n) ≡ (a == before 0 xs n)
next_is n a xs ok n_pos a_pos in_n = elim (Bool-cases (after xs a == n)) [
  | inl is_n ↦ ground (arith, is_n, before-after 0 xs a n ok n_pos (ground arith))
  | inr other ↦ elim (Bool-cases (a == before 0 xs n)) [
    | inr apart ↦ rw (other, apart) refl
    | inl before_n ↦
        absurd (ground (arith, other, after-before 0 xs a n ok in_n (ground arith) (ground arith)))
  ]
]

pub prev_is :
    (n a : ℕ) (xs : List ℕ)
    → AreNodes xs
    → 1 ≤ n
    → 1 ≤ a
    → 1 ≤ times a xs
    → (before 0 xs a == n) ≡ (a == after xs n)
prev_is n a xs ok n_pos a_pos in_a = elim (Bool-cases (before 0 xs a == n)) [
  | inl is_n ↦ ground (arith, is_n, after-before 0 xs n a ok in_a (ground arith) (ground arith))
  | inr other ↦ elim (Bool-cases (a == after xs n)) [
    | inr apart ↦ rw (other, apart) refl
    | inl after_n ↦ absurd (ground (arith, other, before-after 0 xs n a ok a_pos (ground arith)))
  ]
]
