-- ===== src/Containers/Links/Order.antt =====
-- The neighbours of an address in a sequence of addresses, for the lists of src/kernel/lib/list.h.
use mathlib.Core.Path.{subst}
use ricerca.Common.{
  ◌∙◌, sym, ℕ, ◌+◌, ◌≤◌, ◌≡◌, refl, true, false, List, [], ◌∷◌, ◌==◌, ==_refl, if◌then◌else◌, arith,
  inl, inr, Bool-cases,
}

-- How often an address stands in a sequence.
unfoldable pub times : ℕ → List ℕ → ℕ
times a [] = 0
times a (x ∷ xs) = (if x == a then 1 else 0) + times a xs

unfoldable pub first : List ℕ → ℕ
first [] = 0
first (x ∷ xs) = x

-- The last address, or b.
unfoldable pub last : (b : ℕ) → List ℕ → ℕ
last b [] = b
last b (x ∷ xs) = last x xs

-- The address behind an address; 0 behind the last.
unfoldable pub after : List ℕ → ℕ → ℕ
unfolding first
after [] a = 0
after (x ∷ xs) a = if x == a then first xs else after xs a

-- The address before an address; b before the first.
unfoldable pub before : (b : ℕ) → List ℕ → ℕ → ℕ
before b [] a = 0
before b (x ∷ xs) a = if x == a then b else before x xs a

-- The sequence without an address.
unfoldable pub without : ℕ → List ℕ → List ℕ
without n [] = []
without n (x ∷ xs) = if x == n then xs else x ∷ without n xs

-- No address stands twice, and NULL does not stand in the sequence.
pub record AreNodes (xs : List ℕ) : Type 0 where
  pub once : (a : ℕ) → times a xs ≤ 1
  pub nonzero : times 0 xs ≡ 0

pub AreNodes-rest : (x : ℕ) (xs : List ℕ) → AreNodes (x ∷ xs) → AreNodes xs
unfolding times
AreNodes-rest x xs ok = record {
  once = λ a. omega (arith, ok.once a);
  nonzero = omega (arith, ok.nonzero);
}

pub times-first : (xs : List ℕ) → 1 ≤ first xs → 1 ≤ times (first xs) xs
unfolding times first
times-first [] h = absurd (omega arith)
times-first (x ∷ xs) h = ground (arith, ==_refl x)

-- What stands in a sequence is not what does not.
pub absent : (xs : List ℕ) (n a : ℕ) → times n xs ≡ 0 → 1 ≤ times a xs → (a == n) ≡ false
absent xs n a gone within = elim (Bool-cases (a == n)) [
  | inr other ↦ other
  | inl same ↦
      let a_n : a ≡ n = ground arith in
      absurd (omega (arith, subst (λ z. 1 ≤ times z xs) a_n within, gone))
]

first-nonzero : (x : ℕ) (xs : List ℕ) → AreNodes (x ∷ xs) → 1 ≤ x
unfolding times
first-nonzero x xs ok = ground (arith, ok.nonzero)

first-absent : (xs : List ℕ) (n : ℕ) → 1 ≤ n → times n xs ≡ 0 → (first xs == n) ≡ false
unfolding first times
first-absent [] n h none = ground (arith, h)
first-absent (x ∷ xs) n h none = ground (arith, none)

pub after-absent : (xs : List ℕ) (a n : ℕ) → 1 ≤ n → times n xs ≡ 0 → (after xs a == n) ≡ false
unfolding after times
after-absent [] a n h none = ground (arith, h)
after-absent (x ∷ xs) a n h none = ground (
  arith,
  none,
  first-absent xs n h (omega (arith, none)),
  after-absent xs a n h (omega (arith, none)),
)

once-own : (x : ℕ) (xs : List ℕ) → times x (x ∷ xs) ≡ 1 + times x xs
unfolding times
once-own x xs = rw (==_refl x) refl

pub after-times : (xs : List ℕ) (a : ℕ) → 1 ≤ after xs a → 1 ≤ times (after xs a) xs
unfolding after times
after-times [] a h = absurd (omega arith)
after-times (x ∷ xs) a h = elim (Bool-cases (x == a)) [
  | inl at_x ↦
      let e : after (x ∷ xs) a ≡ first xs = rw at_x refl in
      let within = times-first xs (omega (arith, h, e)) in
      subst (λ z. 1 ≤ times z (x ∷ xs)) (sym e) (omega (arith, within))
  | inr other ↦
      let e : after (x ∷ xs) a ≡ after xs a = rw other refl in
      let within = after-times xs a (omega (arith, h, e)) in
      subst (λ z. 1 ≤ times z (x ∷ xs)) (sym e) (omega (arith, within))
]

pub before-times :
    (b : ℕ) (xs : List ℕ) (n : ℕ) → 1 ≤ times n xs → 1 ≤ times (before b xs n) (b ∷ xs)
unfolding before times
before-times b [] n h = absurd (omega arith)
before-times b (x ∷ xs) n h = elim (Bool-cases (x == n)) [
  | inl at_x ↦
      let e : before b (x ∷ xs) n ≡ b = rw at_x refl in
      subst (λ z. 1 ≤ times z (b ∷ x ∷ xs)) (sym e) (omega (arith, once-own b (x ∷ xs)))
  | inr other ↦
      let e : before b (x ∷ xs) n ≡ before x xs n = rw other refl in
      let within = before-times x xs n (ground (arith, h, other)) in
      subst (λ z. 1 ≤ times z (b ∷ x ∷ xs)) (sym e) (omega (arith, within))
]

pub before-first :
    (x : ℕ) (xs : List ℕ) (n : ℕ)
    → 1 ≤ times n xs
    → times x xs ≡ 0
    → before x xs n ≡ x
    → first xs ≡ n
unfolding before times first
before-first x [] n in_n out e = absurd (omega arith)
before-first x (y ∷ ys) n in_n out e = elim (Bool-cases (y == n)) [
  | inl at_y ↦ ground (arith, at_y)
  | inr other ↦
      let back : before y ys n ≡ x = ground (arith, e, other) in
      let within = before-times y ys n (ground (arith, in_n, other)) in
      let within' = subst (λ z. 1 ≤ times z (y ∷ ys)) back within in
      absurd (omega (arith, within', out))
]

pub before-of-first : (b : ℕ) (xs : List ℕ) (n : ℕ) → 1 ≤ n → first xs ≡ n → before b xs n ≡ b
unfolding before first
before-of-first b [] n h e = absurd (omega (arith, e))
before-of-first b (x ∷ xs) n h e = let is_n : (x == n) ≡ true = ground (arith, e) in rw is_n refl

-- Neighbours are each other's neighbours.
pub before-after :
    (b : ℕ) (xs : List ℕ) (a n : ℕ) → AreNodes xs → 1 ≤ n → after xs a ≡ n → before b xs n ≡ a
unfolding after before times first
before-after b [] a n ok h e = absurd (omega (arith, e))
before-after b (x ∷ xs) a n ok h e = elim (Bool-cases (x == a)) [
  | inl at_x ↦
      let x_a : x ≡ a = ground arith in
      let e' : first xs ≡ n = ground (arith, e, at_x) in
      let in_n = subst (λ z. 1 ≤ times z xs) e' (times-first xs (omega (arith, e'))) in
      let not_n : (x == n) ≡ false = ground (arith, ok.once n, in_n) in
      rw not_n (before-of-first x xs n h e' ∙ x_a)
  | inr other ↦
      let e' : after xs a ≡ n = ground (arith, e, other) in
      let in_n = subst (λ z. 1 ≤ times z xs) e' (after-times xs a (omega (arith, e'))) in
      let not_n : (x == n) ≡ false = ground (arith, ok.once n, in_n) in
      rw not_n (before-after x xs a n (AreNodes-rest x xs ok) h e')
]

pub after-before :
    (b : ℕ) (xs : List ℕ) (a n : ℕ)
    → AreNodes xs
    → 1 ≤ times n xs
    → (b == a) ≡ false
    → before b xs n ≡ a
    → after xs a ≡ n
unfolding after before times
after-before b [] a n ok in_n ne e = absurd (omega arith)
after-before b (x ∷ xs) a n ok in_n ne e =
    let not_n : (x == n) ≡ false = ground (arith, e, ne) in
    let e' : before x xs n ≡ a = ground (arith, e, not_n) in
    let in_n' : 1 ≤ times n xs = ground (arith, in_n, not_n) in
    elim (Bool-cases (x == a)) [
      | inl at_x ↦
          let x_a : x ≡ a = ground arith in
          let out : times x xs ≡ 0 = omega (arith, ok.once x, once-own x xs) in
          rw at_x (before-first x xs n in_n' out (e' ∙ sym x_a))
      | inr other ↦ rw other (after-before x xs a n (AreNodes-rest x xs ok) in_n' other e')
    ]

pub last-times : (y : ℕ) (ys : List ℕ) → 1 ≤ times (last y ys) (y ∷ ys)
unfolding last times
last-times y [] = rw (==_refl y) (omega arith)
last-times y (x ∷ xs) = omega (arith, last-times x xs)

-- Nothing stands behind the last address only.
pub last-after :
    (b : ℕ) (xs : List ℕ) (n : ℕ) → AreNodes xs → 1 ≤ times n xs → after xs n ≡ 0 → last b xs ≡ n
unfolding last after times first
last-after b [] n ok in_n e = absurd (omega arith)
last-after b (x ∷ []) n ok in_n e = ground (arith, in_n)
last-after b (x ∷ y ∷ ys) n ok in_n e = elim (Bool-cases (x == n)) [
  | inl is_n ↦ absurd (ground (arith, ok.nonzero, e, is_n))
  | inr other ↦
      let e' : after (y ∷ ys) n ≡ 0 = ground (arith, e, other) in
      last-after x (y ∷ ys) n (AreNodes-rest x (y ∷ ys) ok) (ground (arith, in_n, other)) e'
]

pub after-last :
    (b : ℕ) (xs : List ℕ) (n : ℕ) → AreNodes xs → 1 ≤ times n xs → last b xs ≡ n → after xs n ≡ 0
unfolding last after times first
after-last b [] n ok in_n e = absurd (omega arith)
after-last b (x ∷ []) n ok in_n e = ground arith
after-last b (x ∷ y ∷ ys) n ok in_n e = elim (Bool-cases (x == n)) [
  | inl is_n ↦
      let gone : times n (y ∷ ys) ≡ 0 = ground (arith, ok.once n, is_n) in
      absurd (ground (arith, absent (y ∷ ys) n (last y ys) gone (last-times y ys), e))
  | inr other ↦
      rw other
        (after-last x (y ∷ ys) n (AreNodes-rest x (y ∷ ys) ok) (ground (arith, in_n, other)) e)
]
