-- ===== src/Locking/Spinlock/Safety.antt =====
-- A spinlock of src/kernel/thread/locking/spinlock.c is held by one core at a time.
use mathlib.Core.Path.{subst}
use ricerca.Common.{
  ℕ, zero, suc, ◌+◌, ◌%◌, ◌≤◌, ◌<◌, ◌≡◌, refl, sym, ap, true, List, [], ◌∷◌, ◌++◌, ◌==◌, ==_refl,
  arith, inl, inr, Bool-cases, size_mod,
}
use ricerca.Containers.Links.Order.{times}
use ricerca.Memory.Paging.Total.{total}
use ricerca.Locking.Spinlock.Defs.{
  Spinlock, spinlock_init, is_turn, Core, outside, waiting, inside, leaving, Step, fetches, enters,
  loads, stores, Reach, begin, later,
}
use ricerca.Locking.Spinlock.Queue.{
  IsQueue, place, place-lt, total-le, active, Fits, fetched, entered, loaded, left,
}

-- A core that holds the lock.
abbrev pub Holds : Core → Type 0
Holds outside = 1 ≤ 0
Holds (waiting t) = 1 ≤ 0
Holds inside = 0 ≤ 0
Holds (leaving c) = 0 ≤ 0

-- A core that holds the lock, or that finds that its turn has come.
abbrev pub CanGo : Spinlock → Core → Type 0
CanGo s outside = 1 ≤ 0
CanGo s (waiting t) = is_turn t s ≡ true
CanGo s inside = 0 ≤ 0
CanGo s (leaving c) = 0 ≤ 0

pub record IsOrdered (n : ℕ) (s : Spinlock) (cores : ℕ → Core) : Type 0 where
  pub exclusive : (i j : ℕ) → Holds (cores i) → Holds (cores j) → i ≡ j
  pub in_turn : (i j t : ℕ) → cores i ≡ waiting t → cores j ≡ waiting t → i ≡ j
  pub behind :
      (i t : ℕ) → cores i ≡ waiting t → (k : ℕ) × (k < n) × (t ≡ (s.current + k) % size_mod)
  pub goes_on : (i : ℕ) → 1 ≤ active (cores i) → (j : ℕ) × CanGo s (cores j)

total-zero : (n : ℕ) → total n (λ i. 0) ≡ 0
unfolding total
total-zero zero = refl
total-zero (suc n) = omega (arith, total-zero n)

start-IsQueue : (n : ℕ) → IsQueue n spinlock_init (λ i. outside) []
unfolding times
start-IsQueue n = record {
  bound = omega arith;
  allocated_is = refl;
  there = λ i. refl;
  few = sym (total-zero n);
  fits = λ i. omega arith;
}

Step-IsQueue :
    {n : ℕ} {s s' : Spinlock} {cores cores' : ℕ → Core} {q : List ℕ}
    → n ≤ size_mod
    → IsQueue n s cores q
    → Step n s cores s' cores'
    → (q' : List ℕ) × IsQueue n s' cores' q'
unfolding is_turn
Step-IsQueue {n} {s} {cores = cores} {q = q} small ok (fetches i lt e) =
    (q ++ (i ∷ []), fetched n s cores q ok i lt e)
Step-IsQueue {n} {s} {cores = cores} {q = q} small ok (enters i ticket lt e turn) =
    (q, entered n s cores q ok i ticket small lt e (ground (arith, turn)))
Step-IsQueue {n} {s} {cores = cores} {q = q} small ok (loads i lt e) =
    (q, loaded n s cores q ok i lt e)
Step-IsQueue {n} {s} {cores = cores} {q = q} small ok (stores i current lt e) =
    let (rest, q_is, ok') = left n s cores q i current ok lt e in (rest, ok')

Reach-IsQueue :
    {n : ℕ} {s : Spinlock} {cores : ℕ → Core}
    → n ≤ size_mod
    → Reach n s cores
    → (q : List ℕ) × IsQueue n s cores q
Reach-IsQueue {n} small begin = ([], start-IsQueue n)
Reach-IsQueue {n} small (later r step) =
    let (q, ok) = Reach-IsQueue small r in Step-IsQueue small ok step

Holds-first : (s : Spinlock) (k : ℕ) (c : Core) → Holds c → Fits s k c → (k ≡ 0) × (1 ≤ active c)
Holds-first s k outside h f = absurd (omega (arith, h))
Holds-first s k (waiting t) h f = absurd (omega (arith, h))
Holds-first s k inside h f = (f, omega arith)
Holds-first s k (leaving c) h f = (f.0, omega arith)

first-CanGo :
    (s : Spinlock) (c : Core) → s.current < size_mod → 1 ≤ active c → Fits s 0 c → CanGo s c
unfolding is_turn
first-CanGo s outside lt h f = absurd (omega (arith, h))
first-CanGo s (waiting t) lt h f = ground (arith, f, lt)
first-CanGo s inside lt h f = omega arith
first-CanGo s (leaving c) lt h f = omega arith

same_place : (q : List ℕ) (i j : ℕ) → 1 ≤ times i q → 1 ≤ times j q → place q i ≡ place q j → i ≡ j
unfolding times place
same_place [] i j hi hj e = absurd (omega arith)
same_place (x ∷ q) i j hi hj e = elim (Bool-cases (x == i)) [
  | inl at_i ↦ ground (arith, e, at_i)
  | inr not_i ↦ elim (Bool-cases (x == j)) [
    | inl at_j ↦ absurd (ground (arith, e, not_i, at_j))
    | inr not_j ↦
        same_place q i j (ground (arith, hi, not_i)) (ground (arith, hj, not_j))
          (ground (arith, e, not_i, not_j))
  ]
]

-- The first core of the queue.
first_goes :
    (n : ℕ) (s : Spinlock) (cores : ℕ → Core) (q : List ℕ) (i : ℕ)
    → IsQueue n s cores q
    → 1 ≤ times i q
    → (j : ℕ) × CanGo s (cores j)
unfolding times place
first_goes n s cores [] i ok h = absurd (omega arith)
first_goes n s cores (x ∷ q) i ok h =
    let at_first : place (x ∷ q) x ≡ 0 = rw (==_refl x) refl in
    let has : 1 ≤ active (cores x) = ground (arith, ok.there x, ==_refl x) in
    (x, first-CanGo s (cores x) ok.bound has (subst (λ k. Fits s k (cores x)) at_first (ok.fits x)))

one_holder :
    (n : ℕ) (s : Spinlock) (cores : ℕ → Core) (q : List ℕ) (i j : ℕ)
    → IsQueue n s cores q
    → Holds (cores i)
    → Holds (cores j)
    → i ≡ j
one_holder n s cores q i j ok hi hj =
    let (pi, ai) = Holds-first s (place q i) (cores i) hi (ok.fits i) in
    let (pj, aj) = Holds-first s (place q j) (cores j) hj (ok.fits j) in
    same_place q i j (omega (arith, ai, ok.there i)) (omega (arith, aj, ok.there j))
      (omega (arith, pi, pj))

module _ (n : ℕ) (small : n ≤ size_mod) (s : Spinlock) (cores : ℕ → Core) (q : List ℕ)
    (ok : IsQueue n s cores q) where
  waits :
      (i t : ℕ)
      → cores i ≡ waiting t
      → (1 ≤ times i q) × (place q i < n) × (t ≡ (s.current + place q i) % size_mod)
  waits i t e =
      let has : 1 ≤ times i q = omega (arith, ok.there i, ap active e) in
      (
        has,
        omega (arith, place-lt q i has, ok.few, total-le n cores),
        subst (Fits s (place q i)) e (ok.fits i),
      )

  one_ticket : (i j t : ℕ) → cores i ≡ waiting t → cores j ≡ waiting t → i ≡ j
  one_ticket i j t ei ej =
      let (hi, li, ti) = waits i t ei in
      let (hj, lj, tj) = waits j t ej in
      same_place q i j hi hj (omega (arith, ti, tj, li, lj, small, ok.bound))

  IsQueue-IsOrdered : IsOrdered n s cores
  IsQueue-IsOrdered = record {
    exclusive = λ i j hi hj. one_holder n s cores q i j ok hi hj;
    in_turn = one_ticket;
    behind = λ i t e. let (h, l, t_is) = waits i t e in (place q i, l, t_is);
    goes_on = λ i h. first_goes n s cores q i ok (omega (arith, h, ok.there i));
  }

-- Cores that grab and ungrab a spinlock in any order, no more than there are tickets: it is held by one at
-- a time, the tickets of waiting cores differ and are at most as far behind as there are cores, and as long as one
-- waits for the lock or holds it, some core can go on.
pub Reach-IsOrdered :
    {n : ℕ} {s : Spinlock} {cores : ℕ → Core} → n ≤ size_mod → Reach n s cores → IsOrdered n s cores
Reach-IsOrdered {n} {s} {cores} small r =
    let (q, ok) = Reach-IsQueue small r in IsQueue-IsOrdered n small s cores q ok
