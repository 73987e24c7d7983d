-- ===== src/Locking/Spinlock/Queue.antt =====
-- The cores that have a ticket of src/kernel/thread/locking/spinlock.c stand in a queue.
use mathlib.Core.Path.{subst}
use ricerca.Common.{
  ℕ, zero, suc, ◌+◌, ◌%◌, ◌≤◌, ◌<◌, ◌≡◌, refl, sym, ap, ◌∙◌, false, List, [], ◌∷◌, ◌++◌, ◌==◌,
  ==_refl, if◌then◌else◌, arith, inl, inr, Bool-cases, size_mod, length,
}
use ricerca.Containers.Links.Order.{times}
use ricerca.Memory.Paging.Total.{total, total-change}
use ricerca.Locking.Spinlock.Defs.{
  Spinlock, fetch_ticket, store_next, Core, outside, waiting, inside, leaving, put_core,
}

-- How many cores stand before one.
unfoldable pub place : List ℕ → ℕ → ℕ
place [] i = 0
place (x ∷ xs) i = if x == i then 0 else suc (place xs i)

-- 1 for a core with a ticket.
abbrev pub active : Core → ℕ
active outside = 0
active (waiting t) = 1
active inside = 1
active (leaving c) = 1

-- A core at the place k: its ticket comes k behind the current one, and only the first is inside.
abbrev pub Fits : Spinlock → (k : ℕ) → Core → Type 0
Fits s k outside = 0 ≤ 0
Fits s k (waiting t) = t ≡ (s.current + k) % size_mod
Fits s k inside = k ≡ 0
Fits s k (leaving c) = (k ≡ 0) × (c ≡ s.current)

pub record IsQueue (n : ℕ) (s : Spinlock) (cores : ℕ → Core) (q : List ℕ) : Type 0 where
  pub bound : s.current < size_mod
  pub allocated_is : s.allocated ≡ (s.current + length q) % size_mod
  pub there : (i : ℕ) → times i q ≡ active (cores i)
  pub few : length q ≡ total n (λ i. active (cores i))
  pub fits : (i : ℕ) → Fits s (place q i) (cores i)

active-le : (c : Core) → active c ≤ 1
active-le outside = omega arith
active-le (waiting t) = omega arith
active-le inside = omega arith
active-le (leaving c) = omega arith

pub total-le : (n : ℕ) (cores : ℕ → Core) → total n (λ i. active (cores i)) ≤ n
unfolding total
total-le zero cores = omega arith
total-le (suc n) cores = omega (arith, total-le n cores, active-le (cores n))

place-snoc :
    (q : List ℕ) (i j : ℕ)
    → times i q ≡ 0
    → place (q ++ (i ∷ [])) j
      ≡ (if j == i then length q else (if times j q == 0 then suc (length q) else place q j))
unfolding place times
place-snoc [] i j out = ground arith
place-snoc (x ∷ q) i j out = ground (arith, out, place-snoc q i j (omega (arith, out)))

times-snoc :
    (q : List ℕ) (i j : ℕ) → times j (q ++ (i ∷ [])) ≡ times j q + (if i == j then 1 else 0)
unfolding times
times-snoc [] i j = omega arith
times-snoc (x ∷ q) i j = omega (arith, times-snoc q i j)

length-snoc : (q : List ℕ) (i : ℕ) → length (q ++ (i ∷ [])) ≡ suc (length q)
length-snoc [] i = refl
length-snoc (x ∷ q) i = omega (arith, length-snoc q i)

pub place-lt : (q : List ℕ) (i : ℕ) → 1 ≤ times i q → place q i < length q
unfolding place times
place-lt [] i h = absurd (omega arith)
place-lt (x ∷ q) i h = ground (arith, h, place-lt q i)

-- The core at the first place.
place-first :
    (q : List ℕ) (i : ℕ) → 1 ≤ times i q → place q i ≡ 0 → (rest : List ℕ) × (q ≡ i ∷ rest)
unfolding place times
place-first [] i h e = absurd (omega arith)
place-first (x ∷ q) i h e = let x_i : x ≡ i = ground (arith, e) in (q, ap (λ z. z ∷ q) x_i)

Fits-same :
    (s s' : Spinlock) (k k' : ℕ) (c : Core)
    → s'.current ≡ s.current
    → (1 ≤ active c → k' ≡ k)
    → Fits s k c
    → Fits s' k' c
Fits-same s s' k k' outside e h f = f
Fits-same s s' k k' (waiting t) e h f = rw (e, h (omega arith)) f
Fits-same s s' k k' inside e h f = omega (arith, h (omega arith), f)
Fits-same s s' k k' (leaving c) e h (f, g) =
    (omega (arith, h (omega arith), f), omega (arith, e, g))

Fits-next :
    (s : Spinlock) (k k' : ℕ) (c : Core)
    → s.current < size_mod
    → (1 ≤ active c → k ≡ suc k')
    → Fits s k c
    → Fits (store_next s.current s) k' c
unfolding store_next
Fits-next s k k' outside lt h f = f
Fits-next s k k' (waiting t) lt h f = let k_is = h (omega arith) in omega (arith, f, k_is)
Fits-next s k k' inside lt h f = absurd (omega (arith, f, h (omega arith)))
Fits-next s k k' (leaving c) lt h (f, g) = absurd (omega (arith, f, h (omega arith)))

abbrev counts : (ℕ → Core) → ℕ → ℕ
counts cores i = active (cores i)

module _ (n : ℕ) (s : Spinlock) (cores : ℕ → Core) (q : List ℕ) (ok : IsQueue n s cores q) where
  -- What one core's change changes in the number of tickets.
  recount :
      (i : ℕ) (c : Core)
      → i < n
      → total n (counts (put_core i c cores)) + active (cores i) ≡ total n (counts cores) + active c
  recount i c lt =
      let own : counts (put_core i c cores) i ≡ active c = rw (==_refl i) refl in
      omega (
        arith,
        own,
        total-change n i (counts (put_core i c cores)) (counts cores) lt
            (λ j l other. rw other refl),
      )

  pub fetched :
      (i : ℕ)
      → i < n
      → cores i ≡ outside
      → IsQueue n (fetch_ticket s).1 (put_core i (waiting (fetch_ticket s).0) cores) (q ++ (i ∷ []))
  unfolding fetch_ticket
  fetched i lt e =
      let free : active (cores i) ≡ 0 = ap active e in
      let out : times i q ≡ 0 = ok.there i ∙ free in
      record {
        bound = ok.bound;
        allocated_is = omega (arith, ok.allocated_is, length-snoc q i);
        there = λ j. times-snoc q i j ∙ elim (Bool-cases (j == i)) [
          | inl same ↦ let j_i : j ≡ i = ground arith in rw (same, j_i, out, ==_refl i) refl
          | inr other ↦
              let other' : (i == j) ≡ false = ground (arith, other) in
              rw (other, other') (omega (arith, ok.there j))
        ];
        few = omega (arith, length-snoc q i, recount i (waiting s.allocated) lt, free, ok.few);
        fits = λ j. elim (Bool-cases (j == i)) [
          | inl same ↦ rw (same, place-snoc q i j out, same) ok.allocated_is
          | inr other ↦ rw other (
              Fits-same s (fetch_ticket s).1 (place q j) (place (q ++ (i ∷ [])) j) (cores j) refl
                (λ has. place-snoc q i j out ∙ ground (arith, other, has, ok.there j)) (ok.fits j))
        ];
      }

  -- A core that keeps its place.
  kept :
      (i : ℕ) (c : Core)
      → i < n
      → active (cores i) ≡ 1
      → active c ≡ 1
      → Fits s (place q i) c
      → IsQueue n s (put_core i c cores) q
  kept i c lt was now f = record {
    bound = ok.bound;
    allocated_is = ok.allocated_is;
    there = λ j. ok.there j ∙ elim (Bool-cases (j == i)) [
      | inl same ↦ let j_i : j ≡ i = ground arith in rw (same, j_i, was, now) refl
      | inr other ↦ rw other refl
    ];
    few = omega (arith, recount i c lt, was, now, ok.few);
    fits = λ j. elim (Bool-cases (j == i)) [
      | inl same ↦ let j_i : j ≡ i = ground arith in rw (same, j_i) f
      | inr other ↦ rw other (ok.fits j)
    ];
  }

  -- A core whose turn it is stands first.
  turn-first :
      (i ticket : ℕ) → n ≤ size_mod → cores i ≡ waiting ticket → s.current ≡ ticket → place q i ≡ 0
  turn-first i ticket small e turn =
      let has : times i q ≡ 1 = ok.there i ∙ ap active e in
      let before = place-lt q i (omega (arith, has)) in
      let ticket_is : ticket ≡ (s.current + place q i) % size_mod =
        subst (Fits s (place q i)) e (ok.fits i) in
      omega (arith, before, ticket_is, turn, ok.few, total-le n cores, small, ok.bound)

  pub entered :
      (i ticket : ℕ)
      → n ≤ size_mod
      → i < n
      → cores i ≡ waiting ticket
      → s.current ≡ ticket
      → IsQueue n s (put_core i inside cores) q
  entered i ticket small lt e turn =
      kept i inside lt (ap active e) refl (turn-first i ticket small e turn)

  pub loaded :
      (i : ℕ) → i < n → cores i ≡ inside → IsQueue n s (put_core i (leaving s.current) cores) q
  loaded i lt e =
      kept i (leaving s.current) lt (ap active e) refl
        (subst (Fits s (place q i)) e (ok.fits i), refl)

-- The first core of the queue leaves.
left_first :
    (n : ℕ) (s : Spinlock) (cores : ℕ → Core) (i : ℕ) (rest : List ℕ)
    → IsQueue n s cores (i ∷ rest)
    → i < n
    → active (cores i) ≡ 1
    → IsQueue n (store_next s.current s) (put_core i outside cores) rest
unfolding store_next times place
left_first n s cores i rest ok lt was = record {
  bound = omega arith;
  allocated_is = omega (arith, ok.allocated_is);
  there = λ j. elim (Bool-cases (j == i)) [
    | inl same ↦
        let j_i : j ≡ i = ground arith in
        rw (same, j_i) (ground (arith, ok.there i, was, ==_refl i))
    | inr other ↦ rw other (ground (arith, ok.there j, other))
  ];
  few = omega (arith, recount n s cores (i ∷ rest) ok i outside lt, was, ok.few);
  fits = λ j. elim (Bool-cases (j == i)) [
    | inl same ↦ rw same (omega arith)
    | inr other ↦ rw other (
        Fits-next s (place (i ∷ rest) j) (place rest j) (cores j) ok.bound
          (λ has. ground (arith, other)) (ok.fits j))
  ];
}

pub left :
    (n : ℕ) (s : Spinlock) (cores : ℕ → Core) (q : List ℕ) (i current : ℕ)
    → IsQueue n s cores q
    → i < n
    → cores i ≡ leaving current
    → (rest : List ℕ) × (q ≡ i ∷ rest)
      × IsQueue n (store_next current s) (put_core i outside cores) rest
left n s cores q i current ok lt e =
    let (first, is_current) = subst (Fits s (place q i)) e (ok.fits i) in
    let has : times i q ≡ 1 = ok.there i ∙ ap active e in
    let (rest, q_is) = place-first q i (omega (arith, has)) first in
    let ok' = subst (IsQueue n s cores) q_is ok in
    (
      rest,
      q_is,
      subst (λ c. IsQueue n (store_next c s) (put_core i outside cores) rest) (sym is_current)
          (left_first n s cores i rest ok' lt (ap active e)),
    )
