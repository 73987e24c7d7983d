-- ===== src/Memory/Phys/Cover.antt =====
-- Which addresses a slab of src/kernel/mem/phys/slab.c still has to give, each counted as often as
-- a free block or the rest of the region covers it: the operations keep that account.
use native.Mathlib.Nat.{pow-suc, pow-le-pow_right}
use native.Mathlib.Decide.{dec_lt}
use ricerca.Common.{
  ℕ, zero, suc, ◌+◌, ◌-◌, ◌%◌, ◌^◌, ◌≤◌, ◌<◌, ◌≡◌, refl, ap, ◌&&◌, List, [], ◌∷◌, ◌==◌, ltb, leb,
  if◌then◌else◌, size_mod, arith, inl, inr, Bool-cases,
}
use ricerca.Memory.Phys.Slab.{
  PhysSlab, put, enqueue, dequeue, split_until_target, rescan, is_empty, orders_count, slab_gran,
  page_size,
}

-- 1 for an address in the range, 0 for any other.
abbrev pub spans : (base length : ℕ) → ℕ → ℕ
spans base length p = if leb base p && ltb p (base + length) then 1 else 0

-- How many of the blocks cover an address.
abbrev pub blocks : (order : ℕ) → List ℕ → ℕ → ℕ
blocks order [] p = 0
blocks order (b ∷ bs) p = spans b (2 ^ order) p + blocks order bs p

-- The same for the free lists of the orders below `n`.
unfoldable pub held : (n : ℕ) → (ℕ → List ℕ) → ℕ → ℕ
held zero lists p = 0
held (suc n) lists p = held n lists p + blocks n (lists n) p

-- The same for a slab.
abbrev pub room : PhysSlab → ℕ → ℕ
room s p =
    held orders_count s.free_lists p + spans (s.base + s.brk_bytes) (s.length - s.brk_bytes) p

pub spans-join : (b m n p : ℕ) → spans b m p + spans (b + m) n p ≡ spans b (m + n) p
spans-join b m n p = ground arith

held-put_above :
    (n order : ℕ) (xs : List ℕ) (lists : ℕ → List ℕ) (p : ℕ)
    → n ≤ order
    → held n (put order xs lists) p ≡ held n lists p
unfolding held
held-put_above zero order xs lists p h = refl
held-put_above (suc n) order xs lists p h =
    ground (arith, held-put_above n order xs lists p (omega arith))

-- What a write to one free list changes.
pub held-put :
    (n order : ℕ) (xs : List ℕ) (lists : ℕ → List ℕ) (p : ℕ)
    → order < n
    → held n (put order xs lists) p + blocks order (lists order) p
      ≡ held n lists p + blocks order xs p
unfolding held
held-put zero order xs lists p h = absurd (omega arith)
held-put (suc n) order xs lists p h = elim (dec_lt order n) [
  | yes lt ↦ ground (arith, held-put n order xs lists p lt)
  | no ge ↦
      let e : order ≡ n = omega arith in
      rw e (ground (arith, held-put_above n n xs lists p (omega arith)))
]

pub pow-pos : (n : ℕ) → 1 ≤ 2 ^ n
pow-pos n = omega (arith, pow-le-pow_right {n = 2} (omega arith) {i = 0} {j = n} (omega arith))

pow-double : (n : ℕ) → 2 ^ suc n ≡ 2 ^ n + 2 ^ n
pow-double n = omega (arith, pow-suc 2 n)

-- The pages of a block of an order above a page's.
pub page_power : (order : ℕ) → slab_gran ≤ order → 2 ^ order % page_size ≡ 0
page_power zero h = absurd (omega arith)
page_power (suc order) h = elim (dec_lt order slab_gran) [
  | yes last ↦ let e : suc order ≡ 12 = omega arith in rw e refl
  | no more ↦ omega (arith, page_power order (omega arith), pow-double order)
]

-- A block of pages that ends below the end of the address space.
pub record FitsIn (order block : ℕ) : Type 0 where
  pub below : block + 2 ^ order ≤ size_mod
  pub paged : block % page_size ≡ 0

pub data AllFit (order : ℕ) : List ℕ → Type 0 where
  none_left : AllFit order []
  one_more : {b : ℕ} {bs : List ℕ} → FitsIn order b → AllFit order bs → AllFit order (b ∷ bs)

-- A region of pages in the lower half of the address space, and a slab of it.
pub record IsValid (s : PhysSlab) : Type 0 where
  pub fits : (order : ℕ) → AllFit order (s.free_lists order)
  pub grown : s.brk_bytes ≤ s.length
  pub inside : s.base + s.length < 2 ^ 63
  pub paged : (s.base + s.brk_bytes) % page_size ≡ 0
  pub bound : s.max_freed_order < orders_count

AllFit-put :
    (order i : ℕ) (xs : List ℕ) (lists : ℕ → List ℕ)
    → AllFit order xs
    → ((o : ℕ) → AllFit o (lists o))
    → AllFit i (put order xs lists i)
AllFit-put order i xs lists a all = elim (Bool-cases (i == order)) [
  | inl same ↦ let e : i ≡ order = ground arith in rw (same, e) a
  | inr other ↦ rw other (all i)
]

pub enqueue-IsValid :
    {s : PhysSlab} (order block : ℕ)
    → order < orders_count
    → FitsIn order block
    → IsValid s
    → IsValid (enqueue order block s)
unfolding enqueue
enqueue-IsValid {s} order block lt fit ok = record {
  fits = λ i.
      AllFit-put order i (block ∷ s.free_lists order) s.free_lists (one_more fit (ok.fits order))
        ok.fits;
  grown = ok.grown;
  inside = ok.inside;
  paged = ok.paged;
  bound = ground (arith, ok.bound);
}

-- A freed block counts as free.
pub room-enqueue :
    (s : PhysSlab) (order block p : ℕ)
    → order < orders_count
    → room (enqueue order block s) p ≡ room s p + spans block (2 ^ order) p
unfolding enqueue
room-enqueue s order block p lt =
    omega (arith, held-put orders_count order (block ∷ s.free_lists order) s.free_lists p lt)

rescan-lt :
    (i : ℕ) (lists : ℕ → List ℕ) (max : ℕ)
    → i ≤ orders_count
    → max < orders_count
    → rescan i lists max < orders_count
unfolding rescan
rescan-lt zero lists max hi hm = hm
rescan-lt (suc i) lists max hi hm =
    rescan-lt i lists (if is_empty (lists i) then max else i) (omega arith) (ground arith)

tail-AllFit : {order b : ℕ} {bs : List ℕ} → AllFit order (b ∷ bs) → AllFit order bs
tail-AllFit (one_more f a) = a

pub head-AllFit : {order b : ℕ} {bs : List ℕ} → AllFit order (b ∷ bs) → FitsIn order b
head-AllFit (one_more f a) = f

pub dequeue-IsValid :
    {s : PhysSlab} {block : ℕ} {rest : List ℕ} (order : ℕ)
    → s.free_lists order ≡ block ∷ rest
    → IsValid s
    → IsValid (dequeue order rest s)
unfolding dequeue
dequeue-IsValid {s} {block} {rest} order e ok = record {
  fits = λ i. AllFit-put order i rest s.free_lists (tail-AllFit (rw e at (ok.fits order))) ok.fits;
  grown = ok.grown;
  inside = ok.inside;
  paged = ok.paged;
  bound = ground (
    arith,
    ok.bound,
    rescan-lt (s.max_freed_order - 1) (put order rest s.free_lists) 0 (omega (arith, ok.bound))
        (omega arith),
  );
}

pub room-dequeue :
    (s : PhysSlab) (order block p : ℕ) (rest : List ℕ)
    → order < orders_count
    → s.free_lists order ≡ block ∷ rest
    → room (dequeue order rest s) p + spans block (2 ^ order) p ≡ room s p
unfolding dequeue
room-dequeue s order block p rest lt e =
    omega (arith, rw e at (held-put orders_count order rest s.free_lists p lt))

-- The halves of a block fit where it does, and the upper one starts without wrapping around.
halves :
    (base order : ℕ)
    → slab_gran ≤ order
    → FitsIn (suc order) base
    → FitsIn order base
      × FitsIn order (base + 2 ^ order)
      × ((base + 2 ^ order) % size_mod ≡ base + 2 ^ order)
halves base order paged fit = (
  record { below = omega (arith, fit.below, pow-double order); paged = fit.paged },
  record {
    below = omega (arith, fit.below, pow-double order);
    paged = omega (arith, fit.paged, page_power order paged);
  },
  omega (arith, fit.below, pow-double order, pow-pos order),
)

pub split-IsValid :
    (base order target : ℕ) (s : PhysSlab)
    → order ≤ orders_count
    → slab_gran ≤ target
    → FitsIn order base
    → IsValid s
    → IsValid (split_until_target base order target s)
unfolding split_until_target
split-IsValid base zero target s lt paged fit ok = ok
split-IsValid base (suc order) target s lt paged fit ok =
    elim (Bool-cases (ltb target (suc order))) [
      | inl more ↦
          let (low, high, exact) = halves base order (ground arith) fit in
          rw (more, exact)
            (split-IsValid base order target (enqueue order (base + 2 ^ order) s) (omega arith)
              paged low (enqueue-IsValid order (base + 2 ^ order) (omega arith) high ok))
      | inr done ↦ rw done ok
    ]

-- The parts that a block is split off count as free, but for the one that is handed out.
pub room-split :
    (base order target p : ℕ) (s : PhysSlab)
    → order ≤ orders_count
    → slab_gran ≤ target
    → target ≤ order
    → FitsIn order base
    → room (split_until_target base order target s) p + spans base (2 ^ target) p
      ≡ room s p + spans base (2 ^ order) p
unfolding split_until_target
room-split base zero target p s lt paged le fit = let e : target ≡ 0 = omega arith in rw e refl
room-split base (suc order) target p s lt paged le fit =
    elim (Bool-cases (ltb target (suc order))) [
      | inl more ↦
          let (low, high, exact) = halves base order (ground arith) fit in
          rw (more, exact)
            (omega (
              arith,
              room-split base order target p (enqueue order (base + 2 ^ order) s) (omega arith)
                  paged (ground arith) low,
              room-enqueue s order (base + 2 ^ order) p (omega arith),
              spans-join base (2 ^ order) (2 ^ order) p,
              ap (λ n. spans base n p) (pow-double order),
            ))
      | inr done ↦ rw done (let e : target ≡ suc order = ground arith in rw e refl)
    ]
