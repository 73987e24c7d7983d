-- ===== src/Memory/SizeOrder/Bounds.antt =====
-- The size order of a block: the least power of two, from 16 on, that holds it.
use native.Mathlib.Nat.{pow-suc, pow-le-pow_right}
use native.Mathlib.Numerals.{add-one}
use native.Mathlib.Decide.{dec_lt}
use ricerca.Common.{
  ℕ, zero, suc, ◌+◌, ◌-◌, ◌*◌, ◌%◌, ◌^◌, ◌≤◌, ◌<◌, ◌≡◌, inl, inr, refl, ◌==◌, ltb, arith, size_mod,
  Bool-cases,
}
use ricerca.Memory.SizeOrder.{order_loop, size_order, slab_orders}

-- `r` is the order of `size` when the search starts at order `lo` and gives up at `max_order`.
pub record IsOrder (size max_order lo r : ℕ) : Type 0 where
  pub above : lo ≤ r
  pub below : r ≤ max_order
  pub holds : r < max_order → size ≤ 2 ^ r
  pub least : lo < r → 2 ^ (r - 1) < size

pub widen :
    {size max_order lo r : ℕ}
    → 2 ^ lo < size
    → IsOrder size max_order (lo + 1) r
    → IsOrder size max_order lo r
widen {size} {max_order} {lo} {r} big o = record {
  above = omega arith;
  below = o.below;
  holds = o.holds;
  least = λ h. elim (dec_lt (lo + 1) r) [
    | yes p ↦ o.least p
    | no p ↦ let e : r - 1 ≡ lo = omega arith in rw e big
  ];
}

small-IsOrder :
    {size max_order r : ℕ} → size < 16 → IsOrder 16 max_order 4 r → IsOrder size max_order 4 r
small-IsOrder {r} small o = record {
  above = o.above;
  below = o.below;
  holds = λ h. omega (arith, o.holds h);
  least = λ h. absurd (
      omega (
        arith,
        o.least h,
        pow-le-pow_right {n = 2} (omega arith) {i = 4} {j = r - 1} (omega arith),
      ));
}

double : {test : ℕ} (k : ℕ) → k < 63 → test ≡ 2 ^ k → test * 2 % size_mod ≡ 2 ^ (k + 1)
double k h e =
    rw (e, add-one, pow-suc 2 k)
      (omega (arith, pow-le-pow_right {n = 2} (omega arith) {i = k} {j = 62} (omega arith)))

order_loop-IsOrder :
    (fuel size max_order test result : ℕ)
    → result < max_order
    → max_order ≤ 64
    → max_order ≤ fuel + result
    → test ≡ 2 ^ result
    → IsOrder size max_order result (order_loop fuel size max_order test result)
unfolding order_loop
order_loop-IsOrder zero size max_order test result lt cap_ fuel e = absurd (omega arith)
order_loop-IsOrder (suc fuel) size max_order test result lt cap_ enough e =
    elim (Bool-cases (ltb test size)) [
      | inr fits ↦ rw fits (record {
        above = omega arith;
        below = omega arith;
        holds = λ _. ground arith;
        least = λ h. absurd (omega arith);
      })
      | inl more ↦ rw more (elim (Bool-cases (result + 1 == max_order)) [
        | inl last ↦ rw last (record {
          above = omega arith;
          below = omega arith;
          holds = λ h. absurd (omega arith);
          least = λ _. let r : max_order - 1 ≡ result = ground arith in rw r (ground arith);
        })
        | inr next ↦ rw next (
            widen (ground arith) (
              order_loop-IsOrder fuel size max_order (test * 2 % size_mod) (result + 1)
                (ground arith) cap_ (omega arith) (double result (ground arith) e)))
      ])
    ]

-- For a size that fits and at most 64 orders the result is the least order, from 4 on, whose power
-- of two holds the size, and max_order if there is none below it; the loop never needs more rounds.
pub size_order-IsOrder :
    (size max_order : ℕ)
    → 4 < max_order
    → max_order ≤ 64
    → IsOrder size max_order 4 (size_order size max_order)
unfolding size_order
size_order-IsOrder size max_order lo hi = elim (Bool-cases (ltb size 16)) [
  | inl small ↦
      rw (small, order_loop)
        (small-IsOrder (ground arith)
          (order_loop-IsOrder max_order 16 max_order 16 4 lo hi (omega arith) refl))
  | inr big ↦
      rw (big, order_loop)
        (order_loop-IsOrder max_order size max_order 16 4 lo hi (omega arith) refl)
]

IsOrder-slab : {size r : ℕ} → IsOrder size 12 4 r → (size ≤ 2048 → r < 12) × (2048 < size → r ≡ 12)
IsOrder-slab {size} {r} o = (
  λ h. elim (dec_lt r 12) [
    | yes p ↦ p
    | no p ↦
        let e : r ≡ 12 = omega (arith, o.below) in
        absurd (omega (arith, h, rw e at (o.least (omega arith))))
  ],
  λ h. elim (dec_lt r 12) [
    | yes p ↦ absurd (
        omega (
          arith,
          h,
          o.holds p,
          pow-le-pow_right {n = 2} (omega arith) {i = r} {j = 11} (omega arith),
        ))
    | no p ↦ omega (arith, o.below)
  ],
)

-- A block is served from a slab exactly when it has at most 2048 bytes; a larger one, though
-- smaller than a page, goes to the physical allocator.
pub slab_sizes :
    (size : ℕ)
    → (size ≤ 2048 → size_order size slab_orders < slab_orders)
      × (2048 < size → size_order size slab_orders ≡ slab_orders)
slab_sizes size = IsOrder-slab (size_order-IsOrder size 12 (omega arith) (omega arith))
