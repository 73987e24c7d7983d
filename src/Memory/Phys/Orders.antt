-- ===== src/Memory/Phys/Orders.antt =====
-- mem_phys_slab_get_order of src/kernel/mem/phys/slab.c: the order of a size.
use native.Mathlib.Nat.{pow-suc, pow-le-pow_right}
use native.Mathlib.Numerals.{add-one}
use native.Mathlib.Decide.{dec_lt}
use ricerca.Common.{
  ℕ, zero, suc, ◌+◌, ◌*◌, ◌%◌, ◌^◌, ◌≤◌, ◌<◌, ◌≡◌, refl, ◌∙◌, leb, size_mod, arith, inl, inr,
  Bool-cases,
}
use ricerca.Memory.SizeOrder.Bounds.{IsOrder, widen}
use ricerca.Memory.Phys.Slab.{order_loop, get_order, orders_count, slab_gran}

exact : (order : ℕ) → order < 64 → 2 ^ order % size_mod ≡ 2 ^ order
exact order h =
    omega (arith, pow-le-pow_right {n = 2} (omega arith) {i = order} {j = 63} (omega arith))

double :
    (current order : ℕ) → current ≡ 2 ^ order → current * 2 % size_mod ≡ 2 ^ (order + 1) % size_mod
double current order e = rw (e, add-one, pow-suc 2 order) refl

order_loop-IsOrder :
    (left size current order : ℕ)
    → left + order ≡ orders_count
    → current ≡ 2 ^ order % size_mod
    → IsOrder size orders_count order (order_loop left size current order)
unfolding order_loop
order_loop-IsOrder zero size current order all e = record {
  above = omega arith;
  below = omega arith;
  holds = λ h. absurd (omega arith);
  least = λ h. absurd (omega arith);
}
order_loop-IsOrder (suc left) size current order all e =
    let same : current ≡ 2 ^ order = e ∙ exact order (omega arith) in
    elim (Bool-cases (leb size current)) [
      | inl fits ↦ rw fits (record {
        above = omega arith;
        below = omega arith;
        holds = λ _. ground (arith, same);
        least = λ h. absurd (omega arith);
      })
      | inr more ↦ rw more (
          widen (ground (arith, same)) (
            order_loop-IsOrder left size (current * 2 % size_mod) (order + 1) (omega arith)
              (double current order same)))
    ]

-- The result is the least order, from that of a page on, whose power of two holds the size, and 64
-- if there is none below it.
pub get_order-IsOrder : (size : ℕ) → IsOrder size orders_count slab_gran (get_order size)
unfolding get_order
get_order-IsOrder size = order_loop-IsOrder 52 size 4096 12 refl refl

-- A size of up to 2 ^ 63 bytes has an order.
pub get_order-lt : (size : ℕ) → size ≤ 2 ^ 63 → get_order size < orders_count
get_order-lt size h =
    let o = get_order-IsOrder size in
    elim (dec_lt (get_order size) orders_count) [
      | yes p ↦ p
      | no p ↦
          let e : get_order size ≡ 64 = omega (arith, o.below) in
          absurd (omega (arith, h, rw e at (o.least (omega arith))))
    ]
