-- ===== src/Memory/Phys/Alloc.antt =====
-- mem_phys_slab_alloc and mem_phys_slab_free of src/kernel/mem/phys/slab.c keep the account of the
-- addresses that a slab has to give.
use native.Mathlib.Nat.{pow-le-pow_right}
use ricerca.Common.{
  ℕ, zero, suc, ◌+◌, ◌-◌, ◌%◌, ◌^◌, ◌≤◌, ◌<◌, ◌≡◌, Option, none, some, ◌==◌, leb, size_mod, arith,
  inl, inr, Bool-cases, List-cases,
}
use ricerca.Memory.Phys.Slab.{
  PhysSlab, take, extend, alloc, free, get_order, dequeue, orders_count, slab_gran,
}
use ricerca.Memory.Phys.Cover.{
  spans, room, FitsIn, IsValid, enqueue-IsValid, room-enqueue, dequeue-IsValid, room-dequeue,
  split-IsValid, room-split, head-AllFit, page_power,
}
use ricerca.Memory.Phys.Orders.{get_order-IsOrder}

-- Slab s has given the block `block` of an order, and is left as s'.
pub record Given (s : PhysSlab) (order block : ℕ) (s' : PhysSlab) : Type 0 where
  pub small : order < orders_count
  pub valid : IsValid s'
  pub fits : FitsIn order block
  pub account : (p : ℕ) → room s' p + spans block (2 ^ order) p ≡ room s p

pub data Served (s : PhysSlab) (order : ℕ) : Option (ℕ × PhysSlab) → Type 0 where
  unserved : Served s order none
  served : {block : ℕ} {s' : PhysSlab} → Given s order block s' → Served s order (some (block, s'))

take-Served :
    (left i order : ℕ) (s : PhysSlab)
    → slab_gran ≤ order
    → order ≤ i
    → left + i ≤ orders_count
    → IsValid s
    → Served s order (take left i order s)
unfolding take
take-Served zero i order s paged le all ok = unserved
take-Served (suc left) i order s paged le all ok = elim (List-cases (s.free_lists i)) [
  | inl empty ↦
      rw (take, empty) (take-Served left (suc i) order s paged (omega arith) (omega arith) ok)
  | inr (block, rest, full) ↦
      let fit = head-AllFit (rw full at (ok.fits i)) in
      rw (take, full)
        (served (record {
          small = omega arith;
          valid =
              split-IsValid block i order (dequeue i rest s) (omega arith) paged fit
                (dequeue-IsValid i full ok);
          fits = record {
            below =
                omega
                  (arith, fit.below, pow-le-pow_right {n = 2} (omega arith) {i = order} {j = i} le);
            paged = fit.paged;
          };
          account = λ p. omega (
            arith,
            room-split block i order p (dequeue i rest s) (omega arith) paged le fit,
            room-dequeue s i block p rest (omega arith) full,
          );
        }))
]

extend-Served :
    (order : ℕ) (s : PhysSlab)
    → slab_gran ≤ order
    → order < orders_count
    → IsValid s
    → Served s order (extend order s)
unfolding extend
extend-Served order s paged lt ok =
    let small = pow-le-pow_right {n = 2} (omega arith) {i = order} {j = 63} (omega arith) in
    let exact : (s.brk_bytes + 2 ^ order) % size_mod ≡ s.brk_bytes + 2 ^ order =
      omega (arith, ok.grown, ok.inside, small) in
    let base : (s.brk_bytes + s.base) % size_mod ≡ s.base + s.brk_bytes =
      omega (arith, ok.grown, ok.inside) in
    elim (Bool-cases (leb (s.brk_bytes + 2 ^ order) s.length)) [
      | inl more ↦
          rw (exact, base, more)
            (served (record {
              small = omega arith;
              valid = record {
                fits = ok.fits;
                grown = ground arith;
                inside = ok.inside;
                paged = omega (arith, ok.paged, page_power order paged);
                bound = ok.bound;
              };
              fits = record { below = ground (arith, ok.inside); paged = ok.paged };
              account = λ p. ground arith;
            }))
      | inr done ↦ rw (exact, done) unserved
    ]

Served-or :
    {s : PhysSlab} {order : ℕ} {first second : Option (ℕ × PhysSlab)}
    → Served s order first
    → Served s order second
    → Served s order (elim first [ some taken ↦ some taken | none ↦ second ])
Served-or (served g) second = served g
Served-or unserved second = second

-- What an allocation gives is a block whose addresses the slab counted, and counts no longer.
pub alloc-Served : (s : PhysSlab) (size : ℕ) → IsValid s → Served s (get_order size) (alloc size s)
unfolding alloc
alloc-Served s size ok =
    let o = get_order-IsOrder size in
    elim (Bool-cases (get_order size == orders_count)) [
      | inl large ↦ rw large unserved
      | inr fits ↦
          let lt : get_order size < orders_count = ground (arith, o.below) in
          rw fits (
            Served-or
              (take-Served (s.max_freed_order + 1 - get_order size) (get_order size)
                (get_order size) s o.above (omega arith) (omega (arith, ok.bound, lt)) ok)
              (extend-Served (get_order size) s o.above lt ok))
    ]

-- A freed block counts as free, and nothing else changes.
pub room-free :
    (s : PhysSlab) (addr size p : ℕ)
    → get_order size < orders_count
    → room (free addr size s) p ≡ room s p + spans addr (2 ^ get_order size) p
unfolding free
room-free s addr size p lt = room-enqueue s (get_order size) addr p lt

pub free-IsValid :
    (s : PhysSlab) (addr size : ℕ)
    → get_order size < orders_count
    → FitsIn (get_order size) addr
    → IsValid s
    → IsValid (free addr size s)
unfolding free
free-IsValid s addr size lt fit ok = enqueue-IsValid (get_order size) addr lt fit ok
