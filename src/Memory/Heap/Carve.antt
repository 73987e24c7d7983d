-- ===== src/Memory/Heap/Carve.antt =====
-- The pieces into which src/kernel/mem/heap/heap.c cuts a chunk and a slab: they lie side by side, each
-- at a multiple of its size.
use mathlib.Core.Path.{subst}
use ricerca.Common.{
  ℕ, zero, suc, ◌+◌, ◌-◌, ◌*◌, ◌/◌, ◌%◌, ◌^◌, ◌≤◌, ◌<◌, ◌≡◌, ◌⊎◌, refl, sym, true, false, List, [],
  ◌∷◌, ltb, size_mod, arith, inl, inr, Bool-cases,
}
use ricerca.Memory.Dynarray.{align_up, align_down}
use ricerca.Memory.Phys.Cover.{spans, blocks, spans-join, pow-pos}
use ricerca.Memory.Heap.Defs.{carve, slab_size, chunk_size, hdr_size}

-- k pieces, where there are rounds for them, cover what lies between the bounds.
pub carve-blocks :
    (left k order addr end : ℕ) (list : List ℕ) (p : ℕ)
    → k ≤ left
    → addr + k * 2 ^ order ≡ end
    → blocks order (carve left addr end (2 ^ order) list) p
      ≡ blocks order list p + spans addr (k * 2 ^ order) p
unfolding carve
carve-blocks zero k order addr end list p few e =
    let none_left : k ≡ 0 = omega arith in rw none_left (ground arith)
carve-blocks (suc left) zero order addr end list p few e =
    let stop : ltb addr end ≡ false = ground arith in rw stop (ground arith)
carve-blocks (suc left) (suc k) order addr end list p few e =
    let step : suc k * 2 ^ order ≡ 2 ^ order + k * 2 ^ order = omega arith in
    let more : ltb addr end ≡ true = ground (arith, pow-pos order, step) in
    rw (more, step)
      (omega (
        arith,
        carve-blocks left k order (addr + 2 ^ order) end (addr ∷ list) p (omega arith)
            (omega (arith, step)),
        spans-join addr (2 ^ order) (k * 2 ^ order) p,
      ))

-- Every piece has a property that the first one has and each step keeps.
pub data AllPieces (P : ℕ → Type 0) : List ℕ → Type 0 where
  no_piece : AllPieces P []
  piece : {a : ℕ} {list : List ℕ} → P a → AllPieces P list → AllPieces P (a ∷ list)

pub carve-AllPieces :
    (P Q : ℕ → Type 0) (left addr end step : ℕ) (list : List ℕ)
    → P addr
    → ((a : ℕ) → P a → P (a + step))
    → ((a : ℕ) → P a → a < end → Q a)
    → AllPieces Q list
    → AllPieces Q (carve left addr end step list)
unfolding carve
carve-AllPieces P Q zero addr end step list here keeps gives old = old
carve-AllPieces P Q (suc left) addr end step list here keeps gives old =
    elim (Bool-cases (ltb addr end)) [
      | inl more ↦ rw more (
          carve-AllPieces P Q left (addr + step) end step (addr ∷ list) (keeps addr here) keeps
            gives (piece (gives addr here (ground arith)) old))
      | inr done ↦ rw done old
    ]

-- The orders of the objects in slabs.
orders :
    (order : ℕ)
    → 4 ≤ order
    → order < 12
    → ((order ≡ 4) ⊎ (order ≡ 5) ⊎ (order ≡ 6) ⊎ (order ≡ 7))
      ⊎ ((order ≡ 8) ⊎ (order ≡ 9) ⊎ (order ≡ 10) ⊎ (order ≡ 11))
orders order lo hi = ground arith

pub by_order :
    (P : ℕ → Type 0)
    → P 4
    → P 5
    → P 6
    → P 7
    → P 8
    → P 9
    → P 10
    → P 11
    → (order : ℕ) → 4 ≤ order
    → order < 12
    → P order
by_order P a b c d e f g h order lo hi = elim (orders order lo hi) [
  | inl (inl is) ↦ subst P (sym is) a
  | inl (inr (inl is)) ↦ subst P (sym is) b
  | inl (inr (inr (inl is))) ↦ subst P (sym is) c
  | inl (inr (inr (inr is))) ↦ subst P (sym is) d
  | inr (inl is) ↦ subst P (sym is) e
  | inr (inr (inl is)) ↦ subst P (sym is) f
  | inr (inr (inr (inl is))) ↦ subst P (sym is) g
  | inr (inr (inr (inr is))) ↦ subst P (sym is) h
]

-- The first object of a slab starts one object behind the slab's start.
pub first_object :
    (slab order : ℕ)
    → slab % slab_size ≡ 0
    → slab + slab_size ≤ size_mod
    → 4 ≤ order
    → order < 12
    → align_up (slab + hdr_size) (2 ^ order) ≡ slab + 2 ^ order
unfolding align_up align_down
first_object slab order al fit lo hi =
    by_order (λ o. align_up (slab + hdr_size) (2 ^ o) ≡ slab + 2 ^ o) (omega arith) (omega arith)
      (omega arith) (omega arith) (omega arith) (omega arith) (omega arith) (omega arith) order lo
      hi

-- A slab is a whole number of objects, at least two.
pub whole_slab :
    (order : ℕ)
    → 4 ≤ order
    → order < 12
    → (2 ^ order + (slab_size / 2 ^ order - 1) * 2 ^ order ≡ slab_size) × (2 ^ order < slab_size)
whole_slab =
    by_order (λ o. (2 ^ o + (slab_size / 2 ^ o - 1) * 2 ^ o ≡ slab_size) × (2 ^ o < slab_size))
      (refl, omega arith) (refl, omega arith) (refl, omega arith) (refl, omega arith)
      (refl, omega arith) (refl, omega arith) (refl, omega arith) (refl, omega arith)

-- The slabs of a chunk: 63 or 64 of them, at multiples of their size inside the chunk.
pub record IsCut (backing begin end k : ℕ) : Type 0 where
  pub starts : backing ≤ begin
  pub multiple : begin % slab_size ≡ 0
  pub pieces : begin + k * slab_size ≡ end
  pub stops : end ≤ backing + chunk_size
  pub least : 63 ≤ k
  pub most : k ≤ 64

pub chunk-IsCut :
    (backing : ℕ)
    → backing + chunk_size < size_mod
    → (k : ℕ) × IsCut backing
        (align_up backing slab_size)
        (align_down (backing + chunk_size) slab_size)
        k
unfolding align_up align_down
chunk-IsCut backing fit = (
  (backing + chunk_size) / slab_size - (backing + slab_size - 1) / slab_size,
  record {
    starts = omega arith;
    multiple = omega arith;
    pieces = omega arith;
    stops = omega arith;
    least = omega arith;
    most = omega arith;
  },
)
