-- ===== src/Memory/Phys/Sample.antt =====
-- One node with one range of 16 pages, for tests of src/kernel/mem/phys/phys.c.
use mathlib.Core.Path.{subst}
use ricerca.Common.{
  ℕ, zero, suc, ◌≡◌, refl, none, some, [], ◌==◌, if◌then◌else◌, arith, Bool-cases, inl, inr,
}
use ricerca.Memory.Phys.Slab.{PhysSlab, init}
use ricerca.Memory.Phys.Cover.{none_left, spans, held, IsValid}
use ricerca.Memory.Phys.Nodes.{MemRange, Phys}
use ricerca.Memory.Phys.Ledger.{AreApart, room_at, room_of-if}

abbrev pub fresh : PhysSlab
fresh = init 0x20_0000 0x1_0000

pub fresh-IsValid : IsValid fresh
fresh-IsValid = record {
  fits = λ i. none_left;
  grown = omega arith;
  inside = omega arith;
  paged = refl;
  bound = omega arith;
}

held-empty : (n a : ℕ) → held n (λ i. []) a ≡ 0
unfolding held
held-empty zero a = refl
held-empty (suc n) a = omega (arith, held-empty n a)

abbrev pub range : MemRange
range = record { next_range = 0; rc_word = 0; slab = fresh }

abbrev pub start : Phys
start = record {
  nodes = λ id. record { neighbours = λ i. 0; ranges = 2 };
  nodes_count = 1;
  ranges = λ r. if r == 2 then some range else none;
  info = some (λ page. record { range = 0; size = 0; node_id = 0 });
}

pub start-room : (r a : ℕ) → room_at r start a ≡ (if r == 2 then spans 0x20_0000 0x1_0000 a else 0)
start-room r a = ground (arith, room_of-if (r == 2) range none a, held-empty 64 a)

pub start-AreApart : AreApart (λ r a. room_at r start a)
start-AreApart = record {
  once = λ r a. ground (arith, start-room r a);
  apart = λ r q a ne. elim (Bool-cases (r == q)) [
    | inl same ↦ absurd (ne (ground arith))
    | inr other ↦ ground (arith, start-room r a, start-room q a)
  ];
}

pub start-IsValid : (r : ℕ) (x : MemRange) → start.ranges r ≡ some x → IsValid x.slab
start-IsValid r x e = elim (Bool-cases (r == 2)) [
  | inl same ↦
      let x_is : range ≡ x = ground (arith, e) in subst (λ y. IsValid y.slab) x_is fresh-IsValid
  | inr other ↦ absurd (ground (arith, e))
]
