-- ===== src/Memory/Heap/Slabs.antt =====
-- What a slab of src/kernel/mem/heap/heap.c is cut into, and the account of a node's free memory.
use ricerca.Common.{
  ℕ, ◌+◌, ◌-◌, ◌*◌, ◌/◌, ◌%◌, ◌^◌, ◌≤◌, ◌<◌, ◌≡◌, refl, ap, List, ◌∷◌, ==_refl, size_mod, arith,
  inl, inr, List-cases,
}
use ricerca.Memory.Dynarray.{align_up, align_down}
use ricerca.Memory.SizeOrder.{slab_orders}
use ricerca.Memory.Phys.Cover.{spans, blocks, held, spans-join}
use ricerca.Memory.Heap.Defs.{SlabData, carve, slab_size, hdr_size, set_owner}
use ricerca.Memory.Heap.Carve.{
  by_order, first_object, whole_slab, carve-blocks, carve-AllPieces, AllPieces,
}

-- An object lies behind the header of its slab and inside it, at a multiple of its size, and the
-- header names the node.
pub record IsObject (owner : ℕ → ℕ) (id order a : ℕ) : Type 0 where
  pub aligned : a % 2 ^ order ≡ 0
  pub behind : align_down a slab_size + hdr_size ≤ a
  pub inside : a + 2 ^ order ≤ align_down a slab_size + slab_size
  pub owned : owner (align_down a slab_size) ≡ id

pub record IsSlab (a : ℕ) : Type 0 where
  pub multiple : a % slab_size ≡ 0
  pub below : a + slab_size ≤ size_mod

pub record IsSound (owner : ℕ → ℕ) (id : ℕ) (d : SlabData) : Type 0 where
  pub objects :
      (order : ℕ)
      → 4 ≤ order
      → order < slab_orders
      → AllPieces (IsObject owner id order) (d.free_lists order)
  pub unused : AllPieces IsSlab d.slabs

-- How often the free objects and slabs of a node cover an address.
abbrev pub data_room : SlabData → ℕ → ℕ
data_room d p = held slab_orders d.free_lists p + blocks 16 d.slabs p

-- What an object of a slab is known by while the slab is cut.
IsStart : (slab order a : ℕ) → Type 0
IsStart slab order a = (a % 2 ^ order ≡ 0) × (slab + hdr_size ≤ a)

step-IsStart :
    (slab order : ℕ)
    → 4 ≤ order
    → order < 12
    → (a : ℕ) → IsStart slab order a
    → IsStart slab order (a + 2 ^ order)
unfolding IsStart
step-IsStart slab =
    by_order (λ o. (a : ℕ) → IsStart slab o a → IsStart slab o (a + 2 ^ o))
      (λ a h. (omega (arith, h.0), omega (arith, h.1)))
      (λ a h. (omega (arith, h.0), omega (arith, h.1)))
      (λ a h. (omega (arith, h.0), omega (arith, h.1)))
      (λ a h. (omega (arith, h.0), omega (arith, h.1)))
      (λ a h. (omega (arith, h.0), omega (arith, h.1)))
      (λ a h. (omega (arith, h.0), omega (arith, h.1)))
      (λ a h. (omega (arith, h.0), omega (arith, h.1)))
      (λ a h. (omega (arith, h.0), omega (arith, h.1)))

-- An object's slab is found from its address, and has room for the whole object.
home_slab :
    (slab a : ℕ)
    → IsSlab slab
    → slab + hdr_size ≤ a
    → a < slab + slab_size
    → align_down a slab_size ≡ slab
unfolding align_down
home_slab slab a ok lo hi = omega (arith, ok.multiple, ok.below)

end_of :
    (slab : ℕ)
    → slab % slab_size ≡ 0
    → (order : ℕ) → 4 ≤ order
    → order < 12
    → (a : ℕ) → a % 2 ^ order ≡ 0
    → a < slab + slab_size
    → a + 2 ^ order ≤ slab + slab_size
end_of slab al =
    by_order (λ o. (a : ℕ) → a % 2 ^ o ≡ 0 → a < slab + slab_size → a + 2 ^ o ≤ slab + slab_size)
      (λ a h lt. omega arith) (λ a h lt. omega arith) (λ a h lt. omega arith)
      (λ a h lt. omega arith) (λ a h lt. omega arith) (λ a h lt. omega arith)
      (λ a h lt. omega arith) (λ a h lt. omega arith)

first-IsStart :
    (slab : ℕ)
    → slab % slab_size ≡ 0
    → (order : ℕ) → 4 ≤ order
    → order < 12
    → IsStart slab order (slab + 2 ^ order)
unfolding IsStart
first-IsStart slab al =
    by_order (λ o. IsStart slab o (slab + 2 ^ o)) (omega arith, omega arith)
      (omega arith, omega arith) (omega arith, omega arith) (omega arith, omega arith)
      (omega arith, omega arith) (omega arith, omega arith) (omega arith, omega arith)
      (omega arith, omega arith)

-- mem_heap_add_slab at the data of a node: the free list of the order that it leaves.
abbrev pub cut : (order slab : ℕ) → List ℕ → List ℕ
cut order slab list =
    carve (slab_size / 2 ^ order) (align_up (slab + hdr_size) (2 ^ order)) (slab + slab_size)
      (2 ^ order) list

-- The objects of a slab cover all of it but its first 2 ^ order bytes, which have the header.
pub cut-blocks :
    (order slab : ℕ) (list : List ℕ) (p : ℕ)
    → 4 ≤ order
    → order < slab_orders
    → IsSlab slab
    → blocks order (cut order slab list) p + spans slab (2 ^ order) p
      ≡ blocks order list p + spans slab slab_size p
cut-blocks order slab list p lo hi ok =
    let whole = (whole_slab order lo hi).0 in
    rw (first_object slab order ok.multiple ok.below lo hi) (
      omega (
        arith,
        carve-blocks (slab_size / 2 ^ order) (slab_size / 2 ^ order - 1) order (slab + 2 ^ order)
            (slab + slab_size) list p (omega arith) (omega (arith, whole)),
        spans-join slab (2 ^ order) ((slab_size / 2 ^ order - 1) * 2 ^ order) p,
        ap (λ n. spans slab n p) whole,
      ))

-- Every object of a slab is one of the node that the slab is given to.
pub cut-objects :
    (owner : ℕ → ℕ) (id order slab : ℕ) (list : List ℕ)
    → 4 ≤ order
    → order < slab_orders
    → IsSlab slab
    → AllPieces (IsObject (set_owner slab id owner) id order) list
    → AllPieces (IsObject (set_owner slab id owner) id order) (cut order slab list)
unfolding IsStart
cut-objects owner id order slab list lo hi ok old =
    rw (first_object slab order ok.multiple ok.below lo hi) (
      carve-AllPieces (IsStart slab order) (IsObject (set_owner slab id owner) id order)
        (slab_size / 2 ^ order) (slab + 2 ^ order) (slab + slab_size) (2 ^ order) list
        (first-IsStart slab ok.multiple order lo hi) (step-IsStart slab order lo hi)
        (λ a is lt.
          let home = home_slab slab a ok is.1 lt in
          record {
            aligned = is.0;
            behind = omega (arith, home, is.1);
            inside = omega (arith, home, end_of slab ok.multiple order lo hi a is.0 lt);
            owned = rw (home, ==_refl slab) refl;
          })
        old)

-- The slab's own objects come first, and there is one.
pub cut-first :
    (order slab : ℕ) (list : List ℕ)
    → 4 ≤ order
    → order < slab_orders
    → IsSlab slab
    → (obj : ℕ) × (rest : List ℕ) × (cut order slab list ≡ obj ∷ rest)
cut-first order slab list lo hi ok =
    let p = slab + 2 ^ order in
    let less = (whole_slab order lo hi).1 in
    elim (List-cases (cut order slab list)) [
      | inl none_there ↦ absurd (
          ground
            (arith, cut-blocks order slab list p lo hi ok, ap (λ xs. blocks order xs p) none_there))
      | inr there_is ↦ there_is
    ]
