-- ===== src/Memory/Phys/Walk.antt =====
-- What an allocation of src/kernel/mem/phys/phys.c may do.
use ricerca.Common.{
  ℕ, zero, suc, ◌≡◌, Option, none, some, Outcome, returns, suspended, fault, inl, inr, Option-cases,
}
use ricerca.Memory.Phys.Slab.{PhysSlab, get_order}
use ricerca.Memory.Phys.Cover.{IsValid}
use ricerca.Memory.Phys.Alloc.{Given, Served, served, unserved, alloc-Served}
use ricerca.Memory.Phys.Nodes.{
  MemRange, Phys, put_range, store_info, walk, alloc_specific, over_neighbours,
}

-- What an allocation does: nothing, or one range's slab gives a block, which is stored.
pub data Walked (p : Phys) (size : ℕ) : Outcome Phys (Option ℕ) → Type 0 where
  going_on : {q : Phys} → Walked p size (suspended q)
  lost : Walked p size fault
  empty : Walked p size (returns none p)
  found :
      {addr : ℕ} {slab : PhysSlab} (id r : ℕ) (x : MemRange)
      → p.ranges r ≡ some x
      → Given x.slab (get_order size) addr slab
      → Walked p size (
          returns (some addr) (
            store_info addr size r
              (record x { slab = slab })
              id
              (put_range r (record x { slab = slab }) p)))

pick-Walked :
    {p : Phys} {size : ℕ} {o : Option (ℕ × PhysSlab)} {next : Outcome Phys (Option ℕ)} (id r : ℕ)
    (x : MemRange)
    → p.ranges r ≡ some x
    → Served x.slab (get_order size) o
    → Walked p size next
    → Walked p size (elim o [
      | some (result, slab) ↦ returns (some result) (
          store_info result size r
            (record x { slab = slab })
            id
            (put_range r (record x { slab = slab }) p))
      | none ↦ next
    ])
pick-Walked id r x e (served g) w = found id r x e g
pick-Walked id r x e unserved w = w

walk-Walked :
    (fuel size id r : ℕ) (p : Phys)
    → ((r : ℕ) (x : MemRange) → p.ranges r ≡ some x → IsValid x.slab)
    → Walked p size (walk fuel size id r p)
unfolding walk
walk-Walked zero size id r p ok = going_on
walk-Walked (suc fuel) size id zero p ok = empty
walk-Walked (suc fuel) size id (suc r) p ok = elim (Option-cases (p.ranges (suc r))) [
  | inl wild ↦ rw (walk, wild) lost
  | inr (x, e) ↦
      rw (walk, e)
        (pick-Walked id (suc r) x e (alloc-Served x.slab size (ok (suc r) x e))
          (walk-Walked fuel size id x.next_range p ok))
]

then-Walked :
    {p : Phys} {size : ℕ} {o : Outcome Phys (Option ℕ)} (next : Phys → Outcome Phys (Option ℕ))
    → Walked p size o
    → Walked p size (next p)
    → Walked p size (elim o [
      | returns (some result) p' ↦ returns (some result) p'
      | returns none p' ↦ next p'
      | suspended p' ↦ suspended p'
      | fault ↦ fault
    ])
then-Walked next going_on w = going_on
then-Walked next lost w = lost
then-Walked next empty w = w
then-Walked next (found id r x e g) w = found id r x e g

pub over-Walked :
    (fuel size : ℕ) (neighbours : ℕ → ℕ) (left i : ℕ) (p : Phys)
    → ((r : ℕ) (x : MemRange) → p.ranges r ≡ some x → IsValid x.slab)
    → Walked p size (over_neighbours fuel size neighbours left i p)
unfolding over_neighbours alloc_specific
over-Walked fuel size neighbours zero i p ok = empty
over-Walked fuel size neighbours (suc left) i p ok =
    then-Walked (over_neighbours fuel size neighbours left (suc i))
      (walk-Walked fuel size (neighbours i) (p.nodes (neighbours i)).ranges p ok)
      (over-Walked fuel size neighbours left (suc i) p ok)
