-- ===== src/Memory/Phys/Fresh.antt =====
-- What an allocation of src/kernel/mem/phys/phys.c gives once its table is set up: a block that no
-- other block meets.
use mathlib.Core.Path.{subst}
use ricerca.Common.{
  ℕ, ◌/◌, ◌%◌, ◌^◌, ◌≤◌, ◌<◌, ◌≡◌, refl, sym, Option, none, some, List, ◌∷◌, ==_refl, Outcome,
  returns, suspended, fault, arith, inl, inr,
}
use ricerca.Memory.Phys.Slab.{page_size, get_order}
use ricerca.Memory.Phys.Cover.{pow-pos}
use ricerca.Memory.Phys.Nodes.{MemRange, ObjectData, Phys, put_range, write_info, alloc_on_behalf}
use ricerca.Memory.Phys.Ledger.{AllKept, AreApart, Block, IsSound, Kept, block, covers, total}
use ricerca.Memory.Phys.Walk.{Walked, going_on, lost, empty, found, over-Walked}
use ricerca.Memory.Phys.Enter.{enter-IsSound, store_info-cases}
use ricerca.Memory.Phys.System.{total-once}

-- The ledger is sound, and the table is there.
pub record IsReady (area : ℕ → ℕ → ℕ) (p : Phys) (bs : List Block) : Type 0 where
  pub sound : IsSound area p bs
  pub info : ℕ → ObjectData
  pub info_is : p.info ≡ some info

pub data Allocated (area : ℕ → ℕ → ℕ) (bs : List Block) (size : ℕ)
    : Outcome Phys (Option ℕ) → Type 0 where
  gives :
      {q : Phys} (b : Block)
      → b.size ≡ size
      → IsReady area q (b ∷ bs)
      → Allocated area bs size (returns (some b.addr) q)
  gives_none : {q : Phys} → IsReady area q bs → Allocated area bs size (returns none q)
  goes_on : {q : Phys} → Allocated area bs size (suspended q)
  breaks : Allocated area bs size fault

Walked-Allocated :
    {area : ℕ → ℕ → ℕ} {bs : List Block} {size : ℕ} {p : Phys} {o : Outcome Phys (Option ℕ)}
    → AreApart area
    → IsReady area p bs
    → Walked p size o
    → Allocated area bs size o
Walked-Allocated far ok going_on = goes_on
Walked-Allocated far ok lost = breaks
Walked-Allocated far ok empty = gives_none ok
Walked-Allocated {area} {bs} {size} {p} far ok (found {addr = addr} {slab = slab} id r x e g) =
    let y : MemRange = record x { slab = slab } in
    elim (store_info-cases addr size r id y (put_range r y p)) [
      | inl (unset, same) ↦ absurd (ground (arith, unset, ok.info_is))
      | inr (info, set, same) ↦
          subst (λ q. Allocated area bs size (returns (some addr) q)) (sym same)
            (gives (record { range = r; addr = addr; size = size }) refl
              (record {
                sound = enter-IsSound size r id x far ok.sound set e g;
                info =
                    write_info (addr / page_size) (record { range = r; size = size; node_id = id })
                      info;
                info_is = refl;
              }))
    ]

pub alloc_on_behalf-Allocated :
    {area : ℕ → ℕ → ℕ} {bs : List Block} (fuel size id : ℕ) (p : Phys)
    → AreApart area
    → IsReady area p bs
    → Allocated area bs size (alloc_on_behalf fuel size id p)
unfolding alloc_on_behalf
alloc_on_behalf-Allocated fuel size id p far ok =
    Walked-Allocated far ok
      (over-Walked fuel size (p.nodes id).neighbours p.nodes_count 0 p ok.sound.valid)

-- The memory that the ranges have to give is in the lower half, and not at 0.
abbrev pub IsRam : (area : ℕ → ℕ → ℕ) → Type 0
IsRam area = (r a : ℕ) → 1 ≤ area r a → (1 ≤ a) × (a < 2 ^ 63)

-- A new block starts at a page of that memory, and meets no other block.
pub record IsFresh (bs : List Block) (addr : ℕ) : Type 0 where
  pub nonzero : 1 ≤ addr
  pub physical : addr < 2 ^ 63
  pub paged : addr % 4096 ≡ 0
  pub apart : total bs addr ≡ 0

pub own-covers : (b : Block) → covers b b.addr ≡ 1
own-covers b = ground (arith, pow-pos (get_order b.size))

first-Kept : {p : Phys} {b : Block} {bs : List Block} → AllKept p (b ∷ bs) → Kept p b
first-Kept (block k rest) = k

pub IsReady-IsFresh :
    {area : ℕ → ℕ → ℕ} {p : Phys} (b : Block) (bs : List Block)
    → AreApart area
    → IsRam area
    → IsReady area p (b ∷ bs)
    → IsFresh bs b.addr
IsReady-IsFresh {area} b bs far ram ok =
    let within : 1 ≤ area b.range b.addr =
      ground (arith, ok.sound.account b.range b.addr, own-covers b, ==_refl b.range) in
    let (pos, low) = ram b.range b.addr within in
    let one = total-once area (b ∷ bs) b.addr far (λ r. omega (arith, ok.sound.account r b.addr)) in
    record {
      nonzero = pos;
      physical = low;
      paged = (first-Kept ok.sound.kept).fits.paged;
      apart = omega (arith, one, own-covers b);
    }

pub IsReady-once :
    {area : ℕ → ℕ → ℕ} {p : Phys} {bs : List Block}
    → AreApart area
    → IsReady area p bs
    → (a : ℕ) → total bs a ≤ 1
IsReady-once {area} {bs = bs} far ok a =
    total-once area bs a far (λ r. omega (arith, ok.sound.account r a))
