-- ===== src/Memory/Phys/System.antt =====
-- Callers that allocate and free physical memory in any order (src/kernel/mem/phys/phys.c): no
-- address is given twice, and a block goes back with its size to the range it came from.
use mathlib.Core.Path.{subst}
use ricerca.Common.{
  ℕ, ◌+◌, ◌-◌, ◌%◌, ◌≤◌, ◌≡◌, refl, sym, ap, ◌∙◌, Bool, true, none, some, List, [], ◌∷◌, ◌==◌,
  Outcome, returns, suspended, fault, arith, size_mod, inl, inr, Bool-cases,
}
use ricerca.Memory.Phys.Slab.{free}
use ricerca.Memory.Phys.Cover.{IsValid}
use ricerca.Memory.Phys.Nodes.{
  MemRange, ObjectData, Phys, put_range, get_data, alloc_on_behalf, free_object,
}
use ricerca.Memory.Phys.Ledger.{
  AllKept, AreApart, Block, IsSound, Removed, Removed-AllKept, covers, no_block, room_at, tally,
  total,
}
use ricerca.Memory.Phys.Walk.{Walked, empty, found, over-Walked}
use ricerca.Memory.Phys.Enter.{data_of, enter-IsSound, entered, store_info-cases}
use ricerca.Memory.Phys.Release.{drop_range-cases, free-IsSound, free_object-drop_range}

pub data Step (p : Phys) (bs : List Block) : Phys → List Block → Type 0 where
  allocates :
      {p' : Phys} {addr : ℕ} {obj : ObjectData} (fuel size id : ℕ)
      → alloc_on_behalf fuel size id p ≡ returns (some addr) p'
      → get_data addr p' ≡ some obj
      → Step p bs p' (record { range = obj.range; addr = addr; size = size } ∷ bs)
  refuses :
      {p' : Phys} (fuel size id : ℕ)
      → alloc_on_behalf fuel size id p ≡ returns none p'
      → Step p bs p' bs
  frees :
      {p' : Phys} {bs' : List Block} (b : Block)
      → Removed b bs bs'
      → free_object b.addr p ≡ returns true p'
      → Step p bs p' bs'

pub data Reach (start : Phys) : Phys → List Block → Type 0 where
  begin : Reach start start []
  later :
      {p p' : Phys} {bs bs' : List Block} → Reach start p bs → Step p bs p' bs' → Reach start p' bs'

abbrev state_of : Phys → Outcome Phys Bool → Phys
state_of p (returns b q) = q
state_of p (suspended q) = p
state_of p fault = p

-- A new block is entered with the range and the size that the table has for it.
found-IsSound :
    {area : ℕ → ℕ → ℕ} {bs : List Block} {size addr : ℕ} {p q : Phys} {obj : ObjectData}
    → AreApart area
    → IsSound area p bs
    → Walked p size (returns (some addr) q)
    → get_data addr q ≡ some obj
    → IsSound area q (record { range = obj.range; addr = addr; size = size } ∷ bs)
found-IsSound {area} {bs} {size} {addr} {p} {obj = obj} far ok (found {slab = slab} id r x e g)
      known =
    let y : MemRange = record x { slab = slab } in
    elim (store_info-cases addr size r id y (put_range r y p)) [
      | inl (unset, same) ↦
          absurd (ground (arith, subst (λ q. data_of addr q.info ≡ some obj) same known, unset))
      | inr (info, set, same) ↦
          let r_is : r ≡ obj.range =
            ground (arith, subst (λ q. data_of addr q.info ≡ some obj) same known) in
          subst (λ q. IsSound area q (record { range = obj.range; addr = addr; size = size } ∷ bs))
            (sym same)
            (subst
              (λ m.
                IsSound area (entered addr size r id y info (put_range r y p))
                  (record { range = m; addr = addr; size = size } ∷ bs))
              r_is (enter-IsSound size r id x far ok set e g))
    ]

refused-IsSound :
    {area : ℕ → ℕ → ℕ} {bs : List Block} {size : ℕ} {p q : Phys}
    → IsSound area p bs
    → Walked p size (returns none q)
    → IsSound area q bs
refused-IsSound ok empty = ok

Step-IsSound :
    {area : ℕ → ℕ → ℕ} {p p' : Phys} {bs bs' : List Block}
    → AreApart area
    → IsSound area p bs
    → Step p bs p' bs'
    → IsSound area p' bs'
unfolding alloc_on_behalf
Step-IsSound {p = p} far ok (allocates fuel size id e known) =
    found-IsSound far ok
      (subst (Walked p size) e
        (over-Walked fuel size (p.nodes id).neighbours p.nodes_count 0 p ok.valid))
      known
Step-IsSound {p = p} far ok (refuses fuel size id e) = refused-IsSound ok (
    subst (Walked p size) e
      (over-Walked fuel size (p.nodes id).neighbours p.nodes_count 0 p ok.valid))
Step-IsSound {area} {p} {bs' = bs'} far ok (frees b gone e) =
    let (k, rest) = Removed-AllKept gone ok.kept in
    elim (drop_range-cases b.range (record k.home { slab = free b.addr b.size k.home.slab })
      (put_range b.range (record k.home { slab = free b.addr b.size k.home.slab }) p)) [
        | inl calls ↦ absurd (ground (arith, sym e ∙ free_object-drop_range k ∙ calls))
        | inr counts ↦
            subst (λ q. IsSound area q bs')
              (ap (state_of p) (sym counts ∙ sym (free_object-drop_range k) ∙ e))
              (free-IsSound k ((k.home.next_range + size_mod - 1) % size_mod) gone ok)
      ]

pub Reach-IsSound :
    {start p : Phys} {bs : List Block}
    → ((r : ℕ) (x : MemRange) → start.ranges r ≡ some x → IsValid x.slab)
    → AreApart (λ r a. room_at r start a)
    → Reach start p bs
    → IsSound (λ r a. room_at r start a) p bs
Reach-IsSound valid far begin = record {
  valid = valid;
  account = λ r a. omega arith;
  kept = no_block;
}
Reach-IsSound valid far (later r s) = Step-IsSound far (Reach-IsSound valid far r) s

total-none : (bs : List Block) (a : ℕ) → ((r : ℕ) → tally r bs a ≡ 0) → total bs a ≡ 0
total-none [] a h = refl
total-none (b ∷ bs) a h = ground (arith, h b.range, total-none bs a (λ r. ground (arith, h r)))

pub total-once :
    (area : ℕ → ℕ → ℕ) (bs : List Block) (a : ℕ)
    → AreApart area
    → ((r : ℕ) → tally r bs a ≤ area r a)
    → total bs a ≤ 1
total-once area [] a far h = omega arith
total-once area (b ∷ bs) a far h = elim (Bool-cases (covers b a == 0)) [
  | inl beside ↦ ground (arith, total-once area bs a far (λ r. ground (arith, h r)))
  | inr inside ↦ ground (
    arith,
    h b.range,
    far.once b.range a,
    total-none bs a (λ r. elim (Bool-cases (b.range == r)) [
      | inl same ↦ ground (arith, h r, far.once r a)
      | inr other ↦ ground (arith, h r, h b.range, far.apart b.range r a (λ e. ground (arith, e)))
    ]),
  )
]

-- Memory is handed out soundly: no address is in two blocks, every address is one that the range of
-- its block had to give, and the table has the range and the size that each block goes back with.
pub record IsSafe (start p : Phys) (bs : List Block) : Type 0 where
  pub once : (a : ℕ) → total bs a ≤ 1
  pub inside : (r a : ℕ) → tally r bs a ≤ room_at r start a
  pub kept : AllKept p bs

pub Reach-IsSafe :
    {start p : Phys} {bs : List Block}
    → ((r : ℕ) (x : MemRange) → start.ranges r ≡ some x → IsValid x.slab)
    → AreApart (λ r a. room_at r start a)
    → Reach start p bs
    → IsSafe start p bs
Reach-IsSafe {start} {p} {bs} valid far reach =
    let ok = Reach-IsSound valid far reach in
    let inside : (r a : ℕ) → tally r bs a ≤ room_at r start a =
      λ r a. omega (arith, ok.account r a) in
    record {
      once = λ a. total-once (λ r a. room_at r start a) bs a far (λ r. inside r a);
      inside = inside;
      kept = ok.kept;
    }
