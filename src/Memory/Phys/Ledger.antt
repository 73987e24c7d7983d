-- ===== src/Memory/Phys/Ledger.antt =====
-- The blocks that callers have of src/kernel/mem/phys/phys.c, and what keeps their ledger sound.
use mathlib.Core.Path.{subst}
use ricerca.Common.{
  ℕ, ◌+◌, ◌^◌, ◌≤◌, ◌<◌, ◌≡◌, ◌≢◌, refl, ap, Bool, true, false, Option, none, some, List, [], ◌∷◌,
  ◌==◌, if◌then◌else◌, arith, inl, inr, Bool-cases,
}
use ricerca.Memory.Phys.Slab.{get_order, orders_count}
use ricerca.Memory.Phys.Cover.{spans, room, FitsIn, IsValid}
use ricerca.Memory.Phys.Nodes.{MemRange, Phys, put_range, get_data}

-- A block that a caller has and may still free.
pub record Block : Type 0 where
  pub range : ℕ
  pub addr : ℕ
  pub size : ℕ

abbrev pub covers : Block → ℕ → ℕ
covers b a = spans b.addr (2 ^ get_order b.size) a

-- How many of the blocks cover an address, of all and of one range's.
abbrev pub total : List Block → ℕ → ℕ
total [] a = 0
total (b ∷ bs) a = covers b a + total bs a

abbrev pub tally : (r : ℕ) → List Block → ℕ → ℕ
tally r [] a = 0
tally r (b ∷ bs) a = let rest = tally r bs a in if b.range == r then covers b a + rest else rest

-- bs' is bs without one occurrence of b.
pub data Removed (b : Block) : List Block → List Block → Type 0 where
  here : {bs : List Block} → Removed b (b ∷ bs) bs
  there : {c : Block} {bs bs' : List Block} → Removed b bs bs' → Removed b (c ∷ bs) (c ∷ bs')

-- What the slab of the range at r still has to give of an address.
abbrev pub room_of : Option MemRange → ℕ → ℕ
room_of none a = 0
room_of (some x) a = room x.slab a

abbrev pub room_at : (r : ℕ) → Phys → ℕ → ℕ
room_at r p a = room_of (p.ranges r) a

-- The object table knows the range and the size of a block.
pub record Kept (p : Phys) (b : Block) : Type 0 where
  pub node : ℕ
  pub known : get_data b.addr p ≡ some (record { range = b.range; size = b.size; node_id = node })
  pub home : MemRange
  pub lies : p.ranges b.range ≡ some home
  pub small : get_order b.size < orders_count
  pub fits : FitsIn (get_order b.size) b.addr

pub data AllKept (p : Phys) : List Block → Type 0 where
  no_block : AllKept p []
  block : {b : Block} {bs : List Block} → Kept p b → AllKept p bs → AllKept p (b ∷ bs)

-- The ranges lie apart: `area` counts the addresses that each had to give.
pub record AreApart (area : ℕ → ℕ → ℕ) : Type 0 where
  pub once : (r a : ℕ) → area r a ≤ 1
  pub apart : (r q a : ℕ) → r ≢ q → area r a + area q a ≤ 1

pub record IsSound (area : ℕ → ℕ → ℕ) (p : Phys) (bs : List Block) : Type 0 where
  pub valid : (r : ℕ) (x : MemRange) → p.ranges r ≡ some x → IsValid x.slab
  pub account : (r a : ℕ) → room_at r p a + tally r bs a ≡ area r a
  pub kept : AllKept p bs

-- A range that is there stays there.
pub put_range-lies :
    (p : Phys) (r q : ℕ) (x y : MemRange)
    → p.ranges q ≡ some y
    → (z : MemRange) × ((put_range r x p).ranges q ≡ some z)
put_range-lies p r q x y e = elim (Bool-cases (q == r)) [
  | inl same ↦ (x, ground arith)
  | inr other ↦ (y, ground arith)
]

-- Where a range's slab gives an address, no block covers it.
pub unshared :
    {area : ℕ → ℕ → ℕ} {p : Phys} {bs : List Block} (r a : ℕ)
    → AreApart area
    → IsSound area p bs
    → 1 ≤ room_at r p a
    → (q : ℕ) → tally q bs a ≡ 0
unshared {bs = bs} r a far ok h q = elim (Bool-cases (q == r)) [
  | inl same ↦ let e : q ≡ r = ground arith in rw e (omega (arith, ok.account r a, far.once r a))
  | inr other ↦
      let ne : r ≢ q = λ e. ground (arith, e) in
      omega (arith, ok.account r a, ok.account q a, far.apart r q a ne)
]

pub room_of-if :
    (c : Bool) (x : MemRange) (o : Option MemRange) (a : ℕ)
    → room_of (if c then some x else o) a ≡ (if c then room x.slab a else room_of o a)
room_of-if true x o a = refl
room_of-if false x o a = refl

-- The account after a range at r has got a new slab.
pub room_at-put :
    (p : Phys) (r q a : ℕ) (x : MemRange)
    → room_at q (put_range r x p) a ≡ (if q == r then room x.slab a else room_at q p a)
room_at-put p r q a x = room_of-if (q == r) x (p.ranges q) a

pub room_at-some :
    (p : Phys) (r a : ℕ) (x : MemRange) → p.ranges r ≡ some x → room_at r p a ≡ room x.slab a
room_at-some p r a x e = ap (λ o. room_of o a) e

-- Every range of a state is valid; so is a new one.
abbrev pub AllValid : Phys → Type 0
AllValid p = (r : ℕ) (x : MemRange) → p.ranges r ≡ some x → IsValid x.slab

pub put-AllValid :
    (p : Phys) (r : ℕ) (x : MemRange) → IsValid x.slab → AllValid p → AllValid (put_range r x p)
put-AllValid p r x new all q y e = elim (Bool-cases (q == r)) [
  | inl same ↦
      let same_range : x ≡ y = ground (arith, e) in subst (λ z. IsValid z.slab) same_range new
  | inr other ↦ all q y (ground (arith, e))
]

pub put-AllKept :
    {p : Phys} {bs : List Block} (r : ℕ) (x : MemRange)
    → AllKept p bs
    → AllKept (put_range r x p) bs
put-AllKept r x no_block = no_block
put-AllKept {p} r x (block {b} k ks) =
    let (y, e) = put_range-lies p r b.range x k.home k.lies in
    block
      (record {
        node = k.node;
        known = k.known;
        home = y;
        lies = e;
        small = k.small;
        fits = k.fits;
      })
      (put-AllKept r x ks)

pub Removed-AllKept :
    {p : Phys} {b : Block} {bs bs' : List Block}
    → Removed b bs bs'
    → AllKept p bs
    → Kept p b × AllKept p bs'
Removed-AllKept here (block k ks) = (k, ks)
Removed-AllKept (there r) (block k ks) = let (kb, rest) = Removed-AllKept r ks in (kb, block k rest)

pub Removed-tally :
    {b : Block} {bs bs' : List Block} (q a : ℕ)
    → Removed b bs bs'
    → tally q bs a ≡ (if b.range == q then covers b a else 0) + tally q bs' a
Removed-tally q a here = ground arith
Removed-tally q a (there r) = ground (arith, Removed-tally q a r)
