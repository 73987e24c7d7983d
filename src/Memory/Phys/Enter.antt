-- ===== src/Memory/Phys/Enter.antt =====
-- mem_phys_store_info of src/kernel/mem/phys/phys.c enters a new block in the ledger.
use mathlib.Core.Path.{subst}
use ricerca.Common.{
  ℕ, ◌+◌, ◌/◌, ◌%◌, ◌≡◌, refl, ap, false, Option, none, some, List, ◌∷◌, ◌==◌, ==_refl, arith,
  size_mod, ◌⊎◌, inl, inr, Bool-cases, Option-cases,
}
use ricerca.Memory.Phys.Slab.{PhysSlab, get_order, page_size}
use ricerca.Memory.Phys.Cover.{pow-pos}
use ricerca.Memory.Phys.Alloc.{Given}
use ricerca.Memory.Phys.Nodes.{MemRange, ObjectData, Phys, put_range, write_info, store_info}
use ricerca.Memory.Phys.Ledger.{
  AllKept, AreApart, Block, IsSound, Kept, block, covers, no_block, put-AllValid, put_range-lies,
  room_at, room_at-put, room_at-some, tally, unshared,
}

-- No address of a page is in two blocks that both start at pages, unless they start at the same.
pub elsewhere :
    (b : Block) (addr : ℕ)
    → b.addr % page_size ≡ 0
    → addr % page_size ≡ 0
    → covers b addr ≡ 0
    → (b.addr / page_size == addr / page_size) ≡ false
elsewhere b addr pb pa none_of = ground (arith, pow-pos (get_order b.size))

-- What mem_phys_store_info leaves where there is a table, `info`.
abbrev pub entered : (addr size r id : ℕ) → MemRange → (ℕ → ObjectData) → Phys → Phys
entered addr size r id x info p =
    record (put_range r (record x { next_range = (x.next_range + 1) % size_mod }) p) {
      info =
          some
            (write_info (addr / page_size) (record { range = r; size = size; node_id = id }) info);
    }

pub store_info-cases :
    (addr size r id : ℕ) (x : MemRange) (p : Phys)
    → ((p.info ≡ none) × (store_info addr size r x id p ≡ p))
      ⊎ ((info : ℕ → ObjectData) × (p.info ≡ some info)
          × (store_info addr size r x id p ≡ entered addr size r id x info p))
unfolding store_info
store_info-cases addr size r id x p = elim (Option-cases p.info) [
  | inl unset ↦
      inl (unset, ap (λ i. elim i [ none ↦ p | some old ↦ entered addr size r id x old p ]) unset)
  | inr (info, e) ↦
      inr (info, e, ap (λ i. elim i [ none ↦ p | some old ↦ entered addr size r id x old p ]) e)
]

abbrev pub data_of : ℕ → Option (ℕ → ObjectData) → Option ObjectData
data_of addr i = elim i [ none ↦ none | some info ↦ some (info (addr / page_size)) ]

pub enter-Kept :
    {p : Phys} {b : Block} {info : ℕ → ObjectData} (addr size r id : ℕ) (x : MemRange)
    → p.info ≡ some info
    → addr % page_size ≡ 0
    → covers b addr ≡ 0
    → Kept p b
    → Kept (entered addr size r id x info (put_range r x p)) b
enter-Kept {p} {b} {info} addr size r id x e paged alone k =
    let new : MemRange = record x { next_range = (x.next_range + 1) % size_mod } in
    let (y, ey) = put_range-lies p r b.range x k.home k.lies in
    let (z, ez) = put_range-lies (put_range r x p) r b.range new y ey in
    record {
      node = k.node;
      known = rw (elsewhere b addr k.fits.paged paged alone) (
          subst
            (λ i.
              data_of b.addr i ≡ some (record { range = b.range; size = b.size; node_id = k.node }))
            e k.known);
      home = z;
      lies = ez;
      small = k.small;
      fits = k.fits;
    }

-- A new block at an address that no other covers leaves the entries of the others alone.
pub enter-AllKept :
    {p : Phys} {bs : List Block} {info : ℕ → ObjectData} (addr size r id : ℕ) (x : MemRange)
    → p.info ≡ some info
    → addr % page_size ≡ 0
    → ((q : ℕ) → tally q bs addr ≡ 0)
    → AllKept p bs
    → AllKept (entered addr size r id x info (put_range r x p)) bs
enter-AllKept addr size r id x e paged alone no_block = no_block
enter-AllKept {p} addr size r id x e paged alone (block {b} {bs} k ks) =
    block (enter-Kept addr size r id x e paged (ground (arith, alone b.range)) k)
      (enter-AllKept addr size r id x e paged (λ q. ground (arith, alone q)) ks)

pub enter-IsSound :
    {area : ℕ → ℕ → ℕ} {p : Phys} {bs : List Block} {info : ℕ → ObjectData} {slab : PhysSlab}
    {addr : ℕ} (size r id : ℕ) (x : MemRange)
    → AreApart area
    → IsSound area p bs
    → p.info ≡ some info
    → p.ranges r ≡ some x
    → Given x.slab (get_order size) addr slab
    → IsSound area
        (entered addr size r id
          (record x { slab = slab })
          info
          (put_range r (record x { slab = slab }) p))
        (record { range = r; addr = addr; size = size } ∷ bs)
enter-IsSound {p = p} {bs} {info} {slab} {addr} size r id x far ok e ex g =
    let y : MemRange = record x { slab = slab } in
    let z : MemRange = record y { next_range = (y.next_range + 1) % size_mod } in
    let alone =
      unshared r addr far ok
        (ground (arith, room_at-some p r addr x ex, g.account addr, pow-pos (get_order size))) in
    record {
      valid = put-AllValid (put_range r y p) r z g.valid (put-AllValid p r y g.valid ok.valid);
      account = λ q a. elim (Bool-cases (q == r)) [
        | inl same ↦
            let q_r : q ≡ r = ground arith in
            ground (
              arith,
              room_at-put (put_range r y p) r q a z,
              g.account a,
              ok.account q a,
              room_at-some p r a x ex,
              ap (λ m. room_at m p a) q_r,
            )
        | inr other ↦
            ground
              (arith, room_at-put (put_range r y p) r q a z, room_at-put p r q a y, ok.account q a)
      ];
      kept =
          block
            (record {
              node = id;
              known = rw (==_refl (addr / page_size)) refl;
              home = z;
              lies = rw (==_refl r) refl;
              small = g.small;
              fits = g.fits;
            })
            (enter-AllKept addr size r id y e g.fits.paged alone ok.kept);
    }
