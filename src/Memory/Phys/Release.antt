-- ===== src/Memory/Phys/Release.antt =====
-- mem_phys_free of src/kernel/mem/phys/phys.c takes a block out of the ledger.
use ricerca.Common.{
  ℕ, ◌+◌, ◌-◌, ◌%◌, ◌≡◌, refl, ap, true, ◌&&◌, not, List, ◌==◌, returns, fault, arith, size_mod,
  ◌⊎◌, inl, inr, Bool-cases,
}
use ricerca.Memory.Phys.Slab.{free}
use ricerca.Memory.Phys.Alloc.{room-free, free-IsValid}
use ricerca.Memory.Phys.Nodes.{MemRange, Phys, put_range, drop_range, free_object}
use ricerca.Memory.Phys.Ledger.{
  Block, IsSound, Kept, Removed, Removed-AllKept, Removed-tally, put-AllKept, put-AllValid, room_at,
  room_at-put, room_at-some,
}

-- What mem_phys_free leaves of a block's range, x, whose first word is then `next`.
abbrev pub freed : Block → MemRange → (next : ℕ) → Phys → Phys
freed b x next p =
    let y : MemRange = record x { slab = free b.addr b.size x.slab } in
    put_range b.range (record y { next_range = next }) (put_range b.range y p)

-- mem_phys_free of a kept block finds its range and its size.
pub free_object-drop_range :
    {p : Phys} {b : Block} (k : Kept p b)
    → free_object b.addr p
      ≡ drop_range b.range
          (record k.home { slab = free b.addr b.size k.home.slab })
          (put_range b.range (record k.home { slab = free b.addr b.size k.home.slab }) p)
unfolding free_object
free_object-drop_range k = rw (free_object, k.known, k.lies) refl

pub drop_range-cases :
    (r : ℕ) (x : MemRange) (p : Phys)
    → (drop_range r x p ≡ fault)
      ⊎ (drop_range r x p
          ≡ returns true
              (put_range r (record x { next_range = (x.next_range + size_mod - 1) % size_mod }) p))
unfolding drop_range
drop_range-cases r x p = elim (Bool-cases (x.next_range == 1 && not (x.rc_word == 0))) [
  | inl calls ↦ inl (rw calls refl)
  | inr counts ↦ inr (rw counts refl)
]

pub free-IsSound :
    {area : ℕ → ℕ → ℕ} {p : Phys} {bs bs' : List Block} {b : Block} (k : Kept p b) (next : ℕ)
    → Removed b bs bs'
    → IsSound area p bs
    → IsSound area (freed b k.home next p) bs'
free-IsSound {p = p} {b = b} k next gone ok =
    let slab = free b.addr b.size k.home.slab in
    let y : MemRange = record k.home { slab = slab } in
    let z : MemRange = record y { next_range = next } in
    let valid =
      free-IsValid k.home.slab b.addr b.size k.small k.fits (ok.valid b.range k.home k.lies) in
    record {
      valid =
          put-AllValid (put_range b.range y p) b.range z valid
            (put-AllValid p b.range y valid ok.valid);
      account = λ q a. elim (Bool-cases (q == b.range)) [
        | inl same ↦
            let q_r : q ≡ b.range = ground arith in
            ground (
              arith,
              room_at-put (put_range b.range y p) b.range q a z,
              room-free k.home.slab b.addr b.size a k.small,
              ok.account q a,
              Removed-tally q a gone,
              room_at-some p b.range a k.home k.lies,
              ap (λ m. room_at m p a) q_r,
            )
        | inr other ↦ ground (
          arith,
          room_at-put (put_range b.range y p) b.range q a z,
          room_at-put p b.range q a y,
          ok.account q a,
          Removed-tally q a gone,
        )
      ];
      kept = put-AllKept b.range z (put-AllKept b.range y (Removed-AllKept gone ok.kept).1);
    }
