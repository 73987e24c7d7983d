-- ===== src/Shm/Bounds.antt =====
-- Reads and writes of shared memory stay inside the object, and a read sees what was written.
use ricerca.Common.{
  length-overwrite, slice-overwrite, overwrite-outside, overwrite, slice, ℕ, ◌+◌, ◌≡◌, ◌≤◌, ◌<◌,
  ◌⊎◌, inl, inr, true, some, List, leb, length, arith, size_mod, returns, get_elem?, Bool-cases,
  ◌∙◌,
}
use ricerca.Status.{success, out_of_bounds}
use ricerca.Shm.Defs.{
  ShmOwner, Shms, check_bounds, write_at, read_at, write_by_ref, read_by_ref, with_owner,
  copy_from_user, copy_to_user,
}

-- The object has as many bytes as it says, and fits into memory.
abbrev pub IsValid : ShmOwner → Type 0
IsValid o = (length o.contents ≡ o.size) × (o.size < size_mod)

check_bounds-within :
    (o : ShmOwner) (offset len : ℕ)
    → o.size < size_mod
    → offset + len ≤ o.size
    → check_bounds o offset len ≡ true
unfolding check_bounds
check_bounds-within o offset len fits h = ground arith

module _ (shm offset : ℕ) (bytes : List ℕ) (s : Shms) (o : ShmOwner) where
  abbrev pub written : ShmOwner
  written = record o { contents = overwrite o.contents offset bytes }

  pub write-within :
      IsValid o
      → s.owners shm ≡ some o
      → offset + length bytes ≤ o.size
      → write_by_ref shm offset bytes s ≡ returns success (with_owner s shm written)
  unfolding write_by_ref write_at check_bounds copy_from_user
  write-within ok e h =
      rw (write_by_ref, e)
        (ground (arith, ok.0, ok.1, check_bounds-within o offset (length bytes) ok.1 h))

  -- The bytes end inside the object, and the write stores them there; or they do not, and the
  -- write refuses.
  abbrev pub Bounded : Type 0
  Bounded =
      ((offset + length bytes ≤ o.size)
        × (write_by_ref shm offset bytes s ≡ returns success (with_owner s shm written))
        × IsValid written
        × (slice written.contents offset (length bytes) ≡ bytes)
        × ((i : ℕ)
            → (i < offset) ⊎ (offset + length bytes ≤ i)
            → get_elem? written.contents i ≡ get_elem? o.contents i))
      ⊎ ((o.size < offset + length bytes)
          × (write_by_ref shm offset bytes s ≡ returns out_of_bounds s))

  -- A write of bytes that end inside the object stores them there and changes no other byte; any
  -- other write answers "out of bounds" and changes nothing. Neither leaves the object.
  pub write_by_ref-bounds : IsValid o → s.owners shm ≡ some o → Bounded
  unfolding write_by_ref write_at check_bounds
  write_by_ref-bounds ok e = elim (Bool-cases (leb (offset + length bytes) o.size)) [
    | inl b ↦
        let h : offset + length bytes ≤ o.size = ground arith in
        inl (
          h,
          write-within ok e h,
          (length-overwrite o.contents offset bytes ∙ ok.0, ok.1),
          slice-overwrite o.contents offset bytes (ground (arith, h, ok.0)),
          λ i p. overwrite-outside o.contents offset bytes i p,
        )
    | inr b ↦ inr (ground arith, rw (write_by_ref, e) (ground arith))
  ]

  -- What a successful write stored is what a read of the same place answers, with nothing changed.
  pub read-write :
      {s' : Shms}
      → IsValid o
      → s.owners shm ≡ some o
      → write_by_ref shm offset bytes s ≡ returns success s'
      → read_by_ref shm offset (length bytes) s' ≡ returns (success, bytes) s'
  unfolding write_by_ref read_by_ref write_at read_at check_bounds copy_from_user copy_to_user
  read-write {s'} ok e w = elim (write_by_ref-bounds ok e) [
    | inl (h, r, v, same, _) ↦ ground (arith, h, r, w, v.0, v.1, same, e)
    | inr (h, r) ↦ absurd (ground (arith, r, w))
  ]
