-- ===== src/Entry/Access.antt =====
-- What programs read and write by handles that hold references to shared memory.
use ricerca.Common.{
  ℕ, ◌+◌, ◌≡◌, ◌≤◌, ◌<◌, ◌⊎◌, inl, inr, refl, ap, ◌∙◌, some, List, length, arith, size_max, returns,
}
use ricerca.Status.{Status, success, out_of_bounds}
use ricerca.Memory.Refcount.{Objects, borrow}
use ricerca.Memory.Refcount.Balance.{refs, drop-borrow}
use ricerca.Universe.Defs.{Ref, shm_rw_ref}
use ricerca.Universe.Table.{lookup}
use ricerca.Universe.Frame.{IsReady}
use ricerca.Shm.Defs.{ShmOwner, Shms, write_by_ref, read_by_ref, with_owner}
use ricerca.Shm.Bounds.{IsValid, Bounded, written, write-within, write_by_ref-bounds, read-write}
use ricerca.Entry.System.{
  System, Env, Entry, M, pure, ◌>>=◌, ◌>>◌, objects, set_objects, ids, drop_ref, on_shms, run_on,
  with_shms, shms_of,
}
use ricerca.Entry.Shared.{owner_of, sys_write_to_shm_ref, sys_read_from_shm_ref}
use ricerca.Entry.Refusals.{world_of, with_ref-found, bind-returns}

-- The handle names a reference for reading and writing to a live object.
pub record Holds (s : System) (entry : Entry) (h : ℕ) (r : Ref) (o : ShmOwner) : Type 0 where
  pub ready : IsReady (ids s) (world_of s entry.universe)
  pub named : lookup (s.universes entry.universe) h ≡ some r
  pub writable : r.type ≡ shm_rw_ref
  pub live : 0 < refs (objects s) r.ref
  pub room : refs (objects s) r.ref < size_max
  pub owner : s.shm_owners (owner_of r.ref) ≡ some o
  pub valid : IsValid o

module _ (env : Env) (entry : Entry) {s : System} (h offset : ℕ) {r : Ref} {o : ShmOwner}
    (k : Holds s entry h r o) where
  write_to_shm_ref-leaves :
      (bytes : List ℕ) (status : Status) (t : Shms)
      → ((q : Objects)
          → write_by_ref (owner_of r.ref) offset bytes (record (shms_of s) { objects = q })
            ≡ returns status (record t { objects = q }))
      → sys_write_to_shm_ref env entry h offset bytes s
        ≡ returns success (with_shms s (record t { objects = objects s }))
  unfolding sys_write_to_shm_ref on_shms drop_ref
  write_to_shm_ref-leaves bytes status t w =
      let q = borrow r.ref (objects s) in
      let call = on_shms (write_by_ref (owner_of r.ref) offset bytes) in
      let done : M Status = drop_ref r.ref >> pure success in
      with_ref-found env entry s k.ready _ h _ _ r k.named
      ∙ rw (k.writable) (
          bind-returns call (λ _. done) status (ap (run_on (with_shms (set_objects s q))) (w q))
          ∙ rw (drop-borrow r.ref (objects s) k.live k.room) refl)

  read_from_shm_ref-answers :
      (len : ℕ) (status : Status) (bytes : List ℕ)
      → ((q : Objects)
          → read_by_ref (owner_of r.ref) offset len (record (shms_of s) { objects = q })
            ≡ returns (status, bytes) (record (shms_of s) { objects = q }))
      → sys_read_from_shm_ref env entry h offset len s ≡ returns (success, bytes) s
  unfolding sys_read_from_shm_ref on_shms drop_ref
  read_from_shm_ref-answers len status bytes w =
      let q = borrow r.ref (objects s) in
      let call = on_shms (read_by_ref (owner_of r.ref) offset len) in
      let done : Status × List ℕ → M (Status × List ℕ) =
        λ a. drop_ref r.ref >> pure (success, a.1) in
      with_ref-found env entry s k.ready _ h _ _ r k.named
      ∙ rw (k.writable) (
          bind-returns call done (status, bytes) (ap (run_on (with_shms (set_objects s q))) (w q))
          ∙ rw (drop-borrow r.ref (objects s) k.live k.room) refl)

  abbrev pub within : List ℕ → ShmOwner
  within bytes = written (owner_of r.ref) offset bytes (shms_of s) o

  -- The system after `bytes` have been written.
  abbrev pub stored : List ℕ → System
  stored bytes = record s {
    shm_owners = (with_owner (shms_of s) (owner_of r.ref) (within bytes)).owners;
  }

  bounds_at :
      (bytes : List ℕ) (q : Objects)
      → Bounded (owner_of r.ref) offset bytes (record (shms_of s) { objects = q }) o
  bounds_at bytes q =
      write_by_ref-bounds (owner_of r.ref) offset bytes (record (shms_of s) { objects = q }) o
        k.valid k.owner

  -- A write by a handle that holds a reference for writing answers "success". Where the bytes end
  -- inside the object they are stored; where they do not, nothing changes.
  pub sys_write_to_shm_ref-success :
      (bytes : List ℕ)
      → ((offset + length bytes ≤ o.size)
          × (sys_write_to_shm_ref env entry h offset bytes s ≡ returns success (stored bytes)))
        ⊎ ((o.size < offset + length bytes)
            × (sys_write_to_shm_ref env entry h offset bytes s ≡ returns success s))
  sys_write_to_shm_ref-success bytes = elim (bounds_at bytes (objects s)) [
    | inl (fit, _, _, _, _) ↦ inl (
      fit,
      write_to_shm_ref-leaves bytes success (with_owner (shms_of s) (owner_of r.ref) (within bytes))
          λ q. elim (bounds_at bytes q) [
            | inl (_, e, _, _, _) ↦ e
            | inr (out, _) ↦ absurd (omega (arith, fit, out))
          ],
    )
    | inr (out, _) ↦ inr (
      out,
      write_to_shm_ref-leaves bytes out_of_bounds (shms_of s) λ q. elim (bounds_at bytes q) [
        | inl (fit, _, _, _, _) ↦ absurd (omega (arith, fit, out))
        | inr (_, e) ↦ e
      ],
    )
  ]

  Holds-stored :
      (bytes : List ℕ)
      → offset + length bytes ≤ o.size
      → Holds (stored bytes) entry h r (within bytes)
  Holds-stored bytes fit = elim (bounds_at bytes (objects s)) [
    | inl (_, _, ok, _, _) ↦ record {
      ready = k.ready;
      named = k.named;
      writable = k.writable;
      live = k.live;
      room = k.room;
      owner = ground arith;
      valid = ok;
    }
    | inr (out, _) ↦ absurd (omega (arith, fit, out))
  ]

module _ (env : Env) (entry : Entry) {s : System} (h offset : ℕ) {r : Ref} {o : ShmOwner}
    (k : Holds s entry h r o) where
  -- Bytes that end inside the object and are written by the handle are what the next read of the same
  -- place by the same handle returns.
  pub sys_read-sys_write :
      (bytes : List ℕ)
      → offset + length bytes ≤ o.size
      → (sys_write_to_shm_ref env entry h offset bytes >>= λ _.
            sys_read_from_shm_ref env entry h offset (length bytes))
          s
        ≡ returns (success, bytes) (stored env entry h offset k bytes)
  sys_read-sys_write bytes fit =
      let w = sys_write_to_shm_ref env entry h offset bytes in
      let next = λ (_ : Status). sys_read_from_shm_ref env entry h offset (length bytes) in
      let read =
        read_from_shm_ref-answers env entry h offset (Holds-stored env entry h offset k bytes fit)
          (length bytes) success bytes
          λ q.
            read-write (owner_of r.ref) offset bytes (record (shms_of s) { objects = q }) o k.valid
              k.owner
              (write-within (owner_of r.ref) offset bytes (record (shms_of s) { objects = q }) o
                k.valid k.owner fit) in
      elim (sys_write_to_shm_ref-success env entry h offset k bytes) [
        | inl (_, e) ↦ bind-returns w next success e ∙ read
        | inr (out, _) ↦ absurd (omega (arith, fit, out))
      ]
