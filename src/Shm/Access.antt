-- ===== src/Shm/Access.antt =====
-- Who may read and write shared memory by its number.
use ricerca.Common.{
  overwrite, ℕ, ◌≡◌, ◌<◌, refl, true, false, none, some, List, [], arith, size_max, ◌⊎◌, returns,
  Outcome, Bool-cases, inl, inr, if◌then◌else◌, ◌||◌,
}
use ricerca.Status.{success, security_violation}
use ricerca.Locking.Mutex.Defs.{Task}
use ricerca.Memory.Refcount.{borrow}
use ricerca.Memory.Refcount.Balance.{refs, drop-borrow}
use ricerca.Cookie.Defs.{EntryCookie, auth}
use ricerca.Cookie.Auth.{IsFree, grants, auth-grants}
use ricerca.Containers.Intmap.{Node, search}
use ricerca.Containers.Intmap.Laws.{search-insert, search-remove-insert}
use ricerca.Shm.Defs.{
  ShmOwner, Shms, ref_of, drop_ref, with_owner, write_by_ref, read_by_ref, write_at, read_at,
  create, shutdown, dealloc, check_bounds, copy_from_user, copy_to_user,
}
use ricerca.Shm.ById.{
  auth_read, auth_write, find_by_id, write_by_id, read_by_id, drop_ownership, modify_perms,
  with_found,
}

borrowed : ℕ → Shms → Shms
borrowed shm s = record s { objects = borrow (ref_of shm) s.objects }

-- An object has a reference, and room for one more.
abbrev pub IsCounted : ℕ → Shms → Type 0
IsCounted shm s = (0 < refs s.objects (ref_of shm)) × (refs s.objects (ref_of shm) < size_max)

drop_ref-borrowed : (shm : ℕ) (s : Shms) → IsCounted shm s → drop_ref shm (borrowed shm s) ≡ s
unfolding drop_ref borrow borrowed
drop_ref-borrowed shm s (pos, fits) =
    rw (drop-borrow (ref_of shm) s.objects pos fits) (ground arith)

-- The object that a number names, and what the world needs for its reference to be borrowed.
pub record Names (s : Shms) (id shm : ℕ) (o : ShmOwner) : Type 0 where
  pub node_key : ℕ
  pub listed : search s.intmap id ≡ some (record { addr = shm; key = node_key })
  pub owner : s.owners shm ≡ some o
  pub counted : IsCounted shm s

find_by_id-Names :
    {s : Shms} {id shm : ℕ} {o : ShmOwner}
    → Names s id shm o
    → find_by_id id s ≡ (some shm, borrowed shm s)
unfolding borrowed find_by_id
find_by_id-Names n = rw (find_by_id, n.listed) refl

with_found-Names :
    {A : Type 0} {s : Shms} {id shm : ℕ} {o : ShmOwner} (missing : Outcome Shms A)
    (act : ℕ → ShmOwner → Shms → Outcome Shms A)
    → Names s id shm o
    → with_found id s missing act ≡ act shm o (borrowed shm s)
unfolding with_found
with_found-Names missing act n =
    rw (with_found, find_by_id-Names n, n.owner, find_by_id-Names n) refl

-- Giving the borrowed reference back at the end is as if it had not been borrowed.
write_at-borrowed :
    (shm offset : ℕ) (bytes : List ℕ) (s : Shms) (o : ShmOwner)
    → IsCounted shm s
    → write_at shm o offset bytes (drop_ref shm) (borrowed shm s)
      ≡ write_at shm o offset bytes (λ s. s) s
unfolding write_at check_bounds copy_from_user borrowed
write_at-borrowed shm offset bytes s o counted =
    let s' = with_owner s shm (record o { contents = overwrite o.contents offset bytes }) in
    ground (arith, drop_ref-borrowed shm s counted, drop_ref-borrowed shm s' counted)

read_at-borrowed :
    (shm offset len : ℕ) (s : Shms) (o : ShmOwner)
    → IsCounted shm s
    → read_at o offset len (drop_ref shm) (borrowed shm s) ≡ read_at o offset len (λ s. s) s
unfolding read_at check_bounds copy_to_user borrowed
read_at-borrowed shm offset len s o counted = ground (arith, drop_ref-borrowed shm s counted)

module _ (me : Task) (id offset : ℕ) (cookie : EntryCookie) (s : Shms) where
  -- A number that names no object, and one whose object refuses the cookie, give a writer the same
  -- answer, and neither call changes anything.
  write_by_id-denied :
      (bytes : List ℕ)
      → IsFree cookie
      → (search s.intmap id ≡ none)
        ⊎ ((shm : ℕ) × (o : ShmOwner) × Names s id shm o × (grants cookie o.rw_key ≡ false))
      → write_by_id me id offset bytes cookie s ≡ returns security_violation s
  unfolding write_by_id with_found find_by_id auth_write
  write_by_id-denied bytes free (inl e) = rw (write_by_id, with_found, find_by_id, e) refl
  write_by_id-denied bytes free (inr (shm, o, n, refused)) =
      rw
        (
          write_by_id,
          with_found-Names _ _ n,
          auth_write,
          auth-grants me cookie o.rw_key free,
          refused,
          drop_ref-borrowed shm s n.counted,
        )
        refl

  -- With a cookie that holds the key for writing, a write by number is the write by reference.
  write_by_id-granted :
      (shm : ℕ) (o : ShmOwner) (bytes : List ℕ)
      → IsFree cookie
      → Names s id shm o
      → grants cookie o.rw_key ≡ true
      → write_by_id me id offset bytes cookie s ≡ write_by_ref shm offset bytes s
  unfolding write_by_id write_by_ref auth_write
  write_by_id-granted shm o bytes free n granted =
      rw
        (
          write_by_id,
          with_found-Names _ _ n,
          auth_write,
          auth-grants me cookie o.rw_key free,
          granted,
          write_by_ref,
          n.owner,
        )
        (write_at-borrowed shm offset bytes s o n.counted)

  -- A cookie that holds either key reads by number as by reference; one that holds neither is
  -- refused, and nothing changes.
  pub read_by_id-grants :
      (shm : ℕ) (o : ShmOwner) (len : ℕ)
      → IsFree cookie
      → Names s id shm o
      → read_by_id me id offset len cookie s ≡ (
          if grants cookie o.rw_key || grants cookie o.ro_key
          then read_by_ref shm offset len s
          else returns (security_violation, []) s)
  unfolding read_by_id read_by_ref auth_read
  read_by_id-grants shm o len free n = elim (Bool-cases (grants cookie o.rw_key)) [
    | inl e ↦
        rw
          (
            read_by_id,
            with_found-Names _ _ n,
            auth_read,
            auth-grants me cookie o.rw_key free,
            e,
            read_by_ref,
            n.owner,
          )
          (read_at-borrowed shm offset len s o n.counted)
    | inr e ↦
        rw
          (
            read_by_id,
            with_found-Names _ _ n,
            auth_read,
            auth-grants me cookie o.rw_key free,
            e,
            auth-grants me cookie o.ro_key free,
          )
          (elim (Bool-cases (grants cookie o.ro_key)) [
            | inl e' ↦ rw (e', read_by_ref, n.owner) (read_at-borrowed shm offset len s o n.counted)
            | inr e' ↦ rw (e', drop_ref-borrowed shm s n.counted) refl
          ])
  ]

-- Dropping the right to write, as the flag `rw` names it, leaves writing as it was; dropping the
-- right to read lets every cookie write.
pub drop_ownership_swapped :
    (me : Task) (cookie : EntryCookie) (o : ShmOwner)
    → (auth_write me (drop_ownership o true).1 cookie ≡ auth_write me o cookie)
      × (auth_write me (drop_ownership o false).1 cookie ≡ returns true cookie)
      × (auth_read me (drop_ownership o false).1 cookie ≡ returns true cookie)
unfolding auth_read auth_write drop_ownership modify_perms auth
drop_ownership_swapped me cookie o = (refl, refl, refl)

-- A new object is found by its number, and after it is shut down nothing is found there, if nothing
-- was before it was made.
create-shutdown :
    (shm size : ℕ) (cookie : EntryCookie) (s s' : Shms) (o : ShmOwner)
    → search s.intmap s.last_allocated_id ≡ none
    → create (some shm) true size cookie s ≡ (success, some (shm, s.last_allocated_id), s')
    → s'.owners shm ≡ some o
    → (search s'.intmap s.last_allocated_id
        ≡ some (record { addr = shm; key = s.last_allocated_id }))
      × (search (shutdown shm o s').intmap s.last_allocated_id ≡ none)
unfolding create shutdown drop_ref dealloc
create-shutdown shm size cookie s s' o fresh made owner =
    let node : Node = record { addr = shm; key = s.last_allocated_id } in
    let found = search-insert s.intmap node s.last_allocated_id in
    let gone = search-remove-insert s.intmap node s.last_allocated_id in
    (ground (arith, made, found), ground (arith, made, owner, gone, fresh))
