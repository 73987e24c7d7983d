-- ===== src/Shm/ById.antt =====
-- Shared memory by its number: finding the object, asking the cookie, and who may do what.
use ricerca.Common.{
  ℕ, Bool, true, false, Option, none, some, List, [], if◌then◌else◌, Outcome, returns, suspended,
  fault,
}
use ricerca.Status.{Status, success, security_violation}
use ricerca.Locking.Mutex.Defs.{Task}
use ricerca.Memory.Refcount.{borrow}
use ricerca.Cookie.Defs.{EntryCookie, GroupCookie, universal, auth}
use ricerca.Containers.Intmap.{search}
use ricerca.Shm.Defs.{ShmOwner, Shms, ref_of, drop_ref, write_at, read_at}

-- user_shm_auth_read: the key for writing is asked for first.
unfoldable pub auth_read : Task → ShmOwner → EntryCookie → Outcome EntryCookie Bool
auth_read me shm cookie = elim (auth me cookie shm.rw_key) [
  | returns ok c ↦ if ok then returns true c else auth me c shm.ro_key
  | suspended c ↦ suspended c
  | fault ↦ fault
]

-- user_shm_auth_write
unfoldable pub auth_write : Task → ShmOwner → EntryCookie → Outcome EntryCookie Bool
auth_write me shm cookie = auth me cookie shm.rw_key

-- user_shm_find_by_id
unfoldable pub find_by_id : ℕ → Shms → Option ℕ × Shms
find_by_id id s = elim (search s.intmap id) [
  | none ↦ (none, s)
  | some n ↦ (some n.addr, record s { objects = borrow (ref_of n.addr) s.objects })
]

-- What a call does with the object that it has found: nothing for no object, else `act`.
unfoldable pub with_found :
    {A : Type 0}
    → ℕ
    → Shms
    → (missing : Outcome Shms A) → (ℕ → ShmOwner → Shms → Outcome Shms A)
    → Outcome Shms A
with_found id s missing act = elim ((find_by_id id s).0) [
  | none ↦ missing
  | some shm ↦ elim (s.owners shm) [ none ↦ fault | some o ↦ act shm o (find_by_id id s).1 ]
]

-- user_shm_write_by_id
unfoldable pub write_by_id :
    Task → (id offset : ℕ) (bytes : List ℕ) → EntryCookie → Shms → Outcome Shms Status
write_by_id me id offset bytes cookie s = with_found id s (returns security_violation s) λ shm o s'.
    elim (auth_write me o cookie) [
      | suspended _ ↦ suspended s'
      | fault ↦ fault
      | returns ok _ ↦
          if ok
          then write_at shm o offset bytes (drop_ref shm) s'
          else returns security_violation (drop_ref shm s')
    ]

-- user_shm_read_by_id
unfoldable pub read_by_id :
    Task → (id offset len : ℕ) → EntryCookie → Shms → Outcome Shms (Status × List ℕ)
read_by_id me id offset len cookie s =
    with_found id s (returns (security_violation, []) s) λ shm o s'. elim (auth_read me o cookie) [
      | suspended _ ↦ suspended s'
      | fault ↦ fault
      | returns ok _ ↦
          if ok
          then read_at o offset len (drop_ref shm) s'
          else returns (security_violation, []) (drop_ref shm s')
    ]

-- user_shm_modify_perms: `rw` chooses the key for reading.
unfoldable pub modify_perms : ShmOwner → (key : ℕ) (rw : Bool) → ShmOwner
modify_perms shm key true = record shm { ro_key = key }
modify_perms shm key false = record shm { rw_key = key }

-- user_shm_drop_ownership
unfoldable pub drop_ownership : ShmOwner → (rw : Bool) → Status × ShmOwner
drop_ownership object rw = (success, modify_perms object universal rw)

-- user_shm_acquire_ownership
unfoldable pub acquire_ownership : ShmOwner → EntryCookie → (rw : Bool) → Status × ShmOwner
acquire_ownership object cookie rw = (success, modify_perms object cookie.key rw)

-- user_shm_give_ownership_to_grp
unfoldable pub give_ownership_to_grp : ShmOwner → GroupCookie → (rw : Bool) → Status × ShmOwner
give_ownership_to_grp object group rw = (success, modify_perms object group.key rw)
