-- ===== src/Entry/Shared.antt =====
-- The system calls on shared memory. A reference to it is the address of the `ref` member.
use ricerca.Common.{ℕ, ◌-◌, Bool, ◌||◌, Option, none, some, List, [], returns}
use mathlib.Core.Option
use ricerca.Status.{Status, success}
use ricerca.Universe.Defs.{ObjType, shm_owner, shm_rw_ref, shm_ro_ref, group_cookie}
use ricerca.Shm.Defs.{ShmOwner, ref_of, create, create_ref, write_by_ref, read_by_ref, put_owner}
use ricerca.Shm.ById.{
  write_by_id, read_by_id, drop_ownership, acquire_ownership, give_ownership_to_grp,
}
use ricerca.Entry.System.{Env, Entry, M, pure, ◌>>=◌, ◌>>◌, get, got, crash, drop_ref, on_shms}
use ricerca.Entry.Handles.{is_type, with_ref, with_second, store_new}

-- A call that changes an object's keys; an object whose memory is gone cannot be read.
unfoldable pub on_owner : ℕ → (ShmOwner → Status × ShmOwner) → M Status
on_owner shm op s = elim (s.shm_owners shm) [
  | none ↦ crash s
  | some o ↦
      let (status, o') = op o in
      returns status (record s { shm_owners = put_owner s.shm_owners shm (some o') })
]

-- The object that a reference stands in.
abbrev pub owner_of : ℕ → ℕ
owner_of ref = ref - 16

module _ (env : Env) (entry : Entry) where
  -- The end of user_sys_create_shm_owned: the new object gets a handle.
  unfoldable pub store_owned : Status × Option (ℕ × ℕ) → M (Status × Option (ℕ × ℕ))
  store_owned (status, none) = pure (status, none)
  store_owned (status, some (shm, id)) = do
    (status, handle) ← store_new env entry (got (env.mem 2)) shm shm_owner
    pure (status, Option.map (λ h. (h, id)) handle)

  -- user_sys_create_shm_owned: the handle and the number.
  unfoldable pub sys_create_shm_owned : (size : ℕ) → M (Status × Option (ℕ × ℕ))
  sys_create_shm_owned size = do
    s ← get
    made ← on_shms (λ t.
        let (st, r, t') = create (env.mem 0) (got (env.mem 1)) size (s.cookies entry.cookie) t in
        returns (st, r) t')
    store_owned made

  -- user_sys_borrow_shm_rw and user_sys_borrow_shm_ro, which differ in the type of the new reference.
  unfoldable pub borrow_shm : ObjType → (hshm : ℕ) → M (Status × Option ℕ)
  borrow_shm type hshm =
      with_ref env entry (is_type shm_owner) hshm (λ status. (status, none))
        λ shm. do
          on_shms (λ t. returns tt (create_ref shm t))
          drop_ref shm >> store_new env entry (got (env.mem 0)) (ref_of shm) type

  unfoldable pub sys_borrow_shm_rw : (hshm : ℕ) → M (Status × Option ℕ)
  sys_borrow_shm_rw = borrow_shm shm_rw_ref

  unfoldable pub sys_borrow_shm_ro : (hshm : ℕ) → M (Status × Option ℕ)
  sys_borrow_shm_ro = borrow_shm shm_ro_ref

  -- user_sys_read_from_shm_ref: the bytes that have been read; the status of the read is not returned.
  unfoldable pub sys_read_from_shm_ref : (hshmref offset len : ℕ) → M (Status × List ℕ)
  sys_read_from_shm_ref hshmref offset len =
      with_ref env entry (λ t. is_type shm_ro_ref t || is_type shm_rw_ref t) hshmref
        (λ status. (status, []))
        λ ref. do
          (status, bytes) ← on_shms (read_by_ref (owner_of ref) offset len)
          drop_ref ref >> pure (success, bytes)

  -- user_sys_write_to_shm_ref: the status of the write is not returned.
  unfoldable pub sys_write_to_shm_ref : (hshmref offset : ℕ) → List ℕ → M Status
  sys_write_to_shm_ref hshmref offset bytes =
      with_ref env entry (is_type shm_rw_ref) hshmref (λ status. status)
        λ ref. do
          status ← on_shms (write_by_ref (owner_of ref) offset bytes)
          drop_ref ref >> pure success

  -- user_sys_read_from_shm_id and user_sys_write_to_shm_id
  unfoldable pub sys_read_from_shm_id : (id offset len : ℕ) → M (Status × List ℕ)
  sys_read_from_shm_id id offset len = do
    s ← get
    on_shms (read_by_id env.me id offset len (s.cookies entry.cookie))

  unfoldable pub sys_write_to_shm_id : (id offset : ℕ) → List ℕ → M Status
  sys_write_to_shm_id id offset bytes = do
    s ← get
    on_shms (write_by_id env.me id offset bytes (s.cookies entry.cookie))

  -- user_sys_unrestrict_shm
  unfoldable pub sys_unrestrict_shm : (hshm : ℕ) (rw : Bool) → M Status
  sys_unrestrict_shm hshm rw =
      with_ref env entry (is_type shm_owner) hshm (λ status. status)
        λ shm. do status ← on_owner shm (λ o. drop_ownership o rw); drop_ref shm >> pure status

  -- user_sys_restrict_shm
  unfoldable pub sys_restrict_shm : (hshm : ℕ) (rw : Bool) → M Status
  sys_restrict_shm hshm rw =
      with_ref env entry (is_type shm_owner) hshm (λ status. status)
        λ shm. do
          s ← get
          status ← on_owner shm (λ o. acquire_ownership o (s.cookies entry.cookie) rw)
          drop_ref shm >> pure status

  -- user_sys_restrict_shm_to_group
  unfoldable pub sys_restrict_shm_to_group : (hshm hgrp : ℕ) (rw : Bool) → M Status
  sys_restrict_shm_to_group hshm hgrp rw =
      with_ref env entry (is_type shm_owner) hshm (λ status. status)
        λ shm.
          with_second env entry (is_type group_cookie) hgrp shm
            (λ grp. drop_ref shm >> drop_ref grp) (λ status. status)
            λ grp. do
              s ← get
              status ← on_owner shm (λ o. give_ownership_to_grp o (s.groups grp) rw)
              drop_ref shm >> (drop_ref grp >> pure status)
