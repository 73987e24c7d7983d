-- ===== src/Shm/Defs.antt =====
-- Shared memory objects and the calls on them. An object is named by its address; the count of its
-- `ref` member stands 16 bytes behind the count that guards the owner.
use ricerca.Common.{
  overwrite, slice, ℕ, zero, suc, ◌+◌, ◌%◌, Bool, true, false, ◌&&◌, Option, none, some, List, [],
  ◌∷◌, ◌==◌, leb, ltb, if◌then◌else◌, length, size_mod, Outcome, returns, fault,
}
use ricerca.Status.{Status, success, out_of_bounds, out_of_memory, invalid_mem}
use ricerca.Memory.Refcount.{Objects, init, borrow, drop}
use ricerca.Cookie.Defs.{EntryCookie}
use ricerca.Containers.Intmap.{Intmap, insert, remove}

-- struct user_shm_owner, but for its counts and its spinlock.
pub record ShmOwner : Type 0 where
  pub contents : List ℕ
  pub size : ℕ
  pub key : ℕ
  pub ro_key : ℕ
  pub rw_key : ℕ

-- user_shm_intmap, user_shm_last_allocated_id, the reference counts, and the objects by address,
-- `none` where there is none or its memory has been given back.
pub record Shms : Type 0 where
  pub intmap : Intmap
  pub last_allocated_id : ℕ
  pub objects : Objects
  pub owners : ℕ → Option ShmOwner

abbrev pub put_owner : (ℕ → Option ShmOwner) → ℕ → Option ShmOwner → ℕ → Option ShmOwner
put_owner f p o q = if p == q then o else f q

-- &shm->ref
abbrev pub ref_of : ℕ → ℕ
ref_of shm = shm + 16

abbrev pub zeros : ℕ → List ℕ
zeros zero = []
zeros (suc n) = 0 ∷ zeros n

-- user_shm_dealloc, which gives the memory back.
unfoldable pub dealloc : ℕ → Shms → Shms
dealloc shm s = record s { owners = put_owner s.owners shm none }

-- MEM_REF_DROP(&shm->ref): the last reference calls user_shm_dealloc.
unfoldable pub drop_ref : ℕ → Shms → Shms
unfolding dealloc
drop_ref shm s =
    let rc = s.objects.rc (ref_of shm) in
    let s' : Shms = record s { objects = drop (ref_of shm) s.objects } in
    if rc.refcount == 1 && rc.drop then dealloc shm s' else s'

-- user_shm_shutdown
unfoldable pub shutdown : (shm : ℕ) → ShmOwner → Shms → Shms
shutdown shm o s =
    drop_ref shm (record s { intmap = remove s.intmap (record { addr = shm; key = o.key }) })

-- user_shm_create; `mem` and `alloc` are the outcomes of its two allocations. On success the result
-- is the owner object and its number.
unfoldable pub create :
    (mem : Option ℕ) (alloc : Bool) (size : ℕ) → EntryCookie → Shms → Status × Option (ℕ × ℕ) × Shms
create none alloc size cookie s = (out_of_memory, none, s)
create (some shm) false size cookie s = (out_of_memory, none, s)
create (some shm) true size cookie s =
    let id = s.last_allocated_id in
    (
      success,
      some (shm, id),
      record {
        intmap = insert s.intmap (record { addr = shm; key = id });
        last_allocated_id = (id + 1) % size_mod;
        objects = init shm true (init (ref_of shm) true s.objects);
        owners = put_owner s.owners shm (
            some (record {
              contents = zeros size;
              size = size;
              key = id;
              ro_key = cookie.key;
              rw_key = cookie.key;
            }));
      },
    )

-- user_shm_create_ref
unfoldable pub create_ref : (shm : ℕ) → Shms → Shms
create_ref shm s = record s { objects = borrow (ref_of shm) s.objects }

-- user_shm_check_bounds
unfoldable pub check_bounds : ShmOwner → (offset len : ℕ) → Bool
check_bounds shm offset len =
    if ltb (offset + len) size_mod then leb (offset + len) shm.size else false

-- mem_copy_from_user into an object and mem_copy_to_user out of it, which never fail; the result is
-- `none` where the copy leaves the object.
unfoldable pub copy_from_user : List ℕ → (offset : ℕ) (bytes : List ℕ) → Option (Bool × List ℕ)
copy_from_user mem offset bytes =
    if leb (offset + length bytes) (length mem)
    then some (true, overwrite mem offset bytes)
    else none

unfoldable pub copy_to_user : List ℕ → (offset len : ℕ) → Option (Bool × List ℕ)
copy_to_user mem offset len =
    if leb (offset + len) (length mem) then some (true, slice mem offset len) else none

abbrev pub with_owner : Shms → ℕ → ShmOwner → Shms
with_owner s shm o = record s { owners = put_owner s.owners shm (some o) }

-- What the four calls below do once the object is known: check the bounds and copy. `done` is what
-- they do before they return.
unfoldable pub write_at :
    (shm : ℕ)
    → ShmOwner
    → (offset : ℕ) (bytes : List ℕ) (done : Shms → Shms) → Shms
    → Outcome Shms Status
unfolding check_bounds copy_from_user
write_at shm o offset bytes done s =
    if check_bounds o offset (length bytes)
    then elim (copy_from_user o.contents offset bytes) [
      | none ↦ fault
      | some (ok, contents) ↦
          let s' = with_owner s shm (record o { contents = contents }) in
          if ok then returns success (done s') else returns invalid_mem (done s')
    ]
    else returns out_of_bounds (done s)

unfoldable pub read_at :
    ShmOwner → (offset len : ℕ) (done : Shms → Shms) → Shms → Outcome Shms (Status × List ℕ)
unfolding check_bounds copy_to_user
read_at o offset len done s =
    if check_bounds o offset len
    then elim (copy_to_user o.contents offset len) [
      | none ↦ fault
      | some (ok, bytes) ↦
          if ok then returns (success, bytes) (done s) else returns (invalid_mem, bytes) (done s)
    ]
    else returns (out_of_bounds, []) (done s)

-- user_shm_write_by_ref and user_shm_read_by_ref: `shm` is the object that the reference stands in.
unfoldable pub write_by_ref : (shm offset : ℕ) (bytes : List ℕ) → Shms → Outcome Shms Status
write_by_ref shm offset bytes s = elim (s.owners shm) [
  | none ↦ fault
  | some o ↦ write_at shm o offset bytes (λ s. s) s
]

unfoldable pub read_by_ref : (shm offset len : ℕ) → Shms → Outcome Shms (Status × List ℕ)
read_by_ref shm offset len s = elim (s.owners shm) [
  | none ↦ fault
  | some o ↦ read_at o offset len (λ s. s) s
]
