-- ===== src/Shm/Tests.antt =====
-- Runs of the calls on shared memory, and the theorems at them.
use ricerca.Common.{
  overwrite, slice, ℕ, ◌≡◌, ◌≤◌, ◌<◌, ◌⊎◌, refl, true, ◌||◌, some, [], ◌∷◌, get_elem?,
  if◌then◌else◌, arith, returns,
}
use ricerca.Status.{success, out_of_bounds, security_violation}
use ricerca.Locking.Mutex.Defs.{init as mutex_init}
use ricerca.Memory.Refcount.{Objects}
use ricerca.Cookie.Defs.{EntryCookie}
use ricerca.Cookie.Auth.{grants}
use ricerca.Containers.Intmap.{search, find_key}
use ricerca.Shm.Defs.{
  ShmOwner, Shms, write_by_ref, read_by_ref, write_at, check_bounds, copy_from_user, with_owner,
  create,
}
use ricerca.Shm.ById.{read_by_id}
use ricerca.Shm.Bounds.{IsValid, written, write_by_ref-bounds}
use ricerca.Shm.Access.{Names, read_by_id-grants}

-- Four bytes, written by the holder of key 7 and read by all.
abbrev buffer : ShmOwner
buffer = record { contents = 1 ∷ 2 ∷ 3 ∷ 4 ∷ []; size = 4; key = 5; ro_key = 1; rw_key = 7 }

abbrev objects : Objects
objects = record { rc = λ _. record { refcount = 1; drop = true }; disposed = [] }

abbrev shms : Shms
shms = record {
  intmap = record { buckets_count = 1024; nodes = λ _. record { addr = 400; key = 5 } ∷ [] };
  last_allocated_id = 6;
  objects = objects;
  owners = λ _. some buffer;
}

abbrev cookie : ℕ → EntryCookie
cookie key = record {
  key = key;
  mutex = mutex_init;
  grp_keys = record { items = []; capacity = 0 };
}

buffer-Names : Names shms 5 400 buffer
unfolding search find_key
buffer-Names = record {
  node_key = 5;
  listed = refl;
  owner = refl;
  counted = (ground arith, ground arith);
}

write_end :
    write_by_ref 400 2 (8 ∷ 9 ∷ []) shms
    ≡ returns success (with_owner shms 400 (record buffer { contents = 1 ∷ 2 ∷ 8 ∷ 9 ∷ [] }))
unfolding write_by_ref write_at check_bounds copy_from_user overwrite
write_end = refl

write_behind : write_by_ref 400 3 (8 ∷ 9 ∷ []) shms ≡ returns out_of_bounds shms
unfolding write_by_ref write_at check_bounds
write_behind = refl

write_by_ref-bounds_example :
    ((4 ≤ 4)
      × (write_by_ref 400 2 (8 ∷ 9 ∷ []) shms
          ≡ returns success (with_owner shms 400 (written 400 2 (8 ∷ 9 ∷ []) shms buffer)))
      × IsValid (written 400 2 (8 ∷ 9 ∷ []) shms buffer)
      × (slice (written 400 2 (8 ∷ 9 ∷ []) shms buffer).contents 2 2 ≡ 8 ∷ 9 ∷ [])
      × ((i : ℕ)
          → (i < 2) ⊎ (4 ≤ i)
          → get_elem? (written 400 2 (8 ∷ 9 ∷ []) shms buffer).contents i
            ≡ get_elem? buffer.contents i))
    ⊎ ((4 < 4) × (write_by_ref 400 2 (8 ∷ 9 ∷ []) shms ≡ returns out_of_bounds shms))
write_by_ref-bounds_example =
    write_by_ref-bounds 400 2 (8 ∷ 9 ∷ []) shms buffer (refl, ground arith) refl

read_by_id-grants_example : read_by_id 0 5 2 2 (cookie 3) shms ≡ (
    if grants (cookie 3) 7 || grants (cookie 3) 1
    then read_by_ref 400 2 2 shms
    else returns (security_violation, []) shms)
read_by_id-grants_example =
    read_by_id-grants 0 5 2 (cookie 3) shms 400 buffer 2 (refl, refl) buffer-Names

abbrev created : Shms
unfolding create
created = (create (some 800) true 2 (cookie 3) shms).2

abbrev made : ShmOwner
made = record { contents = 0 ∷ 0 ∷ []; size = 2; key = 6; ro_key = 3; rw_key = 3 }
