-- ===== src/Universe/Single.antt =====
-- The operations on one universe. Each takes and gives back the universe's mutex as the source does;
-- `me` is the calling task.
use ricerca.Common.{
  ℕ, Bool, true, ◌||◌, Option, none, some, ◌==◌, if◌then◌else◌, Outcome, returns, suspended, fault,
}
use ricerca.Status.{Status, success, invalid_handle, security_violation}
use ricerca.Locking.Mutex.Defs.{Task, lock, unlock}
use ricerca.Memory.Refcount.{Objects, borrow, drop}
use ricerca.Cookie.Defs.{EntryCookie, GroupCookie, universal, auth}
use ricerca.Universe.Defs.{
  Universe, Ref, Cell, ObjType, placed, refused, invalid, out_of_range, valid, move_in_nolock,
  check_ref_nolock, reclaim, repin,
}

-- One universe and the reference counts of all objects.
pub record World : Type 0 where
  pub universe : Universe
  pub objects : Objects

module _ {ℓ} {A : Type ℓ} where
  -- thread_mutex_lock(&universe->lock), and what runs behind it.
  unfoldable pub locked : Task → World → (World → Outcome World A) → Outcome World A
  unfolding lock
  locked me w body =
      let (m, acquired) = lock me w.universe.mutex in
      let w' : World = record w { universe = record (w.universe) { mutex = m } } in
      if acquired then body w' else suspended w'

  -- if (!user_universe_check_ref_nolock(universe, cell)) { unlock; return USER_STATUS_INVALID_HANDLE; }
  unfoldable pub checked :
      ℕ → World → (bad : Outcome World A) → (Cell → Outcome World A) → Outcome World A
  checked cell w bad body = elim (check_ref_nolock w.universe cell) [
    | invalid ↦ bad
    | out_of_range ↦ fault
    | valid c ↦ body c
  ]

  -- user_unpinned_for(ref, cookie), which may sleep on the cookie's own mutex.
  unfoldable pub authorized :
      Task → EntryCookie → Ref → World → (denied allowed : Outcome World A) → Outcome World A
  authorized me cookie ref w denied allowed = elim (auth me cookie ref.pin_cookie) [
    | returns ok _ ↦ if ok then allowed else denied
    | suspended _ ↦ suspended w
    | fault ↦ fault
  ]

-- thread_mutex_unlock(&universe->lock)
unfoldable pub unlocked : World → World
unfolding unlock
unlocked w = record w { universe = record (w.universe) { mutex = (unlock w.universe.mutex).0 } }

abbrev pub with_universe : World → Universe → World
with_universe w u = record w { universe = u }

-- user_universe_move_in: the status, and the cell on success.
unfoldable pub move_in :
    Task → (ids : ℕ → ℕ) (alloc : Bool) → Ref → World → Outcome World (Status × Option ℕ)
move_in me ids alloc ref w = locked me w λ w. elim (move_in_nolock ids alloc ref w.universe) [
  | placed i u ↦ returns (success, some i) (unlocked (with_universe w u))
  | refused status ↦ returns (status, none) (unlocked w)
]

-- The cell that has just been filled with `ref` is given up again.
abbrev pub filled : Ref → Cell
filled ref = record { in_use = true; ref = ref }

-- user_universe_move_in_pair; each store has its own allocation outcome.
unfoldable pub move_in_pair :
    Task
    → (ids : ℕ → ℕ) (alloc0 alloc1 : Bool) → Ref
    → Ref
    → World
    → Outcome World (Status × Option (ℕ × ℕ))
move_in_pair me ids alloc0 alloc1 ref0 ref1 w = locked me w λ w.
    elim (move_in_nolock ids alloc0 ref0 w.universe) [
      | refused status ↦ returns (status, none) (unlocked w)
      | placed i u ↦ elim (move_in_nolock ids alloc1 ref1 u) [
        | refused status ↦
            returns (status, none) (unlocked (with_universe w (reclaim i (filled ref0) u)))
        | placed j u' ↦ returns (success, some (i, j)) (unlocked (with_universe w u'))
      ]
    ]

-- user_universe_drop_cell
unfoldable pub drop_cell : Task → EntryCookie → (cell : ℕ) → World → Outcome World Status
drop_cell me cookie cell w = locked me w λ w.
    checked cell w (returns invalid_handle (unlocked w)) λ c.
      authorized me cookie c.ref w (returns security_violation (unlocked w)) (
        let w' : World = unlocked (with_universe w (reclaim cell c w.universe)) in
        returns success (record w' { objects = drop c.ref.ref w'.objects }))

-- user_universe_borrow_out: the buffer gets the type and the object, not the pin.
unfoldable pub borrow_out :
    Task → (cell : ℕ) → World → Outcome World (Status × Option (ObjType × ℕ))
borrow_out me cell w = locked me w λ w.
    checked cell w (returns (invalid_handle, none) (unlocked w)) λ c.
      returns (success, some (c.ref.type, c.ref.ref))
        (unlocked (record w { objects = borrow c.ref.ref w.objects }))

-- user_universe_move_out
unfoldable pub move_out : Task → (cell : ℕ) → World → Outcome World (Status × Option Ref)
move_out me cell w = locked me w λ w.
    checked cell w (returns (invalid_handle, none) (unlocked w))
      λ c. returns (success, some c.ref) (unlocked (with_universe w (reclaim cell c w.universe)))

-- The four pinning calls: the new pin `key` is set if the old one is in the list that `may` tests.
unfoldable pub pin_if :
    Task → (handle : ℕ) (may : ℕ → Bool) (key : ℕ) → World → Outcome World Status
pin_if me handle may key w = locked me w λ w.
    checked handle w (returns invalid_handle (unlocked w)) λ c.
      if may c.ref.pin_cookie
      then returns success (unlocked (with_universe w (repin handle c key w.universe)))
      else returns security_violation (unlocked w)

-- user_universe_unpin
unfoldable pub unpin : Task → EntryCookie → (handle : ℕ) → World → Outcome World Status
unpin me cookie handle = pin_if me handle (λ pin. pin == cookie.key || pin == universal) universal

-- user_universe_pin
unfoldable pub pin : Task → EntryCookie → (handle : ℕ) → World → Outcome World Status
pin me cookie handle = pin_if me handle (λ pin. pin == universal || pin == cookie.key) cookie.key

-- user_universe_unpin_from_group
unfoldable pub unpin_from_group :
    Task → EntryCookie → GroupCookie → (handle : ℕ) → World → Outcome World Status
unpin_from_group me entry group handle =
    pin_if me handle (λ pin. pin == group.key || pin == universal || pin == entry.key) universal

-- user_universe_pin_to_group
unfoldable pub pin_to_group :
    Task → EntryCookie → GroupCookie → (handle : ℕ) → World → Outcome World Status
pin_to_group me entry group handle =
    pin_if me handle (λ pin. pin == universal || pin == group.key || pin == entry.key) group.key
