-- ===== src/Universe/Pair.antt =====
-- The operations across two universes, which may be one and the same object.
use ricerca.Common.{
  ℕ, Bool, true, false, Option, none, some, ltb, if◌then◌else◌, Outcome, returns, suspended, fault,
}
use ricerca.Status.{Status, success, invalid_handle, security_violation}
use ricerca.Locking.Mutex.Defs.{Task, lock, unlock}
use ricerca.Memory.Refcount.{Objects, borrow, drop}
use ricerca.Cookie.Defs.{EntryCookie, auth}
use ricerca.Universe.Defs.{
  Universe, placed, refused, invalid, out_of_range, valid, move_in_nolock, check_ref_nolock,
  reclaim,
}

-- The two pointers that a call gets: to one universe, or to two.
pub data Operands : Type 0 where
  same : Universe → Operands
  distinct : (src dst : Universe) → Operands

abbrev pub src : Operands → Universe
src (same u) = u
src (distinct s d) = s

abbrev pub dst : Operands → Universe
dst (same u) = u
dst (distinct s d) = d

abbrev pub set_src : Operands → Universe → Operands
set_src (same u) v = same v
set_src (distinct s d) v = distinct v d

abbrev pub set_dst : Operands → Universe → Operands
set_dst (same u) v = same v
set_dst (distinct s d) v = distinct s v

abbrev pub is_same : Operands → Bool
is_same (same u) = true
is_same (distinct s d) = false

pub record PairWorld : Type 0 where
  pub operands : Operands
  pub objects : Objects

module _ {A : Type 0} where
  -- thread_mutex_lock of one of the two, and what runs behind it.
  unfoldable pub grab_src :
      Task → PairWorld → (PairWorld → Outcome PairWorld A) → Outcome PairWorld A
  grab_src me w body =
      let (m, acquired) = lock me (src w.operands).mutex in
      let w' : PairWorld = record w {
        operands = set_src w.operands (record (src w.operands) { mutex = m });
      } in
      if acquired then body w' else suspended w'

  unfoldable pub grab_dst :
      Task → PairWorld → (PairWorld → Outcome PairWorld A) → Outcome PairWorld A
  grab_dst me w body =
      let (m, acquired) = lock me (dst w.operands).mutex in
      let w' : PairWorld = record w {
        operands = set_dst w.operands (record (dst w.operands) { mutex = m });
      } in
      if acquired then body w' else suspended w'

  -- user_universe_lock_pair: behind the first test there is no return.
  unfoldable pub lock_pair :
      Task → PairWorld → (PairWorld → Outcome PairWorld A) → Outcome PairWorld A
  unfolding grab_src grab_dst
  lock_pair me w body =
      let in_order : PairWorld → Outcome PairWorld A = λ w.
        if ltb (src w.operands).universe_id (dst w.operands).universe_id
        then grab_src me w (λ w. grab_dst me w body)
        else grab_dst me w (λ w. grab_src me w body) in
      if is_same w.operands then grab_src me w in_order else in_order w

abbrev unlock_src : Operands → Operands
unlock_src o = set_src o (record (src o) { mutex = (unlock (src o).mutex).0 })

abbrev unlock_dst : Operands → Operands
unlock_dst o = set_dst o (record (dst o) { mutex = (unlock (dst o).mutex).0 })

-- user_universe_unlock_pair
unfoldable pub unlock_pair : PairWorld → PairWorld
unlock_pair w = record w {
  operands = let o = unlock_src w.operands in if is_same o then o else unlock_dst o;
}

-- user_universe_move_across: the status, and the handle at the destination.
unfoldable pub move_across :
    Task
    → (ids : ℕ → ℕ) (alloc : Bool) → EntryCookie
    → (hsrc : ℕ) → PairWorld
    → Outcome PairWorld (Status × Option ℕ)
move_across me ids alloc cookie hsrc w = lock_pair me w λ w.
    elim (check_ref_nolock (src w.operands) hsrc) [
      | invalid ↦ returns (invalid_handle, none) (unlock_pair w)
      | out_of_range ↦ fault
      | valid c ↦ elim (auth me cookie c.ref.pin_cookie) [
        | suspended _ ↦ suspended w
        | fault ↦ fault
        | returns ok _ ↦
            if ok
            then elim (move_in_nolock ids alloc c.ref (dst w.operands)) [
              | refused status ↦ returns (status, none) (unlock_pair w)
              | placed i u ↦
                  let o = set_dst w.operands u in
                  returns (success, some i)
                    (unlock_pair (record w { operands = set_src o (reclaim hsrc c (src o)) }))
            ]
            else returns (security_violation, none) (unlock_pair w)
      ]
    ]

-- user_universe_borrow_across
unfoldable pub borrow_across :
    Task
    → (ids : ℕ → ℕ) (alloc : Bool) → EntryCookie
    → (hsrc : ℕ) → PairWorld
    → Outcome PairWorld (Status × Option ℕ)
borrow_across me ids alloc cookie hsrc w = lock_pair me w λ w.
    elim (check_ref_nolock (src w.operands) hsrc) [
      | invalid ↦ returns (invalid_handle, none) (unlock_pair w)
      | out_of_range ↦ fault
      | valid c ↦
          let w' : PairWorld = record w { objects = borrow c.ref.ref w.objects } in
          let give_back = λ (w : PairWorld). record w { objects = drop c.ref.ref w.objects } in
          elim (auth me cookie c.ref.pin_cookie) [
            | suspended _ ↦ suspended w'
            | fault ↦ fault
            | returns ok _ ↦
                if ok
                then elim (move_in_nolock ids alloc c.ref (dst w'.operands)) [
                  | refused status ↦ returns (status, none) (give_back (unlock_pair w'))
                  | placed i u ↦
                      returns (success, some i)
                        (unlock_pair (record w' { operands = set_dst w'.operands u }))
                ]
                else returns (security_violation, none) (give_back (unlock_pair w'))
          ]
    ]
