-- ===== src/Memory/Refcount.antt =====
-- src/kernel/mem/rc.h, as built without DEBUG: counts of objects by address, wrapping at 64 bits. A
-- disposal callback is recorded where the source calls it.
pub mod Balance
use ricerca.Common.{
  ℕ, zero, suc, ◌+◌, ◌-◌, ◌%◌, ◌≤◌, ◌<◌, ◌≡◌, ◌≢◌, refl, Bool, true, false, ◌&&◌, List, [], ◌∷◌,
  ◌++◌, ◌==◌, if◌then◌else◌, arith, size_mod, size_max,
}

-- `drop` says whether the disposal callback is not NULL.
pub record MemRc : Type 0 where
  pub refcount : ℕ
  pub drop : Bool

-- Every object by address, and the objects whose callback has been called, in order.
pub record Objects : Type 0 where
  pub rc : ℕ → MemRc
  pub disposed : List ℕ

abbrev pub put : (ℕ → MemRc) → ℕ → MemRc → ℕ → MemRc
put f p v q = if p == q then v else f q

-- mem_rc_borrow
unfoldable pub borrow : ℕ → Objects → Objects
borrow obj s = record s {
  rc = put s.rc obj (record (s.rc obj) { refcount = ((s.rc obj).refcount + 1) % size_mod });
}

-- mem_rc_drop
unfoldable pub drop : ℕ → Objects → Objects
drop obj s =
    let old = (s.rc obj).refcount in
    record {
      rc = put s.rc obj (record (s.rc obj) { refcount = (old + size_mod - 1) % size_mod });
      disposed = if old == 1 && (s.rc obj).drop then s.disposed ++ obj ∷ [] else s.disposed;
    }

-- mem_rc_init
unfoldable pub init : ℕ → Bool → Objects → Objects
init obj callback s = record s { rc = put s.rc obj (record { refcount = 1; drop = callback }) }

-- n calls of mem_rc_drop
abbrev pub drops : ℕ → ℕ → Objects → Objects
drops zero obj s = s
drops (suc n) obj s = drops n obj (drop obj s)
