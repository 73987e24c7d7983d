-- ===== src/Locking/Spinlock/Defs.antt =====
-- src/kernel/thread/locking/spinlock.c and spinlock.h: the atomic accesses of the cores that grab and
-- ungrab one spinlock, in any order. A core does not grab a spinlock that it holds.
use ricerca.Common.{ℕ, ◌+◌, ◌%◌, ◌<◌, ◌≡◌, Bool, true, ◌==◌, if◌then◌else◌, size_mod}

-- struct thread_spinlock
pub record Spinlock : Type 0 where
  pub current : ℕ
  pub allocated : ℕ

-- THREAD_SPINLOCK_INIT
abbrev pub spinlock_init : Spinlock
spinlock_init = record { current = 0; allocated = 0 }

-- ATOMIC_FETCH_INCREMENT_REL of thread_spinlock_grab: the ticket, and the lock.
unfoldable pub fetch_ticket : Spinlock → ℕ × Spinlock
fetch_ticket s = (s.allocated, record s { allocated = (s.allocated + 1) % size_mod })

-- The test of the loop of thread_spinlock_grab: whether it ends.
unfoldable pub is_turn : (ticket : ℕ) → Spinlock → Bool
is_turn ticket s = s.current == ticket

-- ATOMIC_RELEASE_STORE of thread_spinlock_ungrab
unfoldable pub store_next : (current : ℕ) → Spinlock → Spinlock
store_next current s = record s { current = (current + 1) % size_mod }

-- Where a core is: outside, in the loop of thread_spinlock_grab with its ticket, behind it, or in
-- thread_spinlock_ungrab with the value that it has loaded.
pub data Core : Type 0 where
  outside : Core
  waiting : ℕ → Core
  inside : Core
  leaving : ℕ → Core

abbrev pub put_core : (i : ℕ) → Core → (ℕ → Core) → ℕ → Core
put_core i c cores j = if j == i then c else cores j

-- One access by one of the n cores.
pub data Step (n : ℕ) : Spinlock → (ℕ → Core) → Spinlock → (ℕ → Core) → Type 0 where
  fetches :
      {s : Spinlock} {cores : ℕ → Core} (i : ℕ)
      → i < n
      → cores i ≡ outside
      → Step n s cores (fetch_ticket s).1 (put_core i (waiting (fetch_ticket s).0) cores)
  enters :
      {s : Spinlock} {cores : ℕ → Core} (i ticket : ℕ)
      → i < n
      → cores i ≡ waiting ticket
      → is_turn ticket s ≡ true
      → Step n s cores s (put_core i inside cores)
  loads :
      {s : Spinlock} {cores : ℕ → Core} (i : ℕ)
      → i < n
      → cores i ≡ inside
      → Step n s cores s (put_core i (leaving s.current) cores)
  stores :
      {s : Spinlock} {cores : ℕ → Core} (i current : ℕ)
      → i < n
      → cores i ≡ leaving current
      → Step n s cores (store_next current s) (put_core i outside cores)

pub data Reach (n : ℕ) : Spinlock → (ℕ → Core) → Type 0 where
  begin : Reach n spinlock_init (λ i. outside)
  later :
      {s s' : Spinlock} {cores cores' : ℕ → Core}
      → Reach n s cores
      → Step n s cores s' cores'
      → Reach n s' cores'
