-- ===== src/Locking/Spinlock/Tests.antt =====
-- Runs of the spinlock of src/kernel/thread/locking/spinlock.c, and uses of the theorems.
use ricerca.Common.{ℕ, ◌^◌, ◌-◌, ◌≡◌, refl, arith}
use ricerca.Locking.Spinlock.Defs.{
  fetch_ticket, is_turn, Core, outside, waiting, inside, put_core, fetches, enters, begin, later,
}
use ricerca.Locking.Spinlock.Safety.{IsOrdered, Reach-IsOrdered}

-- A lock whose counters wrap.
wrapped :
    (fetch_ticket (record { current = 2 ^ 64 - 1; allocated = 2 ^ 64 - 1 })).1
    ≡ record { current = 2 ^ 64 - 1; allocated = 0 }
unfolding fetch_ticket
wrapped = refl

abbrev one_waits : ℕ → Core
one_waits = put_core 0 inside (put_core 1 (waiting 1) (put_core 0 (waiting 0) (λ i. outside)))

Reach-IsOrdered_example : IsOrdered 2 (record { current = 0; allocated = 2 }) one_waits
unfolding fetch_ticket is_turn
Reach-IsOrdered_example = Reach-IsOrdered (omega arith) (
    later (later (later begin (fetches 0 (omega arith) refl)) (fetches 1 (omega arith) refl))
      (enters 0 0 (omega arith) refl refl))
