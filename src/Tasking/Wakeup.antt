-- ===== src/Tasking/Wakeup.antt =====
-- Waking a halted core, and the length of its time slices.
use ricerca.Common.{
  ℕ, ◌-◌, ◌/◌, ◌≡◌, ◌≤◌, ◌<◌, refl, false, none, some, arith, size_mod, if◌then◌else◌, ◌||◌, ◌⊎◌,
  inl, inr, Option-cases, ltb,
}
use ricerca.Containers.PairingHeap.{Hook, nil, node, get_min, insert, meld, remove_min}
use ricerca.Containers.PairingHeap.Order.{Above}
use ricerca.Tasking.Defs.{
  Task, Localsched, cmp_unfairness, enqueue_nolock, enqueue_signal_nolock, try_dequeue_nolock,
  try_get_nolock, idle_round, wake_up, ipi_dummy, pick_timeslice_len, minus,
}

-- A wake-up sends an IPI to a core that is marked idle. Where an IPI has come to a halted core while
-- its queue was empty, the core halts again without that mark: the next wake-up sends no IPI, and the
-- core stays halted with the task in its queue.
pub wake_up_unsignalled :
    (task later freq : ℕ) (s : Localsched)
    → s.heap ≡ nil
    → s.current_task ≡ none
    → let r = wake_up task (idle_round later freq (ipi_dummy s)) in
      ((wake_up task s).ipi ≡ (s.idle || s.ipi))
      × (r.ipi ≡ false)
      × (r.current_task ≡ none)
      × (try_get_nolock r ≡ some task)
unfolding wake_up enqueue_signal_nolock enqueue_nolock idle_round try_dequeue_nolock ipi_dummy
    try_get_nolock insert meld remove_min get_min
wake_up_unsignalled task later freq s empty halted = ground (arith, empty, halted)

get_min-Above :
    (tasks : ℕ → Task) (a b : ℕ) (h : Hook ℕ)
    → Above (cmp_unfairness tasks) a h
    → get_min h ≡ some b
    → (tasks a).unfairness ≤ (tasks b).unfairness
unfolding get_min
get_min-Above tasks a b nil above e = absurd (ground (arith, e))
get_min-Above tasks a b (node c d n) (le, _, _) e = ground (arith, le, e)

minus-exact : (a b : ℕ) → b ≤ a → a < size_mod → minus a b ≡ a - b
minus-exact a b le fits = omega (arith, le, fits)

served-first :
    (s : Localsched) (task other : ℕ)
    → Above (cmp_unfairness s.tasks) task s.heap
    → try_get_nolock s ≡ some other
    → (s.tasks task).unfairness ≤ (s.tasks other).unfairness
unfolding try_get_nolock
served-first s task other above e = get_min-Above s.tasks task other s.heap above e

abbrev pub max : ℕ → ℕ → ℕ
max a b = if ltb a b then b else a

-- The slice of a task that no waiting one comes before: the time until the next one is as unfair, at
-- least 10000; where none waits, 20000. The difference never wraps round.
pick_timeslice_len-exact :
    (freq task : ℕ) (s : Localsched)
    → Above (cmp_unfairness s.tasks) task s.heap
    → ((t : ℕ) → (s.tasks t).unfairness < size_mod)
    → ((try_get_nolock s ≡ none) × (pick_timeslice_len freq (s.tasks task).unfairness s ≡ 20000))
      ⊎ ((other : ℕ) × (try_get_nolock s ≡ some other)
          × ((s.tasks task).unfairness ≤ (s.tasks other).unfairness)
          × (pick_timeslice_len freq (s.tasks task).unfairness s
              ≡ max 10000 (((s.tasks other).unfairness - (s.tasks task).unfairness) / freq)))
unfolding pick_timeslice_len
pick_timeslice_len-exact freq task s above fits = elim (Option-cases (try_get_nolock s)) [
  | inl e ↦ inl (e, rw (pick_timeslice_len, e) refl)
  | inr (other, e) ↦
      let le = served-first s task other above e in
      inr (
        other,
        e,
        le,
        rw
            (
              pick_timeslice_len,
              e,
              minus-exact (s.tasks other).unfairness (s.tasks task).unfairness le (fits other),
            )
            (ground arith),
      )
]
