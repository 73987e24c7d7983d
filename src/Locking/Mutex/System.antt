-- ===== src/Locking/Mutex/System.antt =====
-- Tasks that call lock and unlock in any order: who holds the mutex, and who gets it next.
use ricerca.Common.{
  ◌≡◌, ◌≤◌, Bool, true, false, Option, none, some, [], ◌∷◌, ◌==◌, if◌then◌else◌, arith, count,
  count-append, Bool-cases, inl, inr, List, refl,
}
use ricerca.Locking.Mutex.Defs.{Task, Mutex, init, lock, unlock}

-- `holds t`: task t has returned from its lock call, or has been woken, and not yet unlocked.
pub record System : Type 0 where
  pub mutex : Mutex
  pub holds : Task → Bool

abbrev pub mark : (Task → Bool) → Task → Bool → Task → Bool
mark f t b u = if t == u then b else f u

abbrev pub mark_woken : (Task → Bool) → Option Task → Task → Bool
mark_woken f none = f
mark_woken f (some t) = mark f t true

unfoldable pub after_lock : Task → System → System
unfolding lock
after_lock t s =
    let (m, acquired) = lock t s.mutex in
    record { mutex = m; holds = if acquired then mark s.holds t true else s.holds }

unfoldable pub after_unlock : Task → System → System
unfolding unlock
after_unlock t s =
    let (m, woken) = unlock s.mutex in
    record { mutex = m; holds = mark_woken (mark s.holds t false) woken }

-- A task that sleeps or holds the mutex does not call lock; only a holder calls unlock.
pub data Step (s : System) : System → Type 0 where
  locks : (t : Task) → s.holds t ≡ false → count t s.mutex.sleep_queue ≡ 0 → Step s (after_lock t s)
  unlocks : (t : Task) → s.holds t ≡ true → Step s (after_unlock t s)

pub data Reach : System → Type 0 where
  start : Reach (record { mutex = init; holds = λ _. false })
  later : {s t : System} → Reach s → Step s t → Reach t

-- One holder while taken; nobody holds or sleeps while free; nobody sleeps twice or while holding.
pub record IsSound (s : System) : Type 0 where
  pub unique : (t u : Task) → s.holds t ≡ true → s.holds u ≡ true → t ≡ u
  pub owned : s.mutex.taken ≡ true → (t : Task) × (s.holds t ≡ true)
  pub held : (t : Task) → s.holds t ≡ true → s.mutex.taken ≡ true
  pub idle : s.mutex.taken ≡ false → s.mutex.sleep_queue ≡ []
  pub once : (t : Task) → count t s.mutex.sleep_queue ≤ 1
  pub awake : (t : Task) → s.holds t ≡ true → count t s.mutex.sleep_queue ≡ 0

after_lock-IsSound :
    {s : System} (t : Task)
    → s.holds t ≡ false
    → count t s.mutex.sleep_queue ≡ 0
    → IsSound s
    → IsSound (after_lock t s)
unfolding after_lock
after_lock-IsSound {s} t rests out ok = elim (Bool-cases s.mutex.taken) [
  | inl busy ↦ record {
    unique = λ a b p q. ok.unique a b (ground arith) (ground arith);
    owned = λ p. ((ok.owned busy).0, ground (arith, (ok.owned busy).1));
    held = λ a p. ground (arith, ok.held a);
    idle = λ p. ground arith;
    once = λ a. ground (arith, count-append a s.mutex.sleep_queue (t ∷ []), ok.once a);
    awake = λ a p. ground (arith, count-append a s.mutex.sleep_queue (t ∷ []), ok.awake a);
  }
  | inr free ↦ record {
    unique = λ a b p q. ground (arith, ok.held a, ok.held b);
    owned = λ p. (t, ground arith);
    held = λ a p. ground arith;
    idle = λ p. ground arith;
    once = λ a. ground (arith, ok.once a);
    awake = λ a p. ground (arith, ok.idle free);
  }
]

-- The next owner is the head of the queue, which stood in it once.
hand_over-IsSound :
    (q : List Task) {s : System} (t : Task)
    → s.mutex.sleep_queue ≡ q
    → s.holds t ≡ true
    → IsSound s
    → IsSound (after_unlock t s)
unfolding after_unlock
hand_over-IsSound [] {s} t e h ok =
    rw (e, after_unlock)
      (record {
        unique = λ a b p q. ok.unique a b (ground arith) (ground arith);
        owned = λ p. absurd (ground arith);
        held = λ a p. absurd (ground (arith, ok.unique a t));
        idle = λ p. ground arith;
        once = λ a. ground arith;
        awake = λ a p. ground arith;
      })
hand_over-IsSound (w ∷ q) {s} t e h ok =
    rw (e, after_unlock)
      (record {
        unique = λ a b p q. ground (arith, ok.unique a t, ok.unique b t);
        owned = λ p. (w, ground arith);
        held = λ a p. ground (arith, ok.held t h);
        idle = λ p. absurd (ground (arith, ok.held t h));
        once = λ a. ground (arith, ok.once a);
        awake = λ a p. ground (arith, ok.once a, ok.unique a t);
      })

-- No call breaks the mutex: it is handed over to one task at a time and is never lost.
pub Step-IsSound : {s t : System} → Step s t → IsSound s → IsSound t
Step-IsSound {s} (locks t rests out) ok = after_lock-IsSound t rests out ok
Step-IsSound {s} (unlocks t h) ok = hand_over-IsSound s.mutex.sleep_queue t refl h ok

-- Whatever the tasks do from THREAD_MUTEX_INIT on, the mutex is sound: at most one task holds it,
-- some task holds it exactly while it is taken, and no task sleeps on it while it is free.
pub Reach-IsSound : {s : System} → Reach s → IsSound s
Reach-IsSound start = record {
  unique = λ a b p q. absurd (ground arith);
  owned = λ p. absurd (ground arith);
  held = λ a p. absurd (ground arith);
  idle = λ p. refl;
  once = λ a. ground arith;
  awake = λ a p. refl;
}
Reach-IsSound (later r st) = Step-IsSound st (Reach-IsSound r)
