-- ===== src/Locking/Mutex/Fifo.antt =====
-- The order in which the mutex is granted: a log of calls, whatever their interleaving.
use ricerca.Common.{
  ◌≡◌, refl, false, Option, none, some, List, [], ◌∷◌, ◌++◌, if◌then◌else◌, arith, Bool-cases, inl,
  inr,
}
use mathlib.Core.List.{append_assoc, append-nil}
use ricerca.Locking.Mutex.Defs.{Task, Mutex, lock, unlock}

pub data Event : Type 0 where
  locks : Task → Event
  unlocks : Event

-- The tasks that ask for the mutex, in order.
unfoldable pub requests : List Event → List Task
requests [] = []
requests (locks t ∷ es) = t ∷ requests es
requests (unlocks ∷ es) = requests es

abbrev pub to_list : Option Task → List Task
to_list none = []
to_list (some t) = t ∷ []

-- One event: the mutex after it, and the task that owns the mutex by it.
unfoldable pub apply : Event → Mutex → Mutex × List Task
unfolding lock unlock
apply (locks t) m = let (m', acquired) = lock t m in (m', if acquired then t ∷ [] else [])
apply unlocks m = let (m', woken) = unlock m in (m', to_list woken)

-- All events: the final mutex, and the owners in the order in which they get the mutex.
unfoldable pub run : List Event → Mutex → Mutex × List Task
run [] m = (m, [])
run (e ∷ es) m = let (m', now) = apply e m in let (m'', then_) = run es m' in (m'', now ++ then_)

abbrev pub IsQuiet : Mutex → Type 0
IsQuiet m = m.taken ≡ false → m.sleep_queue ≡ []

-- What one call adds to the requests.
request : Event → List Task
request (locks t) = t ∷ []
request unlocks = []

record Fair (m : Mutex) (e : Event) : Type 0 where
  order : (apply e m).1 ++ (apply e m).0.sleep_queue ≡ m.sleep_queue ++ request e
  quiet : IsQuiet (apply e m).0

hand_over-Fair : (q : List Task) {m : Mutex} → m.sleep_queue ≡ q → IsQuiet m → Fair m unlocks
unfolding apply request
hand_over-Fair [] e ok = rw (e, apply) (record { order = ground arith; quiet = λ _. ground arith })
hand_over-Fair (t ∷ q) {m} e ok =
    rw (e, apply)
      (record { order = ground (arith, append-nil (t ∷ q)); quiet = λ p. absurd (ground arith) })

apply-Fair : (e : Event) (m : Mutex) → IsQuiet m → Fair m e
unfolding apply request
apply-Fair unlocks m ok = hand_over-Fair m.sleep_queue refl ok
apply-Fair (locks t) m ok = elim (Bool-cases m.taken) [
  | inl busy ↦ record { order = rw busy; quiet = λ p. absurd (ground arith) }
  | inr free ↦ record { order = ground arith; quiet = λ p. ground arith }
]

requests-cons : (e : Event) (es : List Event) → requests (e ∷ es) ≡ request e ++ requests es
unfolding requests request
requests-cons (locks t) es = refl
requests-cons unlocks es = refl

-- Whatever the tasks call and in whatever order, the mutex goes to them in the order in which they
-- asked for it: the owners in order, then those that still sleep, are the first sleepers and then
-- the requests. The mutex must not be free while somebody sleeps.
pub run_fifo :
    (es : List Event) (m : Mutex)
    → IsQuiet m
    → (run es m).1 ++ (run es m).0.sleep_queue ≡ m.sleep_queue ++ requests es
unfolding run requests
run_fifo [] m ok = simp append-nil
run_fifo (e ∷ es) m ok =
    simp (append_assoc, run_fifo es (apply e m).0 (apply-Fair e m ok).quiet)
      (rw (← append_assoc, (apply-Fair e m ok).order, append_assoc) (rw requests-cons))
