-- ===== src/Containers/Queue/Tests.antt =====
-- Runs of the queue, and the theorems at them.
use ricerca.Common.{ℕ, ◌≡◌, ◌⊎◌, refl, none, some, List, [], ◌∷◌}
use ricerca.Containers.Queue.{Queue, enqueue, dequeue, set_next}
use ricerca.Containers.Queue.Fifo.{Chain, Holds, enqueue-Holds, dequeue-Holds}

-- The nodes 5 and 9.
abbrev pair : Queue
pair = record { head = some 5; tail = some 9; next = set_next (λ _. none) 5 (some 9) }

abbrev nodes : List ℕ
nodes = 5 ∷ 9 ∷ []

pair-Holds : Holds pair nodes
unfolding Holds Chain
pair-Holds = (refl, 9, refl, (refl, (refl, refl)))

dequeue-pair : (dequeue pair).0 ≡ some 5
unfolding dequeue
dequeue-pair = refl

enqueue-Holds_example : (q : Queue) × (enqueue pair 7 ≡ some q) × Holds q (5 ∷ 9 ∷ 7 ∷ [])
enqueue-Holds_example = enqueue-Holds pair 7 nodes pair-Holds refl

dequeue-Holds_example :
    ((nodes ≡ []) × (dequeue pair ≡ (none, pair)))
    ⊎ ((a : ℕ) × (rest : List ℕ) × (nodes ≡ a ∷ rest)
        × ((dequeue pair).0 ≡ some a)
        × Holds (dequeue pair).1 rest)
dequeue-Holds_example = dequeue-Holds pair nodes pair-Holds
