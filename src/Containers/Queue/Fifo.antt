-- ===== src/Containers/Queue/Fifo.antt =====
-- A queue in memory behaves as the sequence of its nodes.
use ricerca.Common.{ℕ, ◌≡◌, refl, none, some, List, [], ◌∷◌, ◌++◌, arith, count, ◌⊎◌, inl, inr}
use ricerca.Containers.Queue.{Queue, QueueNode, set_next, enqueue, dequeue}

-- From the node `a` the pointers lead through `rest` to the last node `t`.
unfoldable pub Chain : (ℕ → QueueNode) → ℕ → List ℕ → ℕ → Type 0
Chain next a [] t = (a ≡ t) × (next a ≡ none)
Chain next a (b ∷ rest) t = (next a ≡ some b) × Chain next b rest t

-- The queue holds these nodes, from head to tail.
unfoldable pub Holds : Queue → List ℕ → Type 0
unfolding Chain
Holds q [] = q.head ≡ none
Holds q (a ∷ rest) = (q.head ≡ some a) × (t : ℕ) × (q.tail ≡ some t) × Chain q.next a rest t

Chain-end :
    (next : ℕ → QueueNode) (a : ℕ) (rest : List ℕ) (t : ℕ) → Chain next a rest t → next t ≡ none
unfolding Chain
Chain-end next a [] t (e, n) = ground arith
Chain-end next a (b ∷ rest) t (_, c) = Chain-end next b rest t c

Chain-snoc :
    (next : ℕ → QueueNode) (a : ℕ) (rest : List ℕ) (t node : ℕ)
    → Chain next a rest t
    → count node (a ∷ rest) ≡ 0
    → Chain (set_next (set_next next node none) t (some node)) a (rest ++ node ∷ []) node
unfolding Chain
Chain-snoc next a [] t node (e, n) fresh = (ground arith, (refl, ground arith))
Chain-snoc next a (b ∷ rest) t node (e, c) fresh =
    (ground (arith, Chain-end next b rest t c), Chain-snoc next b rest t node c (ground arith))

-- Enqueueing a node that the queue does not hold puts it behind the others.
pub enqueue-Holds :
    (q : Queue) (node : ℕ) (nodes : List ℕ)
    → Holds q nodes
    → count node nodes ≡ 0
    → (q' : Queue) × (enqueue q node ≡ some q') × Holds q' (nodes ++ node ∷ [])
unfolding enqueue Holds Chain
enqueue-Holds q node [] h fresh = (
  record { head = some node; tail = some node; next = set_next q.next node none },
  rw (enqueue, h) refl,
  (refl, node, refl, (refl, ground arith)),
)
enqueue-Holds q node (a ∷ rest) (h, t, e, c) fresh = (
  record {
    head = some a;
    tail = some node;
    next = set_next (set_next q.next node none) t (some node);
  },
  rw (enqueue, h, e, h) refl,
  (refl, node, refl, Chain-snoc q.next a rest t node c fresh),
)

-- Dequeueing gives the first node, and NULL from an empty queue, and leaves the others in order.
pub dequeue-Holds :
    (q : Queue) (nodes : List ℕ)
    → Holds q nodes
    → ((nodes ≡ []) × (dequeue q ≡ (none, q)))
      ⊎ ((a : ℕ) × (rest : List ℕ) × (nodes ≡ a ∷ rest)
          × ((dequeue q).0 ≡ some a)
          × Holds (dequeue q).1 rest)
unfolding dequeue Holds Chain
dequeue-Holds q [] h = inl (refl, ground arith)
dequeue-Holds q (a ∷ []) (h, t, e, (l, n)) =
    inr (a, [], refl, rw (dequeue, h, n) refl, rw (dequeue, h, n) refl)
dequeue-Holds q (a ∷ b ∷ rest) (h, t, e, (n, c)) =
    inr (a, b ∷ rest, refl, rw (dequeue, h, n) refl, rw (dequeue, h, n) (refl, t, e, c))
