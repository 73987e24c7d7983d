-- ===== src/Containers/Queue.antt =====
-- src/kernel/lib/queue.h over the memory of its nodes: `next` is the field of the node at an address,
-- and `none` is NULL.
pub mod Fifo
mod Tests
use ricerca.Common.{ℕ, Option, none, some, ◌==◌, if◌then◌else◌}

-- struct queue_node, by address
abbrev pub QueueNode : Type 0
QueueNode = Option ℕ

-- struct queue, and the memory that its nodes lie in.
pub record Queue : Type 0 where
  pub head : Option ℕ
  pub tail : Option ℕ
  pub next : ℕ → QueueNode

-- node->next = v
abbrev pub set_next : (ℕ → QueueNode) → ℕ → QueueNode → ℕ → QueueNode
set_next f node v at = if node == at then v else f at

-- queue_enqueue; the result is `none` where it writes through a tail that is NULL.
unfoldable pub enqueue : Queue → ℕ → Option Queue
enqueue queue node =
    let next' = set_next queue.next node none in
    elim queue.head [
      | none ↦ some (record { head = some node; tail = some node; next = next' })
      | some _ ↦ elim queue.tail [
        | none ↦ none
        | some t ↦ some (record queue { tail = some node; next = set_next next' t (some node) })
      ]
    ]

-- queue_dequeue: the node taken out.
unfoldable pub dequeue : Queue → Option ℕ × Queue
dequeue queue = elim queue.head [
  | none ↦ (none, queue)
  | some result ↦ elim (queue.next result) [
    | none ↦ (some result, record queue { head = none; tail = none })
    | some n ↦ (some result, record queue { head = some n })
  ]
]
