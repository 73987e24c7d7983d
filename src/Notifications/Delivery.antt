-- ===== src/Notifications/Delivery.antt =====
-- A notification that is sent is received once.
use ricerca.Common.{ℕ, ◌≡◌, ◌<◌, refl, false, [], ◌∷◌, arith, size_max, returns}
use ricerca.Status.{success}
use ricerca.Locking.Mutex.Defs.{Task}
use ricerca.Memory.Refcount.{borrow, drop}
use ricerca.Memory.Refcount.Balance.{refs, drop-borrow}
use ricerca.Notifications.Defs.{
  Post, Channel, slot, send_notification_to_core, recieve_notification, raiser_enqueue_nolock,
  handle, put_queue, set_pending, local_global_enqueue, local_global_dequeue,
}

-- A mailbox that is open and has no message or waiter at the slot of a core.
pub record IsQuiet (p : Post) (raiser id : ℕ) : Type 0 where
  pub alive : p.mailbox.is_shut_down ≡ false
  pub no_message : p.mailbox.msg_queue (slot p.mailbox.is_per_cpu id) ≡ []
  pub no_waiter : p.mailbox.task_queue (slot p.mailbox.is_per_cpu id) ≡ []
  pub none_pending : p.pending raiser (slot p.mailbox.is_per_cpu id) ≡ 0
  pub held : 0 < refs p.objects raiser
  pub room : refs p.objects raiser < size_max

module _ (raiser id : ℕ) (p : Post) where
  abbrev place : ℕ
  place = slot p.mailbox.is_per_cpu id

  abbrev channel : Channel
  channel = record { owner = raiser; core = slot p.mailbox.is_per_cpu id }

  -- The message waits in the queue.
  queued : Post
  queued = record p {
    mailbox = record (p.mailbox) {
      msg_queue = put_queue p.mailbox.msg_queue (slot p.mailbox.is_per_cpu id) (channel ∷ []);
    };
    pending = set_pending p.pending raiser (slot p.mailbox.is_per_cpu id) 1;
    objects = borrow raiser p.objects;
  }

  -- The message has been taken out and handled.
  handled : Post
  unfolding queued
  handled = record queued {
    mailbox = record (queued.mailbox) {
      msg_queue = put_queue queued.mailbox.msg_queue (slot p.mailbox.is_per_cpu id) [];
    };
    pending = set_pending queued.pending raiser (slot p.mailbox.is_per_cpu id) 0;
    objects = drop raiser queued.objects;
  }

  send-queued : IsQuiet p raiser id → send_notification_to_core raiser id p ≡ queued
  unfolding send_notification_to_core raiser_enqueue_nolock local_global_enqueue
      local_global_dequeue queued
  send-queued q =
      rw
        (
          send_notification_to_core, q.alive, q.none_pending, raiser_enqueue_nolock, q.no_waiter,
          q.no_message, q.none_pending, q.alive,
        )
        refl

  recieve-queued :
      (me : Task) → recieve_notification me id queued ≡ returns (success, raiser) handled
  unfolding recieve_notification handle local_global_dequeue queued handled
  recieve-queued me = ground arith

  -- On a quiet mailbox a message that is sent is received by the next caller on that core, after
  -- which nothing is pending or queued, and every count is as it was.
  pub recieve-send :
      (me : Task)
      → IsQuiet p raiser id
      → (p' : Post) × (recieve_notification me id (send_notification_to_core raiser id p)
          ≡ returns (success, raiser) p')
        × (p'.pending raiser (slot p.mailbox.is_per_cpu id) ≡ 0)
        × (p'.mailbox.msg_queue (slot p.mailbox.is_per_cpu id) ≡ [])
        × (p'.objects ≡ p.objects)
  unfolding handled queued
  recieve-send me q = (
    handled,
    rw (send-queued q) (recieve-queued me),
    ground arith,
    ground arith,
    drop-borrow raiser p.objects q.held q.room,
  )
