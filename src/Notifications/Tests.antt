-- ===== src/Notifications/Tests.antt =====
-- Runs of sending and receiving, and the theorem at one.
use ricerca.Common.{◌≡◌, refl, true, false, [], arith, returns}
use ricerca.Status.{success}
use ricerca.Notifications.Defs.{
  Post, send_notification_to_core, recieve_notification, raiser_enqueue_nolock,
  local_global_dequeue, local_global_enqueue,
}
use ricerca.Notifications.Delivery.{recieve-send}

-- One queue per core, and the raiser at 300 with nothing sent.
abbrev post : Post
post = record {
  mailbox = record {
    msg_queue = λ _. [];
    task_queue = λ _. [];
    is_shut_down = false;
    is_per_cpu = true;
  };
  pending = λ _ _. 0;
  objects = record { rc = λ _. record { refcount = 2; drop = true }; disposed = [] };
  woken = [];
}

send_twice :
    (send_notification_to_core 300 1 (send_notification_to_core 300 1 post)).pending 300 1 ≡ 2
unfolding send_notification_to_core raiser_enqueue_nolock local_global_dequeue local_global_enqueue
send_twice = refl

recieve-send_example :
    (p' : Post) × (recieve_notification 7 1 (send_notification_to_core 300 1 post)
      ≡ returns (success, 300) p')
    × (p'.pending 300 1 ≡ 0)
    × (p'.mailbox.msg_queue 1 ≡ [])
    × (p'.objects ≡ post.objects)
recieve-send_example = recieve-send 300 1 post 7 (record {
  alive = refl;
  no_message = refl;
  no_waiter = refl;
  none_pending = refl;
  held = ground arith;
  room = ground arith;
})
