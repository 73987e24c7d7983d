-- ===== src/Notifications/Defs.antt =====
-- A mailbox with its raisers' channels, and the calls on it. The calls run under the mailbox's
-- spinlock, so each is one step, and receiving is two where the caller sleeps in between.
use ricerca.Common.{
  ℕ, zero, suc, ◌+◌, ◌-◌, ◌%◌, Bool, true, false, Option, none, some, List, [], ◌∷◌, ◌++◌, ◌==◌,
  if◌then◌else◌, size_mod, Outcome, returns, suspended,
}
use ricerca.Status.{Status, success, out_of_memory}
use ricerca.Locking.Mutex.Defs.{Task}
use ricerca.Memory.Refcount.{Objects, init, borrow, drop}

-- struct user_raiser_channel: the raiser that owns it, and the core that it is for, 0 where the
-- mailbox has one queue for all.
pub record Channel : Type 0 where
  pub owner : ℕ
  pub core : ℕ

-- struct user_mailbox, but for its counts and its spinlock: one queue of each kind per core, or one
-- at index 0. A waiting task stands for its struct user_wait_queue_node.
pub record Mailbox : Type 0 where
  pub msg_queue : ℕ → List Channel
  pub task_queue : ℕ → List Task
  pub is_shut_down : Bool
  pub is_per_cpu : Bool

-- The mailbox, the `pending` count of each channel, the reference counts, and the tasks that have
-- been woken, each with the channel that its waker has left it.
pub record Post : Type 0 where
  pub mailbox : Mailbox
  pub pending : ℕ → ℕ → ℕ
  pub objects : Objects
  pub woken : List (Task × Channel)

abbrev pub slot : Bool → ℕ → ℕ
slot is_per_cpu id = if is_per_cpu then id else 0

module _ {A : Type 0} where
  abbrev pub put_queue : (ℕ → List A) → ℕ → List A → ℕ → List A
  put_queue f i q j = if i == j then q else f j

  -- user_local_global_enqueue
  unfoldable pub local_global_enqueue : (ℕ → List A) → A → (is_per_cpu : Bool) (id : ℕ) → ℕ → List A
  local_global_enqueue queue node is_per_cpu id =
      put_queue queue (slot is_per_cpu id) (queue (slot is_per_cpu id) ++ node ∷ [])

  -- user_local_global_dequeue
  unfoldable pub local_global_dequeue :
      (ℕ → List A) → (is_per_cpu : Bool) (id : ℕ) → Option A × (ℕ → List A)
  local_global_dequeue queue is_per_cpu id = elim (queue (slot is_per_cpu id)) [
    | [] ↦ (none, queue)
    | node ∷ rest ↦ (some node, put_queue queue (slot is_per_cpu id) rest)
  ]

-- user_create_mailbox; the flags are the outcomes of the allocations, the last two being made for a
-- mailbox with one queue per core only.
unfoldable pub create_mailbox : (mem tasks msgs percpu : Bool) → Status × Option Mailbox
create_mailbox false tasks msgs percpu = (out_of_memory, none)
create_mailbox true tasks msgs percpu =
    let made : Mailbox = record {
      msg_queue = λ _. [];
      task_queue = λ _. [];
      is_shut_down = false;
      is_per_cpu = percpu;
    } in
    if percpu
    then if tasks
      then if msgs then (success, some made) else (out_of_memory, none)
      else (out_of_memory, none)
    else (success, some made)

abbrev pub set_pending : (ℕ → ℕ → ℕ) → ℕ → ℕ → ℕ → ℕ → ℕ → ℕ
set_pending f raiser core n r c = if raiser == r then if core == c then n else f r c else f r c

-- user_raiser_enqueue_nolock
unfoldable pub raiser_enqueue_nolock : (raiser id : ℕ) → Post → Post
raiser_enqueue_nolock raiser id p =
    let m = p.mailbox in
    let channel : Channel = record { owner = raiser; core = slot m.is_per_cpu id } in
    let objects' = borrow raiser p.objects in
    let (waiter, tasks) = local_global_dequeue m.task_queue m.is_per_cpu id in
    elim waiter [
      | some t ↦ record p {
        mailbox = record m { task_queue = tasks };
        objects = objects';
        woken = p.woken ++ (t, channel) ∷ [];
      }
      | none ↦ record p {
        mailbox = record m { msg_queue = local_global_enqueue m.msg_queue channel m.is_per_cpu id };
        objects = objects';
      }
    ]

-- user_send_notification_to_core
unfoldable pub send_notification_to_core : (raiser id : ℕ) → Post → Post
send_notification_to_core raiser id p =
    let core' = slot p.mailbox.is_per_cpu id in
    let n = (p.pending raiser core' + 1) % size_mod in
    let p' : Post = record p { pending = set_pending p.pending raiser core' n } in
    if p.mailbox.is_shut_down then p else if n == 1 then raiser_enqueue_nolock raiser id p' else p'

-- The end of user_recieve_notification, with the channel that was found or left by the waker. The
-- result is the raiser whose notification is copied out.
unfoldable pub handle : (id : ℕ) → Channel → Post → (Status × ℕ) × Post
handle id channel p =
    let raiser = channel.owner in
    let n = (p.pending raiser channel.core + size_mod - 1) % size_mod in
    let p' : Post = record p { pending = set_pending p.pending raiser channel.core n } in
    let p'' = if n == 0 then p' else raiser_enqueue_nolock raiser id p' in
    ((success, raiser), record p'' { objects = drop raiser p''.objects })

-- user_recieve_notification on core `id`: a caller that finds nothing sleeps in the task queue.
unfoldable pub recieve_notification : Task → (id : ℕ) → Post → Outcome Post (Status × ℕ)
recieve_notification me id p =
    let m = p.mailbox in
    let (found, msgs) = local_global_dequeue m.msg_queue m.is_per_cpu id in
    elim found [
      | some channel ↦
          let (result, p') =
            handle id channel (record p { mailbox = record m { msg_queue = msgs } }) in
          returns result p'
      | none ↦ suspended (record p {
        mailbox = record m { task_queue = local_global_enqueue m.task_queue me m.is_per_cpu id };
      })
    ]

-- The loop of user_shutdown_mailbox over one queue: each raiser in it is dropped.
unfoldable pub drop_all : List Channel → Objects → Objects
drop_all [] o = o
drop_all (c ∷ cs) o = drop_all cs (drop c.owner o)

-- user_create_raiser; `mem` and `channels` are the outcomes of its two allocations, `dealloc` is the
-- address of the mailbox's dealloc_rc_base.
unfoldable pub create_raiser :
    (mem : Option ℕ) (channels : Bool) (dealloc : ℕ) → Post → Status × Option ℕ × Post
create_raiser none channels dealloc p = (out_of_memory, none, p)
create_raiser (some raiser) channels dealloc p =
    let p' : Post = record p {
      pending = λ r c. if raiser == r then 0 else p.pending r c;
      objects = borrow dealloc (init raiser true p.objects);
    } in
    if p.mailbox.is_per_cpu
    then if channels then (success, some raiser, p') else (out_of_memory, none, p)
    else (success, some raiser, p')

-- The loop of user_shutdown_mailbox over `n` queues from `i` on.
unfoldable pub drain : (n i : ℕ) → Post → Post
drain zero i p = p
drain (suc n) i p = drain n (suc i) (record p {
  mailbox = record (p.mailbox) { msg_queue = put_queue p.mailbox.msg_queue i [] };
  objects = drop_all (p.mailbox.msg_queue i) p.objects;
})

-- user_shutdown_mailbox
unfoldable pub shutdown_mailbox : (max_cpus dealloc : ℕ) → Post → Post
shutdown_mailbox max_cpus dealloc p =
    let p' =
      drain (if p.mailbox.is_per_cpu then max_cpus else 1) 0
        (record p { mailbox = record (p.mailbox) { is_shut_down = true } }) in
    record p' { objects = drop dealloc p'.objects }
