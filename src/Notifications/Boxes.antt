-- ===== src/Notifications/Boxes.antt =====
-- All mailboxes and raisers by address, for the components that create raisers and send through them.
use ricerca.Common.{
  ℕ, ◌+◌, Bool, true, false, Option, none, some, ◌==◌, if◌then◌else◌, Outcome, returns, suspended,
  fault, List,
}
use ricerca.Status.{Status}
use ricerca.Locking.Mutex.Defs.{Task}
use ricerca.Memory.Refcount.{Objects, init}
use ricerca.Notifications.Defs.{
  Mailbox, Channel, Post, create_mailbox, create_raiser, send_notification_to_core,
  recieve_notification,
}

-- USER_NOTE_TYPE_*
pub data NoteType : Type 0 where
  rpc_incoming rpc_reply : NoteType

-- struct user_notification
pub record Notification : Type 0 where
  pub type : NoteType
  pub opaque : ℕ

-- Each mailbox; of each raiser its `mailbox_ref` and `notification`; the channels' pending counts,
-- the tasks that have been woken, and the reference counts.
pub record Boxes : Type 0 where
  pub mailboxes : ℕ → Mailbox
  pub mailbox_ref : ℕ → ℕ
  pub notification : ℕ → Notification
  pub pending : ℕ → ℕ → ℕ
  pub woken : List (Task × Channel)
  pub objects : Objects

module _ {A : Type 0} where
  abbrev pub put_at : (ℕ → A) → ℕ → A → ℕ → A
  put_at f p v q = if p == q then v else f q

-- One mailbox with what its calls touch, and such a state written back.
abbrev pub post_of : ℕ → Boxes → Post
post_of mailbox b = record {
  mailbox = b.mailboxes mailbox;
  pending = b.pending;
  objects = b.objects;
  woken = b.woken;
}

abbrev pub with_post : ℕ → Boxes → Post → Boxes
with_post mailbox b p = record b {
  mailboxes = put_at b.mailboxes mailbox p.mailbox;
  pending = p.pending;
  objects = p.objects;
  woken = p.woken;
}

-- &mailbox->dealloc_rc_base, behind the shutdown count.
abbrev pub dealloc_of : ℕ → ℕ
dealloc_of object = object + 16

-- user_create_mailbox at an address, with its two counts.
unfoldable pub new_mailbox :
    (mem : Option ℕ) (tasks msgs percpu : Bool) → Boxes → Status × Option ℕ × Boxes
new_mailbox mem tasks msgs percpu b = elim mem [
  | none ↦ ((create_mailbox false tasks msgs percpu).0, none, b)
  | some p ↦
      let (status, made) = create_mailbox true tasks msgs percpu in
      elim made [
        | none ↦ (status, none, b)
        | some m ↦ (
          status,
          some p,
          record b {
            mailboxes = put_at b.mailboxes p m;
            objects = init (dealloc_of p) true (init p true b.objects);
          },
        )
      ]
]

-- user_create_raiser, the raiser's own fields included.
unfoldable pub new_raiser :
    (mem : Option ℕ) (channels : Bool) (mailbox : ℕ)
    → Notification
    → Boxes
    → Status × Option ℕ × Boxes
new_raiser mem channels mailbox note b =
    let (status, raiser, p) = create_raiser mem channels (dealloc_of mailbox) (post_of mailbox b) in
    elim raiser [
      | none ↦ (status, none, with_post mailbox b p)
      | some r ↦ (
        status,
        some r,
        record (with_post mailbox b p) {
          mailbox_ref = put_at b.mailbox_ref r mailbox;
          notification = put_at b.notification r note;
        },
      )
    ]

-- user_send_notification on the core `core`.
unfoldable pub send_notification : (core raiser : ℕ) → Boxes → Boxes
send_notification core raiser b =
    let mailbox = b.mailbox_ref raiser in
    with_post mailbox b (send_notification_to_core raiser core (post_of mailbox b))

-- user_recieve_notification: the notification of the raiser that is found.
unfoldable pub recieve : Task → (core mailbox : ℕ) → Boxes → Outcome Boxes (Status × Notification)
recieve me core mailbox b = elim (recieve_notification me core (post_of mailbox b)) [
  | returns (status, raiser) p ↦ returns (status, b.notification raiser) (with_post mailbox b p)
  | suspended p ↦ suspended (with_post mailbox b p)
  | fault ↦ fault
]
