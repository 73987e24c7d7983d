-- ===== src/Rpc/Defs.antt =====
-- Messages, containers, callers and callees, and what shuts them down. Every object is named by its
-- address: the counts of a caller or callee stand at the address itself (shutdown) and 16 bytes
-- behind it (dealloc), the token of a callee 32 bytes behind it.
use ricerca.Common.{
  ℕ, zero, suc, ◌+◌, ◌-◌, Bool, true, false, Option, none, some, List, [], ◌∷◌, ◌++◌, ◌==◌, ltb,
  if◌then◌else◌, overwrite, slice,
}
use ricerca.Status.{Status, success, out_of_memory}
use ricerca.Memory.Refcount.{Objects, put, init, drop}
use ricerca.Containers.Intmap.{Intmap, Node, init as intmap_init, store}
use ricerca.Notifications.Boxes.{
  Boxes, Notification, put_at, dealloc_of, new_raiser, send_notification, rpc_incoming, rpc_reply,
}

-- struct user_rpc_msg
pub record RpcMsg : Type 0 where
  pub opaque : ℕ
  pub status : ℕ
  pub len : ℕ
  pub payload : List ℕ

-- USER_RPC_MAX_PAYLOAD_SIZE and USER_RPC_STATUS_NOREPLY
abbrev pub max_payload_size : ℕ
max_payload_size = 112

abbrev pub noreply : ℕ
noreply = 0

-- struct user_rpc_container, but for its links: the queues and the map below list its address. Its
-- key in the map is that of the map's node.
pub record RpcContainer : Type 0 where
  pub message : RpcMsg
  pub client_opaque : ℕ
  pub caller : ℕ

-- struct user_rpc_caller, but for its counts and its spinlock
pub record RpcCaller : Type 0 where
  pub on_reply_raiser : ℕ
  pub free_containers : List ℕ
  pub incoming_replies : List ℕ
  pub is_shut_down : Bool

-- struct user_rpc_callee, but for its counts, its token's count and its spinlock
pub record RpcCallee : Type 0 where
  pub on_incoming_raiser : ℕ
  pub incoming_rpcs : List ℕ
  pub awaiting_reply : Intmap
  pub seq : ℕ
  pub is_shut_down : Bool

-- All of them, and the mailboxes.
pub record Rpc : Type 0 where
  pub boxes : Boxes
  pub containers : ℕ → RpcContainer
  pub callers : ℕ → RpcCaller
  pub callees : ℕ → RpcCallee

-- &callee->token, and back
abbrev pub token_of : ℕ → ℕ
token_of callee = callee + 32

abbrev pub callee_of : ℕ → ℕ
callee_of token = token - 32

abbrev pub with_objects : Rpc → Objects → Rpc
with_objects s o = record s { boxes = record (s.boxes) { objects = o } }

abbrev pub with_caller : Rpc → ℕ → RpcCaller → Rpc
with_caller s p c = record s { callers = put_at s.callers p c }

abbrev pub with_callee : Rpc → ℕ → RpcCallee → Rpc
with_callee s p c = record s { callees = put_at s.callees p c }

abbrev pub with_container : Rpc → ℕ → RpcContainer → Rpc
with_container s p c = record s { containers = put_at s.containers p c }

-- user_rpc_create_caller; `mem` and `raiser` are the addresses that its allocations return.
unfoldable pub create_caller :
    (mem raiser : Option ℕ) (channels : Bool) (mailbox opaque : ℕ) → Rpc → Status × Option ℕ × Rpc
create_caller none raiser channels mailbox opaque s = (out_of_memory, none, s)
create_caller (some res) raiser channels mailbox opaque s =
    let note : Notification = record { type = rpc_reply; opaque = opaque } in
    let (status, r, b) = new_raiser raiser channels mailbox note s.boxes in
    elim r [
      | none ↦ (status, none, record s { boxes = b })
      | some on_reply ↦
          let s' =
            with_caller (record s { boxes = b }) res
              (record {
                on_reply_raiser = on_reply;
                free_containers = [];
                incoming_replies = [];
                is_shut_down = false;
              }) in
          (
            success,
            some res,
            with_objects s' (init res true (init (dealloc_of res) true b.objects)),
          )
    ]

-- What user_rpc_create_callee leaves in the caller's two buffers: pointers, or what stood there.
pub data Made : Type 0 where
  written : (callee token : ℕ) → Made
  unwritten : Made

-- user_rpc_create_callee: where the map cannot be set up it returns the status of the raiser's
-- creation. `junk` is what the memory of the map held.
unfoldable pub create_callee :
    (mem raiser : Option ℕ) (channels map : Bool) (junk : ℕ → List Node)
    (mailbox opaque buckets : ℕ)
    → Rpc
    → Status × Made × Rpc
create_callee none raiser channels map junk mailbox opaque buckets s = (out_of_memory, unwritten, s)
create_callee (some res) raiser channels map junk mailbox opaque buckets s =
    let note : Notification = record { type = rpc_incoming; opaque = opaque } in
    let (status, r, b) = new_raiser raiser channels mailbox note s.boxes in
    let s' : Rpc = record s { boxes = b } in
    elim r [
      | none ↦ (status, unwritten, s')
      | some on_incoming ↦ elim (intmap_init map junk (if buckets == 0 then 1 else buckets)) [
        | none ↦ (status, unwritten, with_objects s' (drop on_incoming b.objects))
        | some m ↦
            let o =
              init (token_of res) true (init (dealloc_of res) true (init res true b.objects)) in
            let two = put o.rc (dealloc_of res) (record { refcount = 2; drop = true }) in
            (
              success,
              written res (token_of res),
              with_objects
                  (with_callee s' res (record {
                    on_incoming_raiser = on_incoming;
                    incoming_rpcs = [];
                    awaiting_reply = m;
                    seq = 0;
                    is_shut_down = false;
                  }))
                  (record o { rc = two }),
            )
      ]
    ]

-- user_rpc_copy_contents_from_user, `none` standing for USER_STATUS_INVALID_MSG
unfoldable pub copy_contents_from_user : (dst src : RpcMsg) → Option RpcMsg
copy_contents_from_user dst src =
    if ltb max_payload_size src.len
    then none
    else some (record dst {
      len = src.len;
      payload = overwrite dst.payload 0 (slice src.payload 0 src.len);
    })

-- user_rpc_copy_contents_from_kernel
unfoldable pub copy_contents_from_kernel : (dst src : RpcMsg) → RpcMsg
copy_contents_from_kernel dst src = record dst {
  len = src.len;
  payload = overwrite dst.payload 0 (slice src.payload 0 src.len);
}

-- user_rpc_enqueue_reply_container on the core `core`
unfoldable pub enqueue_reply_container : (core container : ℕ) → Rpc → Rpc
enqueue_reply_container core container s =
    let caller = (s.containers container).caller in
    let c = s.callers caller in
    let s' =
      with_caller s caller (record c { incoming_replies = c.incoming_replies ++ container ∷ [] }) in
    let s'' : Rpc =
      if c.is_shut_down
      then s'
      else record s' { boxes = send_notification core c.on_reply_raiser s'.boxes } in
    with_objects s'' (drop (dealloc_of caller) s''.boxes.objects)

-- user_rpc_shutdown_caller; its free containers' memory is given back.
unfoldable pub shutdown_caller : (caller : ℕ) → Rpc → Rpc
shutdown_caller caller s =
    let c = s.callers caller in
    let s' = with_caller s caller (record c { is_shut_down = true; free_containers = [] }) in
    with_objects s' (drop (dealloc_of caller) (drop c.on_reply_raiser s'.boxes.objects))

-- user_rpc_notify_callee_undiscoverable
unfoldable pub notify_callee_undiscoverable : (token : ℕ) → Rpc → Rpc
notify_callee_undiscoverable token s =
    with_objects s (drop (dealloc_of (callee_of token)) s.boxes.objects)

-- The container is answered for a callee that is gone.
unfoldable pub no_reply : (core container : ℕ) → Rpc → Rpc
no_reply core container s =
    let c = s.containers container in
    enqueue_reply_container core container (
      with_container s container
        (record c { message = record (c.message) { status = noreply; len = 0 } }))

-- The two inner loops of user_rpc_shutdown_callee.
unfoldable pub no_reply_all : (core : ℕ) → List ℕ → Rpc → Rpc
no_reply_all core [] s = s
no_reply_all core (c ∷ cs) s = no_reply_all core cs (no_reply core c s)

abbrev pub addresses : List Node → List ℕ
addresses [] = []
addresses (n ∷ ns) = n.addr ∷ addresses ns

-- The loop of user_rpc_shutdown_callee over `n` buckets from `i` on.
unfoldable pub no_reply_buckets : (core n i callee : ℕ) → Rpc → Rpc
no_reply_buckets core zero i callee s = s
no_reply_buckets core (suc n) i callee s =
    let c = s.callees callee in
    let m = c.awaiting_reply in
    no_reply_buckets core n (suc i) callee (
      no_reply_all core (addresses (m.nodes i)) (
        with_callee s callee
          (record c { awaiting_reply = record m { nodes = store m.nodes i [] } })))

-- user_rpc_shutdown_callee
unfoldable pub shutdown_callee : (core callee : ℕ) → Rpc → Rpc
shutdown_callee core callee s =
    let c = s.callees callee in
    let s' = with_callee s callee (record c { is_shut_down = true; incoming_rpcs = [] }) in
    let s'' =
      no_reply_buckets core c.awaiting_reply.buckets_count 0 callee
        (no_reply_all core c.incoming_rpcs s') in
    with_objects s'' (drop (dealloc_of callee) (drop c.on_incoming_raiser s''.boxes.objects))
