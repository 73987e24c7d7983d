-- ===== src/Rpc/Calls.antt =====
-- The four calls: initiate, accept, return, and get the result. A call's sections under a spinlock are
-- the steps: initiating is one under the caller's lock, one under the callee's, and a third under the
-- caller's where the callee is gone; returning is one under the callee's lock and one under the caller's.
-- What is done behind a section's end is to the container that the call alone holds, or to an atomic
-- count, and belongs to that section.
use ricerca.Common.{ℕ, ◌+◌, ◌%◌, Option, none, some, List, [], ◌∷◌, ◌++◌, if◌then◌else◌, size_mod}
use ricerca.Status.{
  Status, success, out_of_memory, invalid_msg, target_unreachable, empty, invalid_rpc_id,
}
use ricerca.Memory.Refcount.{borrow}
use ricerca.Containers.Intmap.{insert, search, remove}
use ricerca.Notifications.Boxes.{dealloc_of, send_notification}
use ricerca.Rpc.Defs.{
  RpcMsg, Rpc, callee_of, with_objects, with_caller, with_callee, with_container,
  copy_contents_from_user, copy_contents_from_kernel, enqueue_reply_container,
}

-- The container that user_rpc_initiate takes from the caller's pool, or else from the heap, and the
-- pool that is left.
unfoldable pub take_container : (mem : Option ℕ) → List ℕ → Option (ℕ × List ℕ)
take_container mem (c ∷ cs) = some (c, cs)
take_container none [] = none
take_container (some c) [] = some (c, [])

-- How the first section of user_rpc_initiate ends: with a status, or with a container to deliver.
pub data Prepared : Type 0 where
  failed : Status → Rpc → Prepared
  ready : (container : ℕ) → Rpc → Prepared

-- The first section, up to the callee's lock.
unfoldable pub prepare : (mem : Option ℕ) (caller : ℕ) → RpcMsg → Rpc → Prepared
prepare mem caller msg s =
    let c = s.callers caller in
    elim (take_container mem c.free_containers) [
      | none ↦ failed out_of_memory s
      | some (p, free) ↦
          let k = s.containers p in
          elim (copy_contents_from_user k.message msg) [
            | none ↦
                failed invalid_msg
                  (with_caller s caller (record c { free_containers = free ++ p ∷ [] }))
            | some m ↦ ready p (
                with_objects
                  (with_container (with_caller s caller (record c { free_containers = free })) p
                    (record {
                      message = record m { status = msg.status };
                      client_opaque = msg.opaque;
                      caller = caller;
                    }))
                  (borrow (dealloc_of caller) s.boxes.objects))
          ]
    ]

-- The second section, under the callee's lock; `none` where the callee has been shut down.
unfoldable pub enqueue_request : (core token container : ℕ) → Rpc → Option Rpc
enqueue_request core token container s =
    let callee = s.callees (callee_of token) in
    if callee.is_shut_down
    then none
    else some (
        let s' =
          with_callee s (callee_of token)
            (record callee { incoming_rpcs = callee.incoming_rpcs ++ container ∷ [] }) in
        record s' { boxes = send_notification core callee.on_incoming_raiser s'.boxes })

-- The third section, for a callee that has been shut down, under the caller's lock. The reference to
-- the caller is not given back.
unfoldable pub give_back : (caller container : ℕ) → Rpc → Rpc
give_back caller container s =
    let c = s.callers caller in
    with_caller s caller (record c { free_containers = c.free_containers ++ container ∷ [] })

-- What follows the first section.
unfoldable pub deliver : (core caller token container : ℕ) → Rpc → Status × Rpc
deliver core caller token container s = elim (enqueue_request core token container s) [
  | none ↦ (target_unreachable, give_back caller container s)
  | some s' ↦ (success, s')
]

-- user_rpc_initiate
unfoldable pub initiate : (mem : Option ℕ) (core caller token : ℕ) → RpcMsg → Rpc → Status × Rpc
initiate mem core caller token msg s = elim (prepare mem caller msg s) [
  | failed status s' ↦ (status, s')
  | ready container s' ↦ deliver core caller token container s'
]

-- user_rpc_accept: the status, the caller's buffer `msg`, and the state.
unfoldable pub accept : (callee : ℕ) → RpcMsg → Rpc → Status × RpcMsg × Rpc
accept callee msg s =
    let c = s.callees callee in
    elim c.incoming_rpcs [
      | [] ↦ (empty, msg, s)
      | p ∷ rest ↦
          let m = (s.containers p).message in
          (
            success,
            record (copy_contents_from_kernel msg m) { opaque = c.seq; status = m.status },
            with_callee s callee (record c {
              incoming_rpcs = rest;
              awaiting_reply = insert c.awaiting_reply (record { addr = p; key = c.seq });
              seq = (c.seq + 1) % size_mod;
            }),
          )
    ]

-- How the first section of user_rpc_return ends: with a status and nothing changed, or with a
-- container to give to its caller.
pub data Answered : Type 0 where
  refused : Status → Answered
  replying : (container : ℕ) → Rpc → Answered

-- The first section, under the callee's lock.
unfoldable pub take_reply : (callee : ℕ) → RpcMsg → Rpc → Answered
take_reply callee msg s =
    let c = s.callees callee in
    elim (search c.awaiting_reply msg.opaque) [
      | none ↦ refused invalid_rpc_id
      | some n ↦
          let k = s.containers n.addr in
          elim (copy_contents_from_user k.message msg) [
            | none ↦ refused invalid_msg
            | some m ↦ replying n.addr (
                with_container
                  (with_callee s callee (record c { awaiting_reply = remove c.awaiting_reply n }))
                  n.addr (record k { message = record m { status = msg.status } }))
          ]
    ]

-- user_rpc_return
unfoldable pub return : (core callee : ℕ) → RpcMsg → Rpc → Status × Rpc
return core callee msg s = elim (take_reply callee msg s) [
  | refused status ↦ (status, s)
  | replying container s' ↦ (success, enqueue_reply_container core container s')
]

-- user_rpc_get_result
unfoldable pub get_result : (caller : ℕ) → RpcMsg → Rpc → Status × RpcMsg × Rpc
get_result caller msg s =
    let c = s.callers caller in
    elim c.incoming_replies [
      | [] ↦ (empty, msg, s)
      | p ∷ rest ↦
          let k = s.containers p in
          (
            success,
            record (copy_contents_from_kernel msg k.message) {
              opaque = k.client_opaque;
              status = k.message.status;
            },
            with_caller s caller (record c {
              incoming_replies = rest;
              free_containers = c.free_containers ++ p ∷ [];
            }),
          )
    ]
