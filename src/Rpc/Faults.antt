-- ===== src/Rpc/Faults.antt =====
-- Where creating and calling go wrong.
use ricerca.Common.{
  ℕ, ◌+◌, ◌%◌, ◌≡◌, Option, some, List, [], ◌∷◌, ◌++◌, true, false, arith, size_mod, Bool,
}
use ricerca.Status.{success, target_unreachable}
use ricerca.Memory.Refcount.{borrow}
use ricerca.Memory.Refcount.Balance.{refs}
use ricerca.Containers.Intmap.{Node, init as intmap_init}
use ricerca.Notifications.Boxes.{Boxes, dealloc_of, new_raiser, rpc_incoming}
use ricerca.Rpc.Defs.{
  RpcMsg, Rpc, token_of, copy_contents_from_user, copy_contents_from_kernel, create_callee,
  unwritten,
}
use ricerca.Rpc.Calls.{take_container, initiate, prepare, enqueue_request, give_back, deliver}

-- Initiating a call to a callee that has been shut down puts the container into the caller's pool, and
-- leaves one more reference to the caller than before.
initiate_unreachable :
    (core a b p : ℕ) (mem : Option ℕ) (rest : List ℕ) (args : RpcMsg) (s : Rpc)
    → take_container mem (s.callers a).free_containers ≡ some (p, rest)
    → copy_contents_from_user (s.containers p).message args
      ≡ some (copy_contents_from_kernel (s.containers p).message args)
    → (s.callees b).is_shut_down ≡ true
    → let r = initiate mem core a (token_of b) args s in
      (r.0 ≡ target_unreachable)
      × ((r.1.callers a).free_containers ≡ rest ++ p ∷ [])
      × (refs r.1.boxes.objects (dealloc_of a)
          ≡ (refs s.boxes.objects (dealloc_of a) + 1) % size_mod)
unfolding initiate prepare enqueue_request give_back deliver borrow
initiate_unreachable core a b p mem rest args s h k down = ground (arith, h, k, down)

-- Where the raiser is made and the map of a new callee is not, creating the callee returns success and
-- writes neither pointer.
create_callee_unwritten :
    (res : ℕ) (raiser : Option ℕ) (channels : Bool) (junk : ℕ → List Node)
    (mailbox opaque buckets r : ℕ) (b : Boxes) (s : Rpc)
    → new_raiser raiser channels mailbox (record { type = rpc_incoming; opaque = opaque }) s.boxes
      ≡ (success, some r, b)
    → let made = create_callee (some res) raiser channels false junk mailbox opaque buckets s in
      (made.0 ≡ success) × (made.1 ≡ unwritten)
unfolding create_callee intmap_init
create_callee_unwritten res raiser channels junk mailbox opaque buckets r b s h = ground (arith, h)
