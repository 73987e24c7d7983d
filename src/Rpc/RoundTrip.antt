-- ===== src/Rpc/RoundTrip.antt =====
-- A request and its reply come through unchanged.
use ricerca.Common.{ℕ, ◌≡◌, ◌≤◌, refl, Option, some, List, [], ◌∷◌, ◌++◌, false, arith, ap, ◌∙◌}
use ricerca.Status.{Status, success}
use ricerca.Containers.Intmap.{Node, search, insert}
use ricerca.Containers.Intmap.Laws.{search-insert}
use ricerca.Rpc.Defs.{
  RpcMsg, RpcContainer, Rpc, token_of, copy_contents_from_user, copy_contents_from_kernel,
  enqueue_reply_container,
}
use ricerca.Rpc.Calls.{
  take_container, initiate, prepare, enqueue_request, deliver, accept, take_reply, return,
  get_result,
}
use ricerca.Rpc.Messages.{
  IsFull, contents, len-copy_contents_from_kernel, contents-copy_contents_from_kernel,
  copy_contents_from_user-some,
}

-- What a container's message becomes when another is copied into it with its status.
abbrev pub filled : (dst src : RpcMsg) → RpcMsg
filled dst src = record (copy_contents_from_kernel dst src) { status = src.status }

module _ (core a b p : ℕ) (s : Rpc) where
  initiate-queues :
      (mem : Option ℕ) (rest : List ℕ) (args : RpcMsg)
      → take_container mem (s.callers a).free_containers ≡ some (p, rest)
      → copy_contents_from_user (s.containers p).message args
        ≡ some (copy_contents_from_kernel (s.containers p).message args)
      → (s.callees b).is_shut_down ≡ false
      → let r = initiate mem core a (token_of b) args s in
        (r.0 ≡ success)
        × (r.1.callees b
            ≡ record (s.callees b) { incoming_rpcs = (s.callees b).incoming_rpcs ++ p ∷ [] })
        × (r.1.containers p ≡ record {
          message = filled (s.containers p).message args;
          client_opaque = args.opaque;
          caller = a;
        })
        × (r.1.callers a ≡ record (s.callers a) { free_containers = rest })
  unfolding initiate prepare enqueue_request deliver
  initiate-queues mem rest args h k o = ground (arith, h, k, o)

  accept-lists :
      (buf : RpcMsg)
      → (s.callees b).incoming_rpcs ≡ p ∷ []
      → let r = accept b buf s in
        let seq = (s.callees b).seq in
        (r.0 ≡ success)
        × (r.1 ≡ record (copy_contents_from_kernel buf (s.containers p).message) {
          opaque = seq;
          status = (s.containers p).message.status;
        })
        × ((r.2.callees b).awaiting_reply
            ≡ insert (s.callees b).awaiting_reply (record { addr = p; key = seq }))
        × (r.2.containers p ≡ s.containers p)
        × (r.2.callers a ≡ s.callers a)
  unfolding accept
  accept-lists buf h = ground (arith, h)

  return-answers :
      (ret : RpcMsg) (n : Node)
      → search (s.callees b).awaiting_reply ret.opaque ≡ some n
      → n.addr ≡ p
      → (s.containers p).caller ≡ a
      → copy_contents_from_user (s.containers p).message ret
        ≡ some (copy_contents_from_kernel (s.containers p).message ret)
      → let r = return core b ret s in
        (r.0 ≡ success)
        × (r.1.containers p
            ≡ record (s.containers p) { message = filled (s.containers p).message ret })
        × ((r.1.callers a).incoming_replies ≡ (s.callers a).incoming_replies ++ p ∷ [])
  unfolding return take_reply enqueue_reply_container
  return-answers ret n h e own k = ground (arith, h, e, own, k)

  get_result-reads :
      (buf : RpcMsg) (rest : List ℕ)
      → (s.callers a).incoming_replies ≡ p ∷ rest
      → let r = get_result a buf s in
        (r.0 ≡ success)
        × (r.1 ≡ record (copy_contents_from_kernel buf (s.containers p).message) {
          opaque = (s.containers p).client_opaque;
          status = (s.containers p).message.status;
        })
  unfolding get_result
  get_result-reads buf rest h = ground (arith, h)

-- What the four messages need: payloads that fill their arrays, and lengths within them.
pub record IsExchange (container args ret in_buf out_buf : RpcMsg) : Type 0 where
  pub container_full : IsFull container
  pub args_full : IsFull args
  pub ret_full : IsFull ret
  pub in_full : IsFull in_buf
  pub out_full : IsFull out_buf
  pub args_fit : args.len ≤ 112
  pub ret_fit : ret.len ≤ 112

-- A caller that can take the container `p`, a callee that runs, and nothing under way.
pub record IsIdle (mem : Option ℕ) (a b p : ℕ) (s : Rpc) : Type 0 where
  pub rest : List ℕ
  pub taken : take_container mem (s.callers a).free_containers ≡ some (p, rest)
  pub no_reply : (s.callers a).incoming_replies ≡ []
  pub no_request : (s.callees b).incoming_rpcs ≡ []
  pub running : (s.callees b).is_shut_down ≡ false

module _ (core a b p : ℕ) (mem : Option ℕ) (args ret in_buf out_buf : RpcMsg) (s : Rpc) where
  abbrev pub called : Status × Rpc
  called = initiate mem core a (token_of b) args s

  abbrev pub taken_up : Status × RpcMsg × Rpc
  taken_up = accept b in_buf called.1

  abbrev pub answered : Status × Rpc
  answered = return core b ret taken_up.2

  abbrev pub read_back : Status × RpcMsg × Rpc
  read_back = get_result a out_buf answered.1

  -- The container of the request once the callee has accepted it.
  abbrev request : RpcMsg
  request = filled (s.containers p).message args

  request_arrives :
      IsIdle mem a b p s
      → IsExchange (s.containers p).message args ret in_buf out_buf
      → ((called.0 ≡ success)
          × (taken_up.0 ≡ success)
          × (contents taken_up.1 ≡ contents args)
          × (taken_up.1.status ≡ args.status)
          × (taken_up.1.opaque ≡ (s.callees b).seq))
        × (taken_up.2.containers p
            ≡ record { message = request; client_opaque = args.opaque; caller = a })
        × (search (taken_up.2.callees b).awaiting_reply (s.callees b).seq
            ≡ some (record { addr = p; key = (s.callees b).seq }))
        × ((taken_up.2.callers a).incoming_replies ≡ [])
  request_arrives idle x =
      let m0 = (s.containers p).message in
      let k0 = contents-copy_contents_from_kernel m0 args x.container_full x.args_full x.args_fit in
      let some0 = copy_contents_from_user-some m0 args x.container_full x.args_full x.args_fit in
      let i = initiate-queues core a b p s mem idle.rest args idle.taken some0 idle.running in
      let l = accept-lists core a b p called.1 in_buf (ground (arith, i.1, idle.no_request)) in
      let msg : (called.1.containers p).message ≡ request = ap (λ c. c.message) i.2 in
      let fit : request.len ≤ 112 = rw (len-copy_contents_from_kernel m0 args) x.args_fit in
      let k1 = contents-copy_contents_from_kernel in_buf request x.in_full k0.1 fit in
      let seq : (called.1.callees b).seq ≡ (s.callees b).seq = ap (λ c. c.seq) i.1 in
      let node : Node = record { addr = p; key = (called.1.callees b).seq } in
      let look = search-insert (called.1.callees b).awaiting_reply node (s.callees b).seq in
      (
        (
          i.0,
          l.0,
          rw (l.1, msg) (k1.0 ∙ k0.0),
          ap (λ m. m.status) l.1 ∙ ap (λ m. m.status) msg,
          ap (λ m. m.opaque) l.1 ∙ seq,
        ),
        l.3 ∙ i.2,
        rw l.2 (ground (arith, look, seq)),
        ap (λ c. c.incoming_replies) l.4 ∙ (ap (λ c. c.incoming_replies) i.3 ∙ idle.no_reply),
      )

  -- Where a caller calls an idle callee, the callee accepts, returns under the number that it was
  -- given, and the caller asks for the result, then every call succeeds; the callee gets the bytes and
  -- the status of the request, and the caller those of the reply, with its own opaque value.
  pub call_round_trip :
      IsIdle mem a b p s
      → IsExchange (s.containers p).message args ret in_buf out_buf
      → ret.opaque ≡ (s.callees b).seq
      → ((called.0 ≡ success)
          × (taken_up.0 ≡ success)
          × (contents taken_up.1 ≡ contents args)
          × (taken_up.1.status ≡ args.status)
          × (taken_up.1.opaque ≡ (s.callees b).seq))
        × (answered.0 ≡ success)
        × (read_back.0 ≡ success)
        × (contents read_back.1 ≡ contents ret)
        × (read_back.1.status ≡ ret.status)
        × (read_back.1.opaque ≡ args.opaque)
  call_round_trip idle x num =
      let (arrived, held, found, none_yet) = request_arrives idle x in
      let m0 = (s.containers p).message in
      let k0 = contents-copy_contents_from_kernel m0 args x.container_full x.args_full x.args_fit in
      let k1 = contents-copy_contents_from_kernel request ret k0.1 x.ret_full x.ret_fit in
      let some1 = copy_contents_from_user-some request ret k0.1 x.ret_full x.ret_fit in
      let msg : (taken_up.2.containers p).message ≡ request = ap (λ c. c.message) held in
      let node : Node = record { addr = p; key = (s.callees b).seq } in
      let r =
        return-answers core a b p taken_up.2 ret node (rw num found) refl (ap (λ c. c.caller) held)
          (rw msg some1) in
      let queue : (answered.1.callers a).incoming_replies ≡ p ∷ [] = rw none_yet at r.2 in
      let g = get_result-reads core a b p answered.1 out_buf [] queue in
      let reply = filled request ret in
      let msg' : (answered.1.containers p).message ≡ reply =
        ap (λ c. c.message) r.1 ∙ rw msg refl in
      let fit : reply.len ≤ 112 = rw (len-copy_contents_from_kernel request ret) x.ret_fit in
      let k2 = contents-copy_contents_from_kernel out_buf reply x.out_full k1.1 fit in
      let note = ap (λ (c : RpcContainer). c.client_opaque) r.1 in
      (
        arrived,
        r.0,
        g.0,
        rw (g.1, msg') (k2.0 ∙ k1.0),
        ap (λ m. m.status) g.1 ∙ ap (λ m. m.status) msg',
        ap (λ m. m.opaque) g.1 ∙ (note ∙ ap (λ c. c.client_opaque) held),
      )
