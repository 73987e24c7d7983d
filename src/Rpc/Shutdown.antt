-- ===== src/Rpc/Shutdown.antt =====
-- Shutting a callee down answers every request that it holds.
use ricerca.Common.{
  ℕ, zero, suc, ◌≡◌, ◌<◌, ◌==◌, refl, sym, ◌∙◌, List, [], ◌∷◌, ◌++◌, arith, count, count-append,
  if◌then◌else◌, true,
}
use mathlib.Core.List.{append-nil, append_assoc}
use ricerca.Containers.Intmap.{Node, store}
use ricerca.Rpc.Defs.{
  RpcCallee, Rpc, noreply, addresses, enqueue_reply_container, no_reply, no_reply_all,
  no_reply_buckets, shutdown_callee, with_callee,
}

-- The accepted requests of `n` buckets from `i` on.
unfoldable pub gathered : (n i : ℕ) → (ℕ → List Node) → List ℕ
gathered zero i f = []
gathered (suc n) i f = addresses (f i) ++ gathered n (suc i) f

gathered-store :
    (n i j : ℕ) (f : ℕ → List Node) → j < i → gathered n i (store f j []) ≡ gathered n i f
unfolding gathered
gathered-store zero i j f h = refl
gathered-store (suc n) i j f h = ground (arith, gathered-store n (suc i) j f (omega (arith, h)))

-- The requests that a callee holds, those not accepted first.
abbrev pub requests_of : RpcCallee → List ℕ
requests_of c = c.incoming_rpcs ++ gathered c.awaiting_reply.buckets_count 0 c.awaiting_reply.nodes

module _ (core a : ℕ) where
  -- One request is answered: its container goes behind the caller's replies, and nothing else of
  -- callers' queues, callees and containers' callers changes.
  no_reply-answers :
      (c : ℕ) (s : Rpc)
      → (s.containers c).caller ≡ a
      → (((no_reply core c s).callers a).incoming_replies
          ≡ (s.callers a).incoming_replies ++ c ∷ [])
        × ((no_reply core c s).callees ≡ s.callees)
  unfolding no_reply enqueue_reply_container
  no_reply-answers c s own = ground (arith, own)

  no_reply-containers :
      (c x : ℕ) (s : Rpc)
      → (((no_reply core c s).containers x).caller ≡ (s.containers x).caller)
        × (((no_reply core c s).containers x).message.status
            ≡ (if c == x then noreply else (s.containers x).message.status))
  unfolding no_reply enqueue_reply_container
  no_reply-containers c x s = ground arith

  -- The same for a list of requests.
  no_reply_all-answers :
      (cs : List ℕ) (s : Rpc)
      → ((x : ℕ) → 0 < count x cs → (s.containers x).caller ≡ a)
      → (((no_reply_all core cs s).callers a).incoming_replies
          ≡ (s.callers a).incoming_replies ++ cs)
        × ((no_reply_all core cs s).callees ≡ s.callees)
  unfolding no_reply_all
  no_reply_all-answers [] s own = (sym (append-nil _), refl)
  no_reply_all-answers (c ∷ cs) s own =
      let s' = no_reply core c s in
      let one = no_reply-answers c s (own c (ground arith)) in
      let more =
        no_reply_all-answers cs s'
          (λ x h. (no_reply-containers c x s).0 ∙ own x (ground (arith, h))) in
      (more.0 ∙ rw one.0 (append_assoc _ (c ∷ []) cs), more.1 ∙ one.1)

  no_reply_all-containers :
      (cs : List ℕ) (x : ℕ) (s : Rpc)
      → (((no_reply_all core cs s).containers x).caller ≡ (s.containers x).caller)
        × (((no_reply_all core cs s).containers x).message.status
            ≡ (if count x cs == 0 then (s.containers x).message.status else noreply))
  unfolding no_reply_all
  no_reply_all-containers [] x s = (refl, refl)
  no_reply_all-containers (c ∷ cs) x s =
      ground (arith, no_reply-containers c x s, no_reply_all-containers cs x (no_reply core c s))

  callees-no_reply_all : (cs : List ℕ) (s : Rpc) → (no_reply_all core cs s).callees ≡ s.callees
  unfolding no_reply_all no_reply enqueue_reply_container
  callees-no_reply_all [] s = refl
  callees-no_reply_all (c ∷ cs) s = callees-no_reply_all cs (no_reply core c s) ∙ ground arith

  no_reply_buckets-answers :
      (n i b : ℕ) (s : Rpc)
      → ((x : ℕ)
          → 0 < count x (gathered n i (s.callees b).awaiting_reply.nodes)
          → (s.containers x).caller ≡ a)
      → ((no_reply_buckets core n i b s).callers a).incoming_replies
        ≡ (s.callers a).incoming_replies ++ gathered n i (s.callees b).awaiting_reply.nodes
  unfolding no_reply_buckets gathered
  no_reply_buckets-answers zero i b s own = sym (append-nil _)
  no_reply_buckets-answers (suc n) i b s own =
      let m = (s.callees b).awaiting_reply in
      let f = m.nodes in
      let cs = addresses (f i) in
      let later = gathered n (suc i) f in
      let s0 =
        with_callee s b
          (record (s.callees b) { awaiting_reply = record m { nodes = store f i [] } }) in
      let s1 = no_reply_all core cs s0 in
      let split = λ (x : ℕ). count-append x cs later in
      let all = no_reply_all-answers cs s0 (λ x h. own x (ground (arith, h, split x))) in
      let nodes : (s1.callees b).awaiting_reply.nodes ≡ store f i [] = rw all.1 (ground arith) in
      let rest : gathered n (suc i) (s1.callees b).awaiting_reply.nodes ≡ later =
        rw nodes (gathered-store n (suc i) i f (omega arith)) in
      let replies = no_reply_buckets-answers n (suc i) b s1 λ x h.
        let h' : 0 < count x later = rw rest at h in
        (no_reply_all-containers cs x s0).0 ∙ own x (ground (arith, h', split x)) in
      replies ∙ rw (rest, all.0) (append_assoc _ cs later)

  no_reply_buckets-status :
      (n i b x : ℕ) (s : Rpc)
      → ((no_reply_buckets core n i b s).containers x).message.status ≡ (
          if count x (gathered n i (s.callees b).awaiting_reply.nodes) == 0
          then (s.containers x).message.status
          else noreply)
  unfolding no_reply_buckets gathered
  no_reply_buckets-status zero i b x s = refl
  no_reply_buckets-status (suc n) i b x s =
      let m = (s.callees b).awaiting_reply in
      let f = m.nodes in
      let cs = addresses (f i) in
      let later = gathered n (suc i) f in
      let s0 =
        with_callee s b
          (record (s.callees b) { awaiting_reply = record m { nodes = store f i [] } }) in
      let s1 = no_reply_all core cs s0 in
      let nodes : (s1.callees b).awaiting_reply.nodes ≡ store f i [] =
        rw (callees-no_reply_all cs s0) (ground arith) in
      let rest : gathered n (suc i) (s1.callees b).awaiting_reply.nodes ≡ later =
        rw nodes (gathered-store n (suc i) i f (omega arith)) in
      let status = no_reply_buckets-status n (suc i) b x s1 in
      ground (arith, rw rest at status, no_reply_all-containers cs x s0, count-append x cs later)

  -- Shutting a callee down whose requests all come from one caller puts every one of them behind that
  -- caller's replies, in order and once, with the status "no reply".
  pub shutdown_callee-answers :
      (b : ℕ) (s : Rpc)
      → ((x : ℕ) → 0 < count x (requests_of (s.callees b)) → (s.containers x).caller ≡ a)
      → (((shutdown_callee core b s).callers a).incoming_replies
          ≡ (s.callers a).incoming_replies ++ requests_of (s.callees b))
        × ((x : ℕ)
            → ((shutdown_callee core b s).containers x).message.status ≡ (
                if count x (requests_of (s.callees b)) == 0
                then (s.containers x).message.status
                else noreply))
  unfolding shutdown_callee
  shutdown_callee-answers b s own =
      let c = s.callees b in
      let m = c.awaiting_reply in
      let later = gathered m.buckets_count 0 m.nodes in
      let s0 = with_callee s b (record c { is_shut_down = true; incoming_rpcs = [] }) in
      let s1 = no_reply_all core c.incoming_rpcs s0 in
      let split = λ (x : ℕ). count-append x c.incoming_rpcs later in
      let all =
        no_reply_all-answers c.incoming_rpcs s0 (λ x h. own x (ground (arith, h, split x))) in
      let map : (s1.callees b).awaiting_reply ≡ m = rw all.1 (ground arith) in
      let rest : gathered m.buckets_count 0 (s1.callees b).awaiting_reply.nodes ≡ later =
        rw map refl in
      let replies = no_reply_buckets-answers m.buckets_count 0 b s1 λ x h.
        let h' : 0 < count x later = rw rest at h in
        (no_reply_all-containers c.incoming_rpcs x s0).0 ∙ own x (ground (arith, h', split x)) in
      (
        replies ∙ rw (rest, all.0) (append_assoc _ c.incoming_rpcs later),
        λ x.
            let status = no_reply_buckets-status m.buckets_count 0 b x s1 in
            ground
              (arith, rw rest at status, split x, no_reply_all-containers c.incoming_rpcs x s0),
      )
