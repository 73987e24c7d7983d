-- ===== src/Rpc/Containers.antt =====
-- Where a container can be, for one caller and one callee, and that each call keeps it there once.
use ricerca.Common.{
  ℕ, ◌+◌, ◌≡◌, ◌≤◌, ◌<◌, Option, none, some, List, [], ◌∷◌, arith, count, count-append,
  Option-cases, List-cases, inl, inr,
}
use ricerca.Status.{Status}
use ricerca.Containers.Intmap.{Node, search}
use ricerca.Containers.Intmap.Tally.{
  once, listed, listed-insert, listed-remove, buckets_count-insert, buckets_count-remove,
}
use ricerca.Rpc.Defs.{RpcMsg, Rpc, token_of, copy_contents_from_user, enqueue_reply_container}
use ricerca.Rpc.Calls.{
  take_container, failed, ready, prepare, enqueue_request, give_back, accept, replying, take_reply,
  get_result,
}

take_container-keeps :
    (mem : Option ℕ) (free : List ℕ) (p : ℕ) (rest : List ℕ) (c : ℕ)
    → take_container mem free ≡ some (p, rest)
    → count c free ≤ once p c + count c rest
unfolding take_container
take_container-keeps mem (q ∷ qs) p rest c h = ground (arith, h)
take_container-keeps mem [] p rest c h = omega arith

module _ (a b : ℕ) where
  -- How often a container is with the callee: incoming, or accepted and not answered.
  abbrev pub requests : Rpc → ℕ → ℕ
  requests s c = count c (s.callees b).incoming_rpcs + listed (s.callees b).awaiting_reply c

  -- How often it is with the caller: in the pool, or answered.
  abbrev pub held : Rpc → ℕ → ℕ
  held s c = count c (s.callers a).free_containers + count c (s.callers a).incoming_replies

  -- A container is in one place at most, calls under way between two sections included, and one
  -- that the callee has or a call has under way names the caller.
  pub record IsSound (s : Rpc) (flight : List ℕ) : Type 0 where
    pub single : (c : ℕ) → held s c + requests s c + count c flight ≤ 1
    pub owned : (c : ℕ) → 0 < requests s c + count c flight → (s.containers c).caller ≡ a
    pub buckets : 0 < (s.callees b).awaiting_reply.buckets_count

  abbrev pub placed : Rpc → List ℕ → ℕ → ℕ
  placed s flight c = held s c + requests s c + count c flight

  -- A call leads to a sound state, and loses no container.
  pub record Advances (s : Rpc) (flight : List ℕ) (s' : Rpc) (flight' : List ℕ) : Type 0 where
    pub single : (c : ℕ) → placed s' flight' c ≤ 1
    pub owned : (c : ℕ) → 0 < requests s' c + count c flight' → (s'.containers c).caller ≡ a
    pub buckets : 0 < (s'.callees b).awaiting_reply.buckets_count
    pub kept : (c : ℕ) → placed s flight c ≤ placed s' flight' c

  -- The heap returns an address at which there is no container.
  abbrev pub IsFresh : (mem : Option ℕ) → Rpc → List ℕ → Type 0
  IsFresh none s flight = Unit
  IsFresh (some p) s flight = held s p + requests s p + count p flight ≡ 0

  module _ {s : Rpc} {flight : List ℕ} (ok : IsSound s flight) where
    -- A container that the caller takes, from its pool or from the heap, is nowhere else.
    taken :
        (mem : Option ℕ) (p : ℕ) (rest : List ℕ) (c : ℕ)
        → IsFresh mem s flight
        → take_container mem (s.callers a).free_containers ≡ some (p, rest)
        → count c rest
            + once p c
            + count c (s.callers a).incoming_replies
            + requests s c
            + count c flight
          ≤ 1
    unfolding take_container
    taken none p rest c fresh h = ground (arith, h, ok.single c)
    taken (some q) p rest c fresh h = ground (arith, h, fresh, ok.single c, ok.single q)

    stay : Advances s flight s flight
    stay = record {
      single = ok.single;
      owned = ok.owned;
      buckets = ok.buckets;
      kept = λ c. omega arith;
    }

    pub prepare-ready :
        (mem : Option ℕ) (msg : RpcMsg) {p : ℕ} {s' : Rpc}
        → IsFresh mem s flight
        → prepare mem a msg s ≡ ready p s'
        → Advances s flight s' (p ∷ flight)
    unfolding prepare
    prepare-ready mem msg {p} {s'} fresh e =
        elim (Option-cases (take_container mem (s.callers a).free_containers)) [
          | inl h ↦ absurd (ground (arith, h, e))
          | inr ((q, rest), h) ↦ record {
            single = λ c. ground (arith, h, e, taken mem q rest c fresh h);
            kept = λ c.
                ground
                  (arith, h, e, take_container-keeps mem (s.callers a).free_containers q rest c h);
            owned = λ c. ground (arith, h, e, ok.owned c);
            buckets = ground (arith, h, e, ok.buckets);
          }
        ]

    pub prepare-failed :
        (mem : Option ℕ) (msg : RpcMsg) {st : Status} {s' : Rpc}
        → IsFresh mem s flight
        → prepare mem a msg s ≡ failed st s'
        → Advances s flight s' flight
    unfolding prepare
    prepare-failed mem msg {st} {s'} fresh e =
        elim (Option-cases (take_container mem (s.callers a).free_containers)) [
          | inl h ↦ record {
            single = λ c. ground (arith, h, e, ok.single c);
            kept = λ c. ground (arith, h, e, ok.single c);
            owned = λ c. ground (arith, h, e, ok.owned c);
            buckets = ground (arith, h, e, ok.buckets);
          }
          | inr ((q, rest), h) ↦ record {
            single =
                λ c. ground (arith, h, e, taken mem q rest c fresh h, count-append c rest (q ∷ []));
            kept = λ c. ground (
              arith,
              h,
              e,
              take_container-keeps mem (s.callers a).free_containers q rest c h,
              count-append c rest (q ∷ []),
            );
            owned = λ c. ground (arith, h, e, ok.owned c);
            buckets = ground (arith, h, e, ok.buckets);
          }
        ]

    -- The same state, with the containers of the calls under way in another order.
    pub reorder-Advances :
        {flight' : List ℕ}
        → ((c : ℕ) → count c flight' ≡ count c flight)
        → Advances s flight s flight'
    reorder-Advances f = record {
      single = λ c. omega (arith, ok.single c, f c);
      owned = λ c h. ok.owned c (omega (arith, h, f c));
      buckets = ok.buckets;
      kept = λ c. omega (arith, f c);
    }

    pub enqueue_request-Advances :
        {flight' : List ℕ} {s' : Rpc} (core p : ℕ)
        → ((c : ℕ) → count c flight ≡ once p c + count c flight')
        → enqueue_request core (token_of b) p s ≡ some s'
        → Advances s flight s' flight'
    unfolding enqueue_request
    enqueue_request-Advances core p f e =
        let q = λ (c : ℕ). count-append c (s.callees b).incoming_rpcs (p ∷ []) in
        record {
          single = λ c. ground (arith, e, f c, ok.single c, q c);
          kept = λ c. ground (arith, e, f c, q c);
          owned = λ c. ground (arith, e, f c, ok.owned c, q c);
          buckets = ground (arith, e, ok.buckets);
        }

    pub give_back-Advances :
        {flight' : List ℕ} (p : ℕ)
        → ((c : ℕ) → count c flight ≡ once p c + count c flight')
        → Advances s flight (give_back a p s) flight'
    unfolding give_back
    give_back-Advances p f =
        let q = λ (c : ℕ). count-append c (s.callers a).free_containers (p ∷ []) in
        record {
          single = λ c. ground (arith, f c, ok.single c, q c);
          kept = λ c. ground (arith, f c, q c);
          owned = λ c. ground (arith, f c, ok.owned c);
          buckets = ground (arith, ok.buckets);
        }

    pub accept-Advances : (msg : RpcMsg) → Advances s flight (accept b msg s).2 flight
    unfolding accept
    accept-Advances msg = elim (List-cases (s.callees b).incoming_rpcs) [
      | inl e ↦ rw (accept, e) stay
      | inr (p, rest, e) ↦
          let node : Node = record { addr = p; key = (s.callees b).seq } in
          let ins = λ (c : ℕ). listed-insert (s.callees b).awaiting_reply node c ok.buckets in
          rw (accept, e)
            (record {
              single = λ c. ground (arith, e, ok.single c, ins c);
              kept = λ c. ground (arith, e, ok.single c, ins c);
              owned = λ c. ground (arith, e, ok.owned c, ins c);
              buckets =
                  ground
                    (arith, ok.buckets, buckets_count-insert (s.callees b).awaiting_reply node);
            })
    ]

    pub get_result-Advances : (msg : RpcMsg) → Advances s flight (get_result a msg s).2 flight
    unfolding get_result
    get_result-Advances msg = elim (List-cases (s.callers a).incoming_replies) [
      | inl e ↦ rw (get_result, e) stay
      | inr (p, rest, e) ↦
          rw (get_result, e)
            (record {
              single = λ c.
                  ground
                    (arith, e, ok.single c, count-append c (s.callers a).free_containers (p ∷ []));
              kept = λ c.
                  ground
                    (arith, e, ok.single c, count-append c (s.callers a).free_containers (p ∷ []));
              owned = λ c. ground (arith, e, ok.owned c);
              buckets = ground (arith, ok.buckets);
            })
    ]

    pub take_reply-Advances :
        {flight' : List ℕ} {s' : Rpc} {p : ℕ} (msg : RpcMsg)
        → ((c : ℕ) → count c flight' ≡ once p c + count c flight)
        → take_reply b msg s ≡ replying p s'
        → Advances s flight s' flight'
    unfolding take_reply
    take_reply-Advances msg f h =
        elim (Option-cases (search (s.callees b).awaiting_reply msg.opaque)) [
          | inl e ↦ absurd (ground (arith, e, h))
          | inr (n, e) ↦
              elim (Option-cases (copy_contents_from_user (s.containers n.addr).message msg)) [
                | inl k ↦ absurd (ground (arith, e, k, h))
                | inr (m, k) ↦
                    let m0 = (s.callees b).awaiting_reply in
                    let gone = λ (c : ℕ). listed-remove m0 msg.opaque {n = n} c ok.buckets e in
                    record {
                      single = λ c. ground (arith, e, k, h, f c, ok.single c, gone c);
                      kept = λ c. ground (arith, e, k, h, f c, gone c);
                      owned = λ c. ground (arith, e, k, h, f c, ok.owned c, gone c);
                      buckets = ground (arith, e, k, h, ok.buckets, buckets_count-remove m0 n);
                    }
              ]
        ]

    pub enqueue_reply_container-Advances :
        {flight' : List ℕ} (core p : ℕ)
        → ((c : ℕ) → count c flight ≡ once p c + count c flight')
        → Advances s flight (enqueue_reply_container core p s) flight'
    unfolding enqueue_reply_container
    enqueue_reply_container-Advances core p f =
        let own : (s.containers p).caller ≡ a = ground (arith, ok.owned p, f p) in
        let q = λ (c : ℕ). count-append c (s.callers a).incoming_replies (p ∷ []) in
        record {
          single = λ c. ground (arith, own, f c, ok.single c, q c);
          kept = λ c. ground (arith, own, f c, q c);
          owned = λ c. ground (arith, own, f c, ok.owned c);
          buckets = ground (arith, own, ok.buckets);
        }
