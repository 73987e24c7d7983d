-- ===== src/Rpc/System.antt =====
-- Calls of many tasks on one caller and one callee, section by section in any order.
use ricerca.Common.{
  ℕ, ◌+◌, ◌≡◌, ◌≤◌, Option, none, some, List, ◌∷◌, ◌++◌, arith, count, count-append,
}
use ricerca.Status.{Status}
use ricerca.Containers.Intmap.Tally.{once}
use ricerca.Rpc.Defs.{RpcMsg, Rpc, token_of, enqueue_reply_container}
use ricerca.Rpc.Calls.{
  failed, ready, prepare, enqueue_request, give_back, accept, refused, replying, take_reply,
  get_result,
}
use ricerca.Rpc.Containers.{
  IsSound, IsFresh, Advances, placed, prepare-ready, prepare-failed, reorder-Advances,
  enqueue_request-Advances, give_back-Advances, accept-Advances, take_reply-Advances,
  enqueue_reply_container-Advances, get_result-Advances,
}

-- The objects, and the containers of the calls that stand between two sections: before the callee's
-- lock, and before the caller's with an answer or with a request that a dead callee has not taken.
pub record Running : Type 0 where
  pub rpc : Rpc
  pub sending : List ℕ
  pub answering : List ℕ
  pub undelivered : List ℕ

-- The containers of all calls under way.
abbrev pub flight : Running → List ℕ
flight t = t.sending ++ (t.answering ++ t.undelivered)

-- A list from which one container is taken.
count-taken :
    {xs : List ℕ} (c p : ℕ) (front back : List ℕ)
    → xs ≡ front ++ p ∷ back
    → count c xs ≡ once p c + count c (front ++ back)
count-taken c p front back f =
    ground (arith, f, count-append c front (p ∷ back), count-append c front back)

count-lists :
    (xs ys zs : List ℕ) (c : ℕ) → count c (xs ++ (ys ++ zs)) ≡ count c xs + count c ys + count c zs
count-lists xs ys zs c = omega (arith, count-append c xs (ys ++ zs), count-append c ys zs)

module _ (a b : ℕ) where
  pub data Step (t u : Running) : Type 0 where
    prepares :
        (mem : Option ℕ) (msg : RpcMsg) (p : ℕ)
        → IsFresh a b mem t.rpc (flight t)
        → prepare mem a msg t.rpc ≡ ready p u.rpc
        → u ≡ record t { rpc = u.rpc; sending = p ∷ t.sending }
        → Step t u
    fails :
        (mem : Option ℕ) (msg : RpcMsg) (status : Status)
        → IsFresh a b mem t.rpc (flight t)
        → prepare mem a msg t.rpc ≡ failed status u.rpc
        → u ≡ record t { rpc = u.rpc }
        → Step t u
    enqueues :
        (core p : ℕ) (front back : List ℕ)
        → t.sending ≡ front ++ p ∷ back
        → enqueue_request core (token_of b) p t.rpc ≡ some u.rpc
        → u ≡ record t { rpc = u.rpc; sending = front ++ back }
        → Step t u
    finds_shut_down :
        (core p : ℕ) (front back : List ℕ)
        → t.sending ≡ front ++ p ∷ back
        → enqueue_request core (token_of b) p t.rpc ≡ none
        → u ≡ record t { sending = front ++ back; undelivered = p ∷ t.undelivered }
        → Step t u
    gives_back :
        (p : ℕ) (front back : List ℕ)
        → t.undelivered ≡ front ++ p ∷ back
        → u ≡ record t { rpc = give_back a p t.rpc; undelivered = front ++ back }
        → Step t u
    accepts : (msg : RpcMsg) → u ≡ record t { rpc = (accept b msg t.rpc).2 } → Step t u
    answers :
        (msg : RpcMsg) (p : ℕ)
        → take_reply b msg t.rpc ≡ replying p u.rpc
        → u ≡ record t { rpc = u.rpc; answering = p ∷ t.answering }
        → Step t u
    refuses :
        (msg : RpcMsg) (status : Status)
        → take_reply b msg t.rpc ≡ refused status
        → u ≡ t
        → Step t u
    replies :
        (core p : ℕ) (front back : List ℕ)
        → t.answering ≡ front ++ p ∷ back
        → u ≡ record t { rpc = enqueue_reply_container core p t.rpc; answering = front ++ back }
        → Step t u
    gets_result : (msg : RpcMsg) → u ≡ record t { rpc = (get_result a msg t.rpc).2 } → Step t u

  pub data Reach (t : Running) : Running → Type 0 where
    start : Reach t t
    later : {u v : Running} → Reach t u → Step u v → Reach t v

  abbrev pub IsRunning : Running → Type 0
  IsRunning t = IsSound a b t.rpc (flight t)

  abbrev Moves : Running → Running → Type 0
  Moves t u = Advances a b t.rpc (flight t) u.rpc (flight u)

  Step-Advances : {t u : Running} → IsRunning t → Step t u → Moves t u
  Step-Advances ok (prepares mem msg p fresh e l) = rw l (prepare-ready a b ok mem msg fresh e)
  Step-Advances ok (fails mem msg status fresh e l) = rw l (prepare-failed a b ok mem msg fresh e)
  Step-Advances {t} ok (enqueues core p front back f e l) = rw l (
      enqueue_request-Advances a b ok core p
        (λ c. omega (
          arith,
          count-taken c p front back f,
          count-lists t.sending t.answering t.undelivered c,
          count-lists (front ++ back) t.answering t.undelivered c,
        ))
        e)
  Step-Advances {t} ok (finds_shut_down core p front back f e l) = rw l (
      reorder-Advances a b ok (λ c. ground (
        arith,
        count-taken c p front back f,
        count-lists t.sending t.answering t.undelivered c,
        count-lists (front ++ back) t.answering (p ∷ t.undelivered) c,
      )))
  Step-Advances {t} ok (gives_back p front back f l) = rw l (
      give_back-Advances a b ok p (λ c. omega (
        arith,
        count-taken c p front back f,
        count-lists t.sending t.answering t.undelivered c,
        count-lists t.sending t.answering (front ++ back) c,
      )))
  Step-Advances ok (accepts msg l) = rw l (accept-Advances a b ok msg)
  Step-Advances {t} ok (answers msg p e l) = rw l (
      take_reply-Advances a b ok msg
        (λ c. ground (
          arith,
          count-lists t.sending t.answering t.undelivered c,
          count-lists t.sending (p ∷ t.answering) t.undelivered c,
        ))
        e)
  Step-Advances {t} ok (refuses msg status e l) =
      rw l (reorder-Advances a b ok {flight' = flight t} (λ c. omega arith))
  Step-Advances {t} ok (replies core p front back f l) = rw l (
      enqueue_reply_container-Advances a b ok core p (λ c. omega (
        arith,
        count-taken c p front back f,
        count-lists t.sending t.answering t.undelivered c,
        count-lists t.sending (front ++ back) t.undelivered c,
      )))
  Step-Advances ok (gets_result msg l) = rw l (get_result-Advances a b ok msg)

  -- However the locked sections of initiating, accepting, returning and getting results on one
  -- caller and one callee interleave, where the heap gives addresses at which there is no
  -- container: no container gets into two places, none that is with the callee or with a call under
  -- way between two sections loses its caller, and none that has been in a place is lost.
  pub Reach-IsRunning :
      {t u : Running}
      → IsRunning t
      → Reach t u
      → IsRunning u × ((c : ℕ) → placed a b t.rpc (flight t) c ≤ placed a b u.rpc (flight u) c)
  Reach-IsRunning ok start = (ok, λ c. omega arith)
  Reach-IsRunning ok (later r step) =
      let (ok', kept) = Reach-IsRunning ok r in
      let m = Step-Advances ok' step in
      (
        record { single = m.single; owned = m.owned; buckets = m.buckets },
        λ c. omega (arith, kept c, m.kept c),
      )
