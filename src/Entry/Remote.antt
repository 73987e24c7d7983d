-- ===== src/Entry/Remote.antt =====
-- The system calls for remote calls.
use ricerca.Common.{ℕ, Option, none, some, if◌then◌else◌}
use ricerca.Status.{Status}
use ricerca.Universe.Defs.{Ref, mailbox, caller, callee, token}
use ricerca.Universe.Single.{move_in_pair}
use ricerca.Rpc.Defs.{RpcMsg, Made, written, unwritten, create_caller, create_callee}
use ricerca.Rpc.Calls.{initiate, accept, return, get_result}
use ricerca.Entry.System.{
  Env, Entry, M, pure, ◌>>=◌, ◌>>◌, get, got, ids, crash, drop_ref, on_universe, on_rpc,
}
use ricerca.Entry.Handles.{is_type, is_success, own_key, with_ref, with_second}
use ricerca.Entry.Create.{with_handle}

module _ (env : Env) (entry : Entry) where
  -- user_sys_create_caller
  unfoldable pub sys_create_caller : (hmailbox opaque : ℕ) → M (Status × Option ℕ)
  sys_create_caller hmailbox opaque =
      with_ref env entry (is_type mailbox) hmailbox (λ status. (status, none))
        λ box. do
          made ← on_rpc (λ r.
              let (st, p, r') =
                create_caller (env.mem 0) (env.mem 1) (got (env.mem 2)) box opaque r in
              ((st, p), r'))
          drop_ref box >> with_handle env entry made (got (env.mem 3)) caller

  -- The end of user_sys_create_callee after a creation with success: the callee and its token get
  -- handles. A creation that wrote no pointers and still succeeded leaves uninitialised ones.
  unfoldable pub store_made : Made → M (Status × Option (ℕ × ℕ))
  store_made unwritten = crash
  store_made (written p t) = do
    s ← get
    let first : Ref = record { ref = p; type = callee; pin_cookie = own_key env entry s }
    let second : Ref = record { ref = t; type = token; pin_cookie = own_key env entry s }
    (status, cells) ←
        on_universe entry.universe
          (move_in_pair env.me (ids s) (got (env.mem 4)) (got (env.mem 5)) first second)
    elim cells [
      | none ↦ drop_ref p >> (drop_ref t >> pure (status, none))
      | some both ↦ pure (status, some both)
    ]

  -- user_sys_create_callee
  unfoldable pub sys_create_callee : (hmailbox opaque buckets : ℕ) → M (Status × Option (ℕ × ℕ))
  sys_create_callee hmailbox opaque buckets =
      with_ref env entry (is_type mailbox) hmailbox (λ status. (status, none))
        λ box. do
          (status, made) ← on_rpc (λ r.
              let (st, made, r') =
                create_callee (env.mem 0) (env.mem 1) (got (env.mem 2)) (got (env.mem 3))
                  env.junk_nodes box opaque buckets r in
              ((st, made), r'))
          drop_ref box >> (if is_success status then store_made made else pure (status, none))

  -- user_sys_rpc_call
  unfoldable pub sys_rpc_call : (hcaller htoken : ℕ) → RpcMsg → M Status
  sys_rpc_call hcaller htoken args =
      with_ref env entry (is_type caller) hcaller (λ status. status)
        λ from.
          with_second env entry (is_type token) htoken from (λ to. drop_ref to >> drop_ref from)
            (λ status. status)
            λ to. do
              status ← on_rpc (initiate (env.mem 0) env.core from to args)
              drop_ref to >> (drop_ref from >> pure status)

  -- user_sys_rpc_accept; `args` is the buffer.
  unfoldable pub sys_rpc_accept : (hcallee : ℕ) → RpcMsg → M (Status × RpcMsg)
  sys_rpc_accept hcallee args =
      with_ref env entry (is_type callee) hcallee (λ status. (status, args))
        λ to. do
          result ← on_rpc (λ r. let (st, m, r') = accept to args r in ((st, m), r'))
          drop_ref to >> pure result

  -- user_sys_rpc_return
  unfoldable pub sys_rpc_return : (hcallee : ℕ) → RpcMsg → M Status
  sys_rpc_return hcallee ret =
      with_ref env entry (is_type callee) hcallee (λ status. status)
        λ to. do status ← on_rpc (return env.core to ret); drop_ref to >> pure status

  -- user_sys_rpc_recv_reply; `ret` is the buffer.
  unfoldable pub sys_rpc_recv_reply : (hcaller : ℕ) → RpcMsg → M (Status × RpcMsg)
  sys_rpc_recv_reply hcaller ret =
      with_ref env entry (is_type caller) hcaller (λ status. (status, ret))
        λ from. do
          result ← on_rpc (λ r. let (st, m, r') = get_result from ret r in ((st, m), r'))
          drop_ref from >> pure result
