-- ===== src/Entry/Create.antt =====
-- Setting an entry up and taking it down, the calls that only create an object, and thread-local
-- values.
use ricerca.Common.{ℕ, Bool, true, Option, none, some, returns}
use ricerca.Status.{Status, success}
use ricerca.Cookie.Defs.{EntryCookie, GroupCookie, group_cookie_create, entry_cookie_create}
use ricerca.Memory.Refcount.{init}
use ricerca.Notifications.Boxes.{Notification, new_mailbox, recieve, put_at}
use ricerca.Universe.Defs.{
  Universe, Ref, ObjType, mailbox, universe_type, group_cookie, entry_cookie,
}
use ricerca.Universe.Single.{move_in, move_out, drop_cell}
use ricerca.Universe.Life.{create}
use ricerca.Tls.{TlsTable, table_create, set_key, get_key}
use ricerca.Entry.System.{
  Env, Entry, M, pure, ◌>>=◌, ◌>>◌, get, got, ids, objects, set_objects, drop_ref, on_universe,
  on_boxes, on_keys, on_kernel,
}
use ricerca.Entry.Handles.{is_type, with_ref, store_new}

abbrev pub put_universe : ℕ → Universe → M (Unit {0})
put_universe p u s = returns tt (record s { universes = put_at s.universes p u })

abbrev pub put_group : ℕ → GroupCookie → M (Unit {0})
put_group p g s = returns tt (record s { groups = put_at s.groups p g })

abbrev pub put_cookie : ℕ → EntryCookie → M (Unit {0})
put_cookie p c s = returns tt (record s { cookies = put_at s.cookies p c })

abbrev pub put_table : ℕ → TlsTable → M (Unit {0})
put_table p t s =
    returns tt
      (set_objects (record s { tls_tables = put_at s.tls_tables p t }) (init p true (objects s)))

-- An object that a creating call has made at the address `mem`, which `put` stores there.
abbrev pub at_address :
    {A : Type 0}
    → (mem : Option ℕ) (made : Status × Option A) (put : ℕ → A → M (Unit {0}))
    → M (Status × Option ℕ)
at_address none made put = pure (made.0, none)
at_address (some p) (status, none) put = pure (status, none)
at_address (some p) (status, some a) put = put p a >> pure (status, some p)

module _ (env : Env) where
  -- user_universe_create, user_entry_cookie_create, user_group_cookie_create and
  -- user_tls_table_create on the system; the first argument is the number of their first allocation.
  unfoldable pub new_universe : (mem alloc : Option ℕ) → (source : ℕ) → M (Status × Option ℕ)
  new_universe mem alloc source = do
    made ← on_kernel source (λ k. let (st, u, k') = create mem (got alloc) k in returns (st, u) k')
    at_address mem made put_universe

  unfoldable pub new_entry_cookie : (mem alloc : Option ℕ) → M (Status × Option ℕ)
  new_entry_cookie mem alloc = do
    made ← on_keys (λ k. let (st, c, k') = entry_cookie_create mem (got alloc) k in ((st, c), k'))
    at_address mem made put_cookie

  unfoldable pub new_group_cookie : (mem : Option ℕ) → M (Status × Option ℕ)
  new_group_cookie mem = do
    made ← on_keys (λ k. let (st, g, k') = group_cookie_create mem k in ((st, g), k'))
    at_address mem made put_group

  unfoldable pub new_tls_table : (mem alloc : Option ℕ) → M (Status × Option ℕ)
  new_tls_table mem alloc =
      at_address mem (table_create (got mem) (got alloc) env.junk_nodes env.junk_values) put_table

  -- user_api_entry_init; `old` is the memory of the entry.
  unfoldable pub api_entry_init : (old : Entry) → M (Status × Entry)
  api_entry_init old = do
    (status, universe) ← new_universe (env.mem 0) (env.mem 1) old.universe
    elim universe [
      | none ↦ pure (status, old)
      | some u ↦ do
        (status, cookie) ← new_entry_cookie (env.mem 2) (env.mem 3)
        elim cookie [
          | none ↦ drop_ref u >> pure (status, record old { universe = u })
          | some c ↦ do
            (status, tls) ← new_tls_table (env.mem 4) (env.mem 5)
            elim tls [
              | none ↦
                  drop_ref c
                  >> (drop_ref u >> pure (status, record old { universe = u; cookie = c }))
              | some t ↦ pure (success, record { universe = u; cookie = c; tls = t })
            ]
        ]
    ]

module _ (env : Env) (entry : Entry) where
  -- user_api_entry_deinit
  unfoldable pub api_entry_deinit : M (Unit {0})
  api_entry_deinit = drop_ref entry.universe >> (drop_ref entry.cookie >> drop_ref entry.tls)

  -- user_api_entry_move_handle_out and user_api_entry_move_handle_in
  unfoldable pub api_entry_move_handle_out : (handle : ℕ) → M (Status × Option Ref)
  api_entry_move_handle_out handle = on_universe entry.universe (move_out env.me handle)

  unfoldable pub api_entry_move_handle_in : Ref → M (Status × Option ℕ)
  api_entry_move_handle_in ref = do
    s ← get
    on_universe entry.universe (move_in env.me (ids s) (got (env.mem 0)) ref)

  -- What the creating calls do with a new object: it gets a handle, or the call ends.
  unfoldable pub with_handle : Status × Option ℕ → (alloc : Bool) → ObjType → M (Status × Option ℕ)
  with_handle (status, none) alloc type = pure (status, none)
  with_handle (status, some p) alloc type = store_new env entry alloc p type

  -- user_sys_create_mailbox
  unfoldable pub sys_create_mailbox : (percpu : Bool) → M (Status × Option ℕ)
  sys_create_mailbox percpu = do
    made ← on_boxes (λ b.
        let (st, p, b') = new_mailbox (env.mem 0) (got (env.mem 1)) (got (env.mem 2)) percpu b in
        returns (st, p) b')
    with_handle made (got (env.mem 3)) mailbox

  -- user_sys_get_notification
  unfoldable pub sys_get_notification : (hmailbox : ℕ) → M (Status × Option Notification)
  sys_get_notification hmailbox =
      with_ref env entry (is_type mailbox) hmailbox (λ status. (status, none))
        λ ref. do
          (status, note) ← on_boxes (recieve env.me env.core ref)
          drop_ref ref >> pure (status, some note)

  -- user_sys_create_group_cookie
  unfoldable pub sys_create_group_cookie : M (Status × Option ℕ)
  sys_create_group_cookie = do
    made ← new_group_cookie env (env.mem 0)
    with_handle made (got (env.mem 1)) group_cookie

  -- user_sys_create_entry_cookie
  unfoldable pub sys_create_entry_cookie : M (Status × Option ℕ)
  sys_create_entry_cookie = do
    made ← new_entry_cookie env (env.mem 0) (env.mem 1)
    with_handle made (got (env.mem 2)) entry_cookie

  -- user_sys_create_universe
  unfoldable pub sys_create_universe : M (Status × Option ℕ)
  sys_create_universe = do
    made ← new_universe env (env.mem 0) (env.mem 1) entry.universe
    with_handle made (got (env.mem 2)) universe_type

  -- user_sys_drop
  unfoldable pub sys_drop : (handle : ℕ) → M Status
  sys_drop handle = do
    s ← get
    on_universe entry.universe (drop_cell env.me (s.cookies entry.cookie) handle)

  -- user_sys_set_tls_key and user_sys_get_tls_key
  unfoldable pub sys_set_tls_key : (key value : ℕ) → M Status
  sys_set_tls_key key value s =
      let (status, t) = set_key (env.mem 0) key value (s.tls_tables entry.tls) in
      returns status (record s { tls_tables = put_at s.tls_tables entry.tls t })

  unfoldable pub sys_get_tls_key : (key : ℕ) → M ℕ
  sys_get_tls_key key s = returns (get_key key (s.tls_tables entry.tls)) s
