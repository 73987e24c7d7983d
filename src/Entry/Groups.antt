-- ===== src/Entry/Groups.antt =====
-- The system calls on groups and pins.
use ricerca.Common.{ℕ}
use ricerca.Status.{Status}
use ricerca.Cookie.Defs.{add_to_grp, remove_from_grp}
use ricerca.Universe.Defs.{group_cookie, entry_cookie}
use ricerca.Universe.Single.{pin, unpin, pin_to_group, unpin_from_group}
use ricerca.Entry.System.{
  Env, Entry, M, pure, ◌>>=◌, ◌>>◌, get, got, drop_ref, on_universe, on_cookie,
}
use ricerca.Entry.Handles.{is_type, with_ref, with_second}

module _ (env : Env) (entry : Entry) where
  -- user_sys_join_group
  unfoldable pub sys_join_group : (hgrp : ℕ) → M Status
  sys_join_group hgrp =
      with_ref env entry (is_type group_cookie) hgrp (λ status. status)
        λ grp. do
          s ← get
          status ←
              on_cookie entry.cookie (λ c. add_to_grp env.me (got (env.mem 0)) c (s.groups grp))
          drop_ref grp >> pure status

  -- user_sys_leave_group
  unfoldable pub sys_leave_group : (hgrp : ℕ) → M Status
  sys_leave_group hgrp =
      with_ref env entry (is_type group_cookie) hgrp (λ status. status)
        λ grp. do
          s ← get
          status ← on_cookie entry.cookie (λ c. remove_from_grp env.me c (s.groups grp))
          drop_ref grp >> pure status

  -- The two handles of the next two calls, dropped in this order.
  unfoldable pub with_entry_and_group :
      (hentry hgrp : ℕ) (body : (cookie grp : ℕ) → M Status) → M Status
  with_entry_and_group hentry hgrp body =
      with_ref env entry (is_type entry_cookie) hentry (λ status. status)
        λ cookie.
          with_second env entry (is_type group_cookie) hgrp cookie
            (λ grp. drop_ref cookie >> drop_ref grp) (λ status. status)
            λ grp. do status ← body cookie grp; drop_ref cookie >> (drop_ref grp >> pure status)

  -- user_sys_add_entry_to_group
  unfoldable pub sys_add_entry_to_group : (hentry hgrp : ℕ) → M Status
  sys_add_entry_to_group hentry hgrp = with_entry_and_group hentry hgrp λ cookie grp. do
    s ← get
    on_cookie cookie (λ c. add_to_grp env.me (got (env.mem 0)) c (s.groups grp))

  -- user_sys_remove_entry_from_group
  unfoldable pub sys_remove_entry_from_group : (hentry hgrp : ℕ) → M Status
  sys_remove_entry_from_group hentry hgrp =
      with_entry_and_group hentry hgrp
        λ cookie grp. do s ← get; on_cookie cookie (λ c. remove_from_grp env.me c (s.groups grp))

  -- user_sys_unpin and user_sys_pin
  unfoldable pub sys_unpin : (handle : ℕ) → M Status
  sys_unpin handle = do
    s ← get
    on_universe entry.universe (unpin env.me (s.cookies entry.cookie) handle)

  unfoldable pub sys_pin : (handle : ℕ) → M Status
  sys_pin handle = do
    s ← get
    on_universe entry.universe (pin env.me (s.cookies entry.cookie) handle)

  -- user_sys_unpin_from_group
  unfoldable pub sys_unpin_from_group : (handle hgrp : ℕ) → M Status
  sys_unpin_from_group handle hgrp =
      with_ref env entry (is_type group_cookie) hgrp (λ status. status)
        λ grp. do
          s ← get
          status ←
              on_universe entry.universe
                (unpin_from_group env.me (s.cookies entry.cookie) (s.groups grp) handle)
          drop_ref grp >> pure status

  -- user_sys_pin_to_group
  unfoldable pub sys_pin_to_group : (handle hgrp : ℕ) → M Status
  sys_pin_to_group handle hgrp =
      with_ref env entry (is_type group_cookie) hgrp (λ status. status)
        λ grp. do
          s ← get
          status ←
              on_universe entry.universe
                (pin_to_group env.me (s.cookies entry.cookie) (s.groups grp) handle)
          drop_ref grp >> pure status
