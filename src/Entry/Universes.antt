-- ===== src/Entry/Universes.antt =====
-- The system calls on other universes.
use ricerca.Common.{ℕ, Option, none}
use ricerca.Status.{Status}
use ricerca.Universe.Defs.{universe_type}
use ricerca.Universe.Single.{drop_cell}
use ricerca.Universe.Pair.{move_across, borrow_across}
use ricerca.Universe.Life.{fork}
use ricerca.Entry.System.{
  Env, Entry, M, pure, ◌>>=◌, ◌>>◌, get, got, ids, drop_ref, on_universe, on_pair, on_kernel,
}
use ricerca.Entry.Handles.{is_type, with_ref, with_second}
use ricerca.Entry.Create.{at_address, put_universe, with_handle}

module _ (env : Env) (entry : Entry) where
  -- user_entry_extract_universe_pair, and what runs with both references.
  unfoldable pub with_universe_pair :
      (hsrc hdst : ℕ) (body : (src dst : ℕ) → M (Status × Option ℕ)) → M (Status × Option ℕ)
  with_universe_pair hsrc hdst body =
      with_ref env entry (is_type universe_type) hsrc (λ status. (status, none))
        λ src.
          with_second env entry (is_type universe_type) hdst src
            (λ dst. drop_ref src >> drop_ref dst) (λ status. (status, none)) (body src)

  -- user_universe_move_across and user_universe_borrow_across between two universes of the system.
  unfoldable pub move_between : (src dst inner : ℕ) → M (Status × Option ℕ)
  move_between src dst inner = do
    s ← get
    on_pair src dst (move_across env.me (ids s) (got (env.mem 0)) (s.cookies entry.cookie) inner)

  unfoldable pub borrow_between : (src dst inner : ℕ) → M (Status × Option ℕ)
  borrow_between src dst inner = do
    s ← get
    on_pair src dst (borrow_across env.me (ids s) (got (env.mem 0)) (s.cookies entry.cookie) inner)

  -- user_sys_move_across_universes
  unfoldable pub sys_move_across_universes : (hsrc hdst hsrci : ℕ) → M (Status × Option ℕ)
  sys_move_across_universes hsrc hdst hsrci = with_universe_pair hsrc hdst λ src dst. do
    result ← move_between src dst hsrci
    drop_ref src >> (drop_ref dst >> pure result)

  -- user_sys_borrow_across_universes
  unfoldable pub sys_borrow_across_universes : (hsrc hdst hsrci : ℕ) → M (Status × Option ℕ)
  sys_borrow_across_universes hsrc hdst hsrci = with_universe_pair hsrc hdst λ src dst. do
    result ← borrow_between src dst hsrci
    drop_ref src >> (drop_ref dst >> pure result)

  -- user_sys_move_in
  unfoldable pub sys_move_in : (huniverse outer : ℕ) → M (Status × Option ℕ)
  sys_move_in huniverse outer =
      with_ref env entry (is_type universe_type) huniverse (λ status. (status, none))
        λ u. do result ← move_between entry.universe u outer; drop_ref u >> pure result

  -- user_sys_move_out
  unfoldable pub sys_move_out : (huniverse inner : ℕ) → M (Status × Option ℕ)
  sys_move_out huniverse inner =
      with_ref env entry (is_type universe_type) huniverse (λ status. (status, none))
        λ u. do result ← move_between u entry.universe inner; drop_ref u >> pure result

  -- user_sys_borrow_in
  unfoldable pub sys_borrow_in : (huniverse outer : ℕ) → M (Status × Option ℕ)
  sys_borrow_in huniverse outer =
      with_ref env entry (is_type universe_type) huniverse (λ status. (status, none))
        λ u. do result ← borrow_between entry.universe u outer; drop_ref u >> pure result

  -- user_sys_borrow_out
  unfoldable pub sys_borrow_out : (huniverse inner : ℕ) → M (Status × Option ℕ)
  sys_borrow_out huniverse inner =
      with_ref env entry (is_type universe_type) huniverse (λ status. (status, none))
        λ u. do result ← borrow_between u entry.universe inner; drop_ref u >> pure result

  -- user_sys_fork_universe: what is forked is the entry's own universe.
  unfoldable pub sys_fork_universe : (hsrc : ℕ) → M (Status × Option ℕ)
  sys_fork_universe hsrc =
      with_ref env entry (is_type universe_type) hsrc (λ status. (status, none))
        λ u. do
          s ← get
          made ← on_kernel entry.universe (
              fork env.me (s.cookies entry.cookie) (env.mem 0) (got (env.mem 1)) (got (env.mem 2))
                env.junk_ref)
          drop_ref u
          forked ← at_address (env.mem 0) made put_universe
          with_handle env entry forked (got (env.mem 3)) universe_type

  -- user_sys_drop_in
  unfoldable pub sys_drop_in : (huniverse inner : ℕ) → M Status
  sys_drop_in huniverse inner =
      with_ref env entry (is_type universe_type) huniverse (λ status. status)
        λ u. do
          s ← get
          status ← on_universe u (drop_cell env.me (s.cookies entry.cookie) inner)
          drop_ref u >> pure status
