-- ===== src/Entry/Calls.antt =====
-- The system calls whose first step is to reach an object by a handle.
use ricerca.Common.{ℕ, Bool, ◌||◌, List}
use ricerca.Status.{Status}
use ricerca.Universe.Defs.{
  ObjType, caller, callee, mailbox, universe_type, group_cookie, entry_cookie, shm_owner,
  shm_rw_ref, shm_ro_ref,
}
use ricerca.Rpc.Defs.{RpcMsg}
use ricerca.Entry.System.{Env, Entry, M, pure, ◌>>=◌}
use ricerca.Entry.Handles.{is_type}
use ricerca.Entry.Create.{sys_get_notification}
use ricerca.Entry.Groups.{
  sys_join_group, sys_leave_group, sys_add_entry_to_group, sys_remove_entry_from_group,
  sys_unpin_from_group, sys_pin_to_group,
}
use ricerca.Entry.Remote.{
  sys_create_caller, sys_create_callee, sys_rpc_call, sys_rpc_accept, sys_rpc_return,
  sys_rpc_recv_reply,
}
use ricerca.Entry.Universes.{
  sys_move_across_universes, sys_borrow_across_universes, sys_move_in, sys_move_out, sys_borrow_in,
  sys_borrow_out, sys_fork_universe, sys_drop_in,
}
use ricerca.Entry.Shared.{
  sys_borrow_shm_rw, sys_borrow_shm_ro, sys_read_from_shm_ref, sys_write_to_shm_ref,
  sys_unrestrict_shm, sys_restrict_shm, sys_restrict_shm_to_group,
}

-- A call with its arguments, but for the handle that is looked up first.
pub data HandleCall : Type 0 where
  get_notification join_group leave_group fork_universe borrow_shm_rw borrow_shm_ro : HandleCall
  add_entry_to_group remove_entry_from_group : (hgrp : ℕ) → HandleCall
  unpin_from_group pin_to_group : (handle : ℕ) → HandleCall
  create_caller : (opaque : ℕ) → HandleCall
  create_callee : (opaque buckets : ℕ) → HandleCall
  rpc_call : (htoken : ℕ) → RpcMsg → HandleCall
  rpc_accept rpc_return rpc_recv_reply : RpcMsg → HandleCall
  move_across_universes borrow_across_universes : (hdst hsrci : ℕ) → HandleCall
  move_in move_out borrow_in borrow_out drop_in : (cell : ℕ) → HandleCall
  read_from_shm_ref : (offset len : ℕ) → HandleCall
  write_to_shm_ref : (offset : ℕ) → List ℕ → HandleCall
  unrestrict_shm restrict_shm : (writable : Bool) → HandleCall
  restrict_shm_to_group : (hgrp : ℕ) (writable : Bool) → HandleCall

-- The types that the call takes.
abbrev pub wanted : HandleCall → ObjType → Bool
wanted get_notification = is_type mailbox
wanted join_group = is_type group_cookie
wanted leave_group = is_type group_cookie
wanted fork_universe = is_type universe_type
wanted borrow_shm_rw = is_type shm_owner
wanted borrow_shm_ro = is_type shm_owner
wanted (add_entry_to_group hgrp) = is_type entry_cookie
wanted (remove_entry_from_group hgrp) = is_type entry_cookie
wanted (unpin_from_group handle) = is_type group_cookie
wanted (pin_to_group handle) = is_type group_cookie
wanted (create_caller opaque) = is_type mailbox
wanted (create_callee opaque buckets) = is_type mailbox
wanted (rpc_call htoken args) = is_type caller
wanted (rpc_accept args) = is_type callee
wanted (rpc_return ret) = is_type callee
wanted (rpc_recv_reply ret) = is_type caller
wanted (move_across_universes hdst hsrci) = is_type universe_type
wanted (borrow_across_universes hdst hsrci) = is_type universe_type
wanted (move_in cell) = is_type universe_type
wanted (move_out cell) = is_type universe_type
wanted (borrow_in cell) = is_type universe_type
wanted (borrow_out cell) = is_type universe_type
wanted (drop_in cell) = is_type universe_type
wanted (read_from_shm_ref offset len) = λ t. is_type shm_ro_ref t || is_type shm_rw_ref t
wanted (write_to_shm_ref offset bytes) = is_type shm_rw_ref
wanted (unrestrict_shm writable) = is_type shm_owner
wanted (restrict_shm writable) = is_type shm_owner
wanted (restrict_shm_to_group hgrp writable) = is_type shm_owner

-- The status of a call that also writes results.
abbrev pub status_of : {B : Type 0} → M (Status × B) → M Status
status_of call = call >>= λ r. pure (r.0)

-- The call on a handle, and the status that it returns.
unfoldable pub invoke : (env : Env) (entry : Entry) → HandleCall → (handle : ℕ) → M Status
invoke env entry get_notification h = status_of (sys_get_notification env entry h)
invoke env entry join_group h = sys_join_group env entry h
invoke env entry leave_group h = sys_leave_group env entry h
invoke env entry fork_universe h = status_of (sys_fork_universe env entry h)
invoke env entry borrow_shm_rw h = status_of (sys_borrow_shm_rw env entry h)
invoke env entry borrow_shm_ro h = status_of (sys_borrow_shm_ro env entry h)
invoke env entry (add_entry_to_group hgrp) h = sys_add_entry_to_group env entry h hgrp
invoke env entry (remove_entry_from_group hgrp) h = sys_remove_entry_from_group env entry h hgrp
invoke env entry (unpin_from_group handle) h = sys_unpin_from_group env entry handle h
invoke env entry (pin_to_group handle) h = sys_pin_to_group env entry handle h
invoke env entry (create_caller opaque) h = status_of (sys_create_caller env entry h opaque)
invoke env entry (create_callee opaque buckets) h =
    status_of (sys_create_callee env entry h opaque buckets)
invoke env entry (rpc_call htoken args) h = sys_rpc_call env entry h htoken args
invoke env entry (rpc_accept args) h = status_of (sys_rpc_accept env entry h args)
invoke env entry (rpc_return ret) h = sys_rpc_return env entry h ret
invoke env entry (rpc_recv_reply ret) h = status_of (sys_rpc_recv_reply env entry h ret)
invoke env entry (move_across_universes hdst hsrci) h =
    status_of (sys_move_across_universes env entry h hdst hsrci)
invoke env entry (borrow_across_universes hdst hsrci) h =
    status_of (sys_borrow_across_universes env entry h hdst hsrci)
invoke env entry (move_in cell) h = status_of (sys_move_in env entry h cell)
invoke env entry (move_out cell) h = status_of (sys_move_out env entry h cell)
invoke env entry (borrow_in cell) h = status_of (sys_borrow_in env entry h cell)
invoke env entry (borrow_out cell) h = status_of (sys_borrow_out env entry h cell)
invoke env entry (drop_in cell) h = sys_drop_in env entry h cell
invoke env entry (read_from_shm_ref offset len) h =
    status_of (sys_read_from_shm_ref env entry h offset len)
invoke env entry (write_to_shm_ref offset bytes) h = sys_write_to_shm_ref env entry h offset bytes
invoke env entry (unrestrict_shm writable) h = sys_unrestrict_shm env entry h writable
invoke env entry (restrict_shm writable) h = sys_restrict_shm env entry h writable
invoke env entry (restrict_shm_to_group hgrp writable) h =
    sys_restrict_shm_to_group env entry h hgrp writable
