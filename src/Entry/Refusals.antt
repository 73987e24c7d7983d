-- ===== src/Entry/Refusals.antt =====
-- System calls on handles that name nothing, or an object of another type.
use mathlib.Core.Path.{fun_ext}
use ricerca.Common.{
  ℕ, ◌≡◌, ◌≢◌, ◌<◌, refl, Bool, true, false, none, some, arith, size_max, if◌then◌else◌, returns,
  ap, ◌∙◌,
}
use ricerca.Status.{Status, success, invalid_handle, invalid_handle_type}
use ricerca.Memory.Refcount.{borrow}
use ricerca.Memory.Refcount.Balance.{refs, drop-borrow}
use ricerca.Memory.Dynarray.{len}
use ricerca.Notifications.Boxes.{put_at}
use ricerca.Universe.Defs.{Ref, ObjType}
use ricerca.Universe.Single.{World, borrow_out}
use ricerca.Universe.Table.{lookup}
use ricerca.Universe.Frame.{IsReady}
use ricerca.Universe.Spec.{borrow_out-counts}
use ricerca.Universe.Errors.{invalid_handle_unchanged}
use ricerca.Entry.System.{
  System, Env, Entry, M, pure, ◌>>=◌, ◌>>◌, objects, set_objects, ids, drop_ref, on_universe,
  run_on, with_world,
}
use ricerca.Entry.Handles.{with_ref}
use ricerca.Entry.Calls.{
  HandleCall, wanted as wanted_by, invoke, status_of, get_notification, join_group, leave_group,
  fork_universe, borrow_shm_rw, borrow_shm_ro, add_entry_to_group, remove_entry_from_group,
  unpin_from_group, pin_to_group, create_caller, create_callee, rpc_call, rpc_accept, rpc_return,
  rpc_recv_reply, move_across_universes, borrow_across_universes, move_in, move_out, borrow_in,
  borrow_out as borrow_out_call, drop_in, read_from_shm_ref, write_to_shm_ref, unrestrict_shm,
  restrict_shm, restrict_shm_to_group,
}
use ricerca.Entry.Create.{sys_get_notification}
use ricerca.Entry.Groups.{
  sys_add_entry_to_group, sys_join_group, sys_leave_group, sys_pin_to_group,
  sys_remove_entry_from_group, sys_unpin_from_group, with_entry_and_group,
}
use ricerca.Entry.Remote.{
  sys_create_callee, sys_create_caller, sys_rpc_accept, sys_rpc_call, sys_rpc_recv_reply,
  sys_rpc_return,
}
use ricerca.Entry.Universes.{
  sys_borrow_across_universes, sys_borrow_in, sys_borrow_out, sys_drop_in, sys_fork_universe,
  sys_move_across_universes, sys_move_in, sys_move_out, with_universe_pair,
}
use ricerca.Entry.Shared.{
  sys_borrow_shm_ro, sys_borrow_shm_rw, sys_read_from_shm_ref, sys_restrict_shm,
  sys_restrict_shm_to_group, sys_unrestrict_shm, sys_write_to_shm_ref, borrow_shm,
}

put_at_self : {A : Type 0} (f : ℕ → A) (p : ℕ) → put_at f p (f p) ≡ f
put_at_self f p = fun_ext λ q. ground arith

abbrev pub world_of : System → ℕ → World
world_of s u = record { universe = s.universes u; objects = objects s }

-- A call that returns hands its result to what follows.
pub bind-returns :
    {A B : Type 0} (call : M A) (next : A → M B) (a : A) {s t : System}
    → call s ≡ returns a t
    → (call >>= next) s ≡ next a t
bind-returns call next a e = rw (◌>>=◌, e) refl

module _ (env : Env) (entry : Entry) (s : System)
    (ok : IsReady (ids s) (world_of s entry.universe)) where
  on_universe-borrow_out :
      (h : ℕ) (r : Ref)
      → lookup (s.universes entry.universe) h ≡ some r
      → on_universe entry.universe (borrow_out env.me h) s
        ≡ returns (success, some (r.type, r.ref)) (set_objects s (borrow r.ref (objects s)))
  unfolding on_universe
  on_universe-borrow_out h r e =
      ap (run_on (with_world s entry.universe)) (borrow_out-counts ok env.me h e)
      ∙ rw (put_at_self s.universes entry.universe) refl

  on_universe-borrow_out-invalid :
      (h : ℕ)
      → lookup (s.universes entry.universe) h ≡ none
      → h ≢ len (s.universes entry.universe).cells
      → on_universe entry.universe (borrow_out env.me h) s ≡ returns (invalid_handle, none) s
  unfolding on_universe
  on_universe-borrow_out-invalid h e ne =
      let u = invalid_handle_unchanged ok env.me h (s.cookies entry.cookie) (λ _. true) 0 e ne in
      ap (run_on (with_world s entry.universe)) (u.1)
      ∙ rw (put_at_self s.universes entry.universe) refl

  -- A handle that names a reference.
  pub with_ref-found :
      {A : Type 0} (wanted : ObjType → Bool) (h : ℕ) (bad : Status → A) (body : ℕ → M A) (r : Ref)
      → lookup (s.universes entry.universe) h ≡ some r
      → with_ref env entry wanted h bad body s
        ≡ (if wanted r.type then body r.ref else drop_ref r.ref >> pure (bad invalid_handle_type))
            (set_objects s (borrow r.ref (objects s)))
  unfolding with_ref
  with_ref-found wanted h bad body r e =
      bind-returns (on_universe entry.universe (borrow_out env.me h)) _
        (success, some (r.type, r.ref)) (on_universe-borrow_out h r e)

  with_ref-invalid :
      {A : Type 0} (wanted : ObjType → Bool) (h : ℕ) (bad : Status → A) (body : ℕ → M A)
      → lookup (s.universes entry.universe) h ≡ none
      → h ≢ len (s.universes entry.universe).cells
      → with_ref env entry wanted h bad body s ≡ returns (bad invalid_handle) s
  unfolding with_ref
  with_ref-invalid wanted h bad body e ne =
      bind-returns (on_universe entry.universe (borrow_out env.me h)) _ (invalid_handle, none)
        (on_universe-borrow_out-invalid h e ne)

  with_ref-wrong :
      {A : Type 0} (wanted : ObjType → Bool) (h : ℕ) (bad : Status → A) (body : ℕ → M A) (r : Ref)
      → lookup (s.universes entry.universe) h ≡ some r
      → wanted r.type ≡ false
      → 0 < refs (objects s) r.ref
      → refs (objects s) r.ref < size_max
      → with_ref env entry wanted h bad body s ≡ returns (bad invalid_handle_type) s
  unfolding drop_ref
  with_ref-wrong wanted h bad body r e w pos room =
      rw (with_ref-found wanted h bad body r e, w, drop_ref, drop-borrow r.ref (objects s) pos room)
        refl

-- Why a call does not get the object that it wants.
pub data Refusal (s : System) (entry : Entry) (wanted : ObjType → Bool) (h : ℕ) (status : Status)
    : Type 0 where
  -- No cell in use has the number of the handle, which is not the number behind the last cell.
  names_nothing :
      lookup (s.universes entry.universe) h ≡ none
      → h ≢ len (s.universes entry.universe).cells
      → status ≡ invalid_handle
      → Refusal s entry wanted h status
  -- The handle names an object of another type, whose reference count has room for one more.
  wrong_type :
      (r : Ref)
      → lookup (s.universes entry.universe) h ≡ some r
      → wanted r.type ≡ false
      → 0 < refs (objects s) r.ref
      → refs (objects s) r.ref < size_max
      → status ≡ invalid_handle_type
      → Refusal s entry wanted h status

module _ (env : Env) (entry : Entry) (s : System)
    (ok : IsReady (ids s) (world_of s entry.universe)) where
  with_ref-refuses :
      {A : Type 0} {wanted : ObjType → Bool} {h : ℕ} {status : Status} (bad : Status → A)
      (body : ℕ → M A)
      → Refusal s entry wanted h status
      → with_ref env entry wanted h bad body s ≡ returns (bad status) s
  with_ref-refuses {wanted = wanted} {h = h} bad body (names_nothing none_ ne e) =
      rw e (with_ref-invalid env entry s ok wanted h bad body none_ ne)
  with_ref-refuses {wanted = wanted} {h = h} bad body (wrong_type r found w pos room e) =
      rw e (with_ref-wrong env entry s ok wanted h bad body r found w pos room)

  status_of-refuses :
      {B : Type 0} {status : Status} {b : B} (call : M (Status × B))
      → call s ≡ returns (status, b) s
      → status_of call s ≡ returns status s
  status_of-refuses {status = status} {b = b} call e = bind-returns call _ (status, b) e

  -- A call on a handle that it refuses says why and changes nothing.
  pub invoke-refuses :
      (c : HandleCall) {h : ℕ} {status : Status}
      → Refusal s entry (wanted_by c) h status
      → invoke env entry c h s ≡ returns status s
  unfolding invoke sys_add_entry_to_group sys_borrow_across_universes sys_borrow_in sys_borrow_out
      sys_borrow_shm_ro sys_borrow_shm_rw sys_create_callee sys_create_caller sys_drop_in
      sys_fork_universe sys_get_notification sys_join_group sys_leave_group
      sys_move_across_universes sys_move_in sys_move_out sys_pin_to_group sys_read_from_shm_ref
      sys_remove_entry_from_group sys_restrict_shm sys_restrict_shm_to_group sys_rpc_accept
      sys_rpc_call sys_rpc_recv_reply sys_rpc_return sys_unpin_from_group sys_unrestrict_shm
      sys_write_to_shm_ref with_entry_and_group with_universe_pair borrow_shm
  invoke-refuses get_notification {h = h} r =
      status_of-refuses (sys_get_notification env entry h) (with_ref-refuses _ _ r)
  invoke-refuses join_group r = with_ref-refuses _ _ r
  invoke-refuses leave_group r = with_ref-refuses _ _ r
  invoke-refuses fork_universe {h = h} r =
      status_of-refuses (sys_fork_universe env entry h) (with_ref-refuses _ _ r)
  invoke-refuses borrow_shm_rw {h = h} r =
      status_of-refuses (sys_borrow_shm_rw env entry h) (with_ref-refuses _ _ r)
  invoke-refuses borrow_shm_ro {h = h} r =
      status_of-refuses (sys_borrow_shm_ro env entry h) (with_ref-refuses _ _ r)
  invoke-refuses (add_entry_to_group hgrp) r = with_ref-refuses _ _ r
  invoke-refuses (remove_entry_from_group hgrp) r = with_ref-refuses _ _ r
  invoke-refuses (unpin_from_group handle) r = with_ref-refuses _ _ r
  invoke-refuses (pin_to_group handle) r = with_ref-refuses _ _ r
  invoke-refuses (create_caller opaque) {h = h} r =
      status_of-refuses (sys_create_caller env entry h opaque) (with_ref-refuses _ _ r)
  invoke-refuses (create_callee opaque buckets) {h = h} r =
      status_of-refuses (sys_create_callee env entry h opaque buckets) (with_ref-refuses _ _ r)
  invoke-refuses (rpc_call htoken args) r = with_ref-refuses _ _ r
  invoke-refuses (rpc_accept args) {h = h} r =
      status_of-refuses (sys_rpc_accept env entry h args) (with_ref-refuses _ _ r)
  invoke-refuses (rpc_return ret) r = with_ref-refuses _ _ r
  invoke-refuses (rpc_recv_reply ret) {h = h} r =
      status_of-refuses (sys_rpc_recv_reply env entry h ret) (with_ref-refuses _ _ r)
  invoke-refuses (move_across_universes hdst hsrci) {h = h} r =
      status_of-refuses (sys_move_across_universes env entry h hdst hsrci) (with_ref-refuses _ _ r)
  invoke-refuses (borrow_across_universes hdst hsrci) {h = h} r =
      status_of-refuses (sys_borrow_across_universes env entry h hdst hsrci)
        (with_ref-refuses _ _ r)
  invoke-refuses (move_in cell) {h = h} r =
      status_of-refuses (sys_move_in env entry h cell) (with_ref-refuses _ _ r)
  invoke-refuses (move_out cell) {h = h} r =
      status_of-refuses (sys_move_out env entry h cell) (with_ref-refuses _ _ r)
  invoke-refuses (borrow_in cell) {h = h} r =
      status_of-refuses (sys_borrow_in env entry h cell) (with_ref-refuses _ _ r)
  invoke-refuses (borrow_out_call cell) {h = h} r =
      status_of-refuses (sys_borrow_out env entry h cell) (with_ref-refuses _ _ r)
  invoke-refuses (drop_in cell) r = with_ref-refuses _ _ r
  invoke-refuses (read_from_shm_ref offset len) {h = h} r =
      status_of-refuses (sys_read_from_shm_ref env entry h offset len) (with_ref-refuses _ _ r)
  invoke-refuses (write_to_shm_ref offset bytes) r = with_ref-refuses _ _ r
  invoke-refuses (unrestrict_shm writable) r = with_ref-refuses _ _ r
  invoke-refuses (restrict_shm writable) r = with_ref-refuses _ _ r
  invoke-refuses (restrict_shm_to_group hgrp writable) r = with_ref-refuses _ _ r
