-- ===== src/Entry/Handles.antt =====
-- What the system calls share: reaching objects by handles, and storing new references.
use ricerca.Common.{ℕ, Bool, true, false, Option, none, some, ◌==◌, if◌then◌else◌}
use ricerca.Status.{Status, success, invalid_handle_type}
use ricerca.Universe.Defs.{
  Ref, ObjType, none_type, caller, callee, token, mailbox, universe_type, group_cookie,
  entry_cookie, shm_owner, shm_rw_ref, shm_ro_ref,
}
use ricerca.Universe.Single.{borrow_out, move_in}
use ricerca.Entry.System.{System, Env, Entry, M, pure, ◌>>=◌, ◌>>◌, get, ids, drop_ref, on_universe}

-- The values of USER_OBJ_TYPE_*.
abbrev pub type_code : ObjType → ℕ
type_code none_type = 0
type_code caller = 1
type_code callee = 2
type_code token = 3
type_code mailbox = 4
type_code universe_type = 5
type_code group_cookie = 6
type_code entry_cookie = 7
type_code shm_owner = 8
type_code shm_rw_ref = 9
type_code shm_ro_ref = 10

abbrev pub is_type : ObjType → ObjType → Bool
is_type wanted type = type_code type == type_code wanted

abbrev pub is_success : Status → Bool
is_success success = true
is_success _ = false

module _ (env : Env) (entry : Entry) where
  abbrev pub own_key : System → ℕ
  own_key s = (s.cookies entry.cookie).key

  -- The prelude of a call on a handle: borrow the reference and check its type. `bad` makes the result
  -- of a failure; on success `body` gets the object and has to drop the reference.
  unfoldable pub with_ref :
      {A : Type 0}
      → (wanted : ObjType → Bool) (handle : ℕ) (bad : Status → A) (body : ℕ → M A) → M A
  with_ref wanted handle bad body = do
    (status, found) ← on_universe entry.universe (borrow_out env.me handle)
    elim found [
      | none ↦ pure (bad status)
      | some (type, ref) ↦
          if wanted type then body ref else drop_ref ref >> pure (bad invalid_handle_type)
    ]

  -- The same for a second handle, the first reference being held: a failure gives it back, and a
  -- reference of the wrong type is dropped by `both`.
  unfoldable pub with_second :
      {A : Type 0}
      → (wanted : ObjType → Bool) (handle first : ℕ) (both : ℕ → M (Unit {0})) (bad : Status → A)
        (body : ℕ → M A)
      → M A
  with_second wanted handle first both bad body = do
    (status, found) ← on_universe entry.universe (borrow_out env.me handle)
    elim found [
      | none ↦ drop_ref first >> pure (bad status)
      | some (type, ref) ↦
          if wanted type then body ref else both ref >> pure (bad invalid_handle_type)
    ]

  -- A new reference gets a handle, or is dropped again. `alloc` is the outcome of the allocation.
  unfoldable pub store_new : (alloc : Bool) (ref : ℕ) (type : ObjType) → M (Status × Option ℕ)
  store_new alloc ref type = do
    s ← get
    let r : Ref = record { ref = ref; type = type; pin_cookie = own_key s }
    (status, handle) ← on_universe entry.universe (move_in env.me (ids s) alloc r)
    elim handle [ none ↦ drop_ref ref >> pure (status, none) | some h ↦ pure (status, some h) ]
