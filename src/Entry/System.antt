-- ===== src/Entry/System.antt =====
-- All objects that system calls reach, and the components' calls on them.
use ricerca.Common.{
  ℕ, Bool, true, false, Option, none, some, List, ◌==◌, if◌then◌else◌, Outcome, returns, suspended,
  fault,
}
use ricerca.Locking.Mutex.Defs.{Task}
use ricerca.Memory.Refcount.{Objects, drop}
use ricerca.Cookie.Defs.{EntryCookie, GroupCookie, Keys}
use ricerca.Containers.Intmap.{Intmap, Node}
use ricerca.Notifications.Boxes.{Boxes, put_at}
use ricerca.Universe.Defs.{Universe, Ref}
use ricerca.Universe.Single.{World}
use ricerca.Universe.Pair.{PairWorld, Operands, same, distinct, src, dst}
use ricerca.Universe.Life.{Kernel}
use ricerca.Shm.Defs.{Shms, ShmOwner}
use ricerca.Tls.{TlsTable}
use ricerca.Rpc.Defs.{Rpc, with_objects}

-- The objects of each kind by address, with the variables of their files; `rpc` holds the mailboxes
-- and all reference counts.
pub record System : Type 0 where
  pub rpc : Rpc
  pub universes : ℕ → Universe
  pub last_universe_id : ℕ
  pub cookies : ℕ → EntryCookie
  pub groups : ℕ → GroupCookie
  pub last_key : ℕ
  pub shm_intmap : Intmap
  pub last_shm_id : ℕ
  pub shm_owners : ℕ → Option ShmOwner
  pub tls_tables : ℕ → TlsTable

-- What surrounds a call: the calling task, its core, what each allocation of the call returns, in the
-- order of the source, and what fresh memory holds.
pub record Env : Type 0 where
  pub me : Task
  pub core : ℕ
  pub mem : ℕ → Option ℕ
  pub junk_ref : Ref
  pub junk_nodes : ℕ → List Node
  pub junk_values : ℕ → ℕ

-- struct user_api_entry: the addresses of the three objects.
pub record Entry : Type 0 where
  pub universe : ℕ
  pub cookie : ℕ
  pub tls : ℕ

-- An allocation succeeds.
abbrev pub got : Option ℕ → Bool
got none = false
got (some p) = true

abbrev pub objects : System → Objects
objects s = s.rpc.boxes.objects

abbrev pub set_objects : System → Objects → System
set_objects s o = record s { rpc = with_objects s.rpc o }

-- A call on the system: it returns, sleeps, or reads outside an object.
abbrev pub M : Type 0 → Type 0
M A = System → Outcome System A

abbrev pub pure : {A : Type 0} → A → M A
pure a s = returns a s

infixl 5 ◌>>=◌ ◌>>◌
abbrev pub ◌>>=◌ : {A B : Type 0} → M A → (A → M B) → M B
◌>>=◌ m f s = elim (m s) [ returns a s' ↦ f a s' | suspended s' ↦ suspended s' | fault ↦ fault ]

abbrev pub ◌>>◌ : {B : Type 0} → M (Unit {0}) → M B → M B
m >> k = m >>= λ _. k

abbrev pub get : M System
get s = returns s s

-- user_drop_ref and MEM_REF_DROP
unfoldable pub drop_ref : ℕ → M (Unit {0})
drop_ref ref s = returns tt (set_objects s (drop ref (objects s)))

abbrev pub crash : {A : Type 0} → M A
crash s = fault

abbrev pub with_world : System → ℕ → World → System
with_world s u w = set_objects (record s { universes = put_at s.universes u w.universe }) w.objects

-- The two universes of a call may be one.
abbrev pub operands : System → (u v : ℕ) → Operands
operands s u v = if u == v then same (s.universes u) else distinct (s.universes u) (s.universes v)

abbrev pub shms_of : System → Shms
shms_of s = record {
  intmap = s.shm_intmap;
  last_allocated_id = s.last_shm_id;
  objects = objects s;
  owners = s.shm_owners;
}

abbrev pub with_shms : System → Shms → System
with_shms s t =
    set_objects
      (record s { shm_intmap = t.intmap; last_shm_id = t.last_allocated_id; shm_owners = t.owners })
      t.objects

module _ {A : Type 0} where
  -- A call whose state is a part of the system's, which `put` writes back.
  abbrev pub run_on : {S : Type 0} → (put : S → System) → Outcome S A → Outcome System A
  run_on put (returns a t) = returns a (put t)
  run_on put (suspended t) = suspended (put t)
  run_on put fault = fault

  unfoldable pub on_universe : ℕ → (World → Outcome World A) → M A
  on_universe u op s =
      run_on (with_world s u) (op (record { universe = s.universes u; objects = objects s }))

  unfoldable pub on_pair : (u v : ℕ) → (PairWorld → Outcome PairWorld A) → M A
  on_pair u v op s =
      run_on
        (λ w.
          set_objects
            (record s {
              universes = put_at (put_at s.universes u (src w.operands)) v (dst w.operands);
            })
            w.objects)
        (op (record { operands = operands s u v; objects = objects s }))

  unfoldable pub on_cookie : ℕ → (EntryCookie → Outcome EntryCookie A) → M A
  on_cookie p op s = run_on (λ c. record s { cookies = put_at s.cookies p c }) (op (s.cookies p))

  unfoldable pub on_boxes : (Boxes → Outcome Boxes A) → M A
  on_boxes op s = run_on (λ b. record s { rpc = record (s.rpc) { boxes = b } }) (op s.rpc.boxes)

  unfoldable pub on_rpc : (Rpc → A × Rpc) → M A
  on_rpc op s = let (a, r) = op s.rpc in returns a (record s { rpc = r })

  unfoldable pub on_shms : (Shms → Outcome Shms A) → M A
  on_shms op s = run_on (with_shms s) (op (shms_of s))

  -- The calls that make universes, on the variables of universe.c and one existing universe.
  unfoldable pub on_kernel : (source : ℕ) → (Kernel → Outcome Kernel A) → M A
  on_kernel source op s =
      run_on
        (λ k.
          set_objects
            (record s {
              last_universe_id = k.last_id;
              universes = put_at s.universes source k.source;
            })
            k.objects)
        (op (record {
          last_id = s.last_universe_id;
          objects = objects s;
          source = s.universes source;
        }))

  unfoldable pub on_keys : (Keys → A × Keys) → M A
  on_keys op s =
      let (a, k) = op (record { last = s.last_key; objects = objects s }) in
      returns a (set_objects (record s { last_key = k.last }) k.objects)

-- The id of the universe at an address.
abbrev pub ids : System → ℕ → ℕ
ids s a = (s.universes a).universe_id
