-- ===== src/Entry/Tests.antt =====
-- Runs of the system calls on a small system, and the theorems at them.
use ricerca.Common.{
  zero, suc, ◌≡◌, refl, none, some, [], ◌∷◌, true, false, arith, returns, count, get_elem?,
}
use ricerca.Status.{success, invalid_handle_type}
use ricerca.Locking.Mutex.Defs.{init as mutex_init}
use ricerca.Notifications.Defs.{Mailbox}
use ricerca.Notifications.Boxes.{Boxes, rpc_incoming}
use ricerca.Universe.Defs.{Universe, Ref, mailbox, shm_rw_ref}
use ricerca.Universe.Table.{idle}
use ricerca.Universe.Frame.{IsReady}
use ricerca.Shm.Defs.{ShmOwner}
use ricerca.Rpc.Defs.{Rpc}
use ricerca.Entry.System.{System, Env, Entry, ◌>>=◌, ids}
use ricerca.Entry.Shared.{sys_write_to_shm_ref, sys_read_from_shm_ref}
use ricerca.Entry.Calls.{join_group, invoke}
use ricerca.Entry.Refusals.{world_of, wrong_type, invoke-refuses}
use ricerca.Entry.Access.{Holds, stored, sys_read-sys_write}

-- A mailbox at handle 0, and memory to read and write at handle 1.
abbrev letter : Ref
letter = record { ref = 100; type = mailbox; pin_cookie = 7 }

abbrev memory : Ref
memory = record { ref = 416; type = shm_rw_ref; pin_cookie = 7 }

abbrev table : Universe
table = record {
  mutex = mutex_init;
  free_list = [];
  universe_id = 5;
  cells = record {
    items = record { in_use = true; ref = letter } ∷ record { in_use = true; ref = memory } ∷ [];
    capacity = 16;
  };
}

abbrev buffer : ShmOwner
buffer = record { contents = 1 ∷ 2 ∷ 3 ∷ 4 ∷ []; size = 4; key = 5; ro_key = 1; rw_key = 7 }

abbrev box : Mailbox
box = record { msg_queue = λ _. []; task_queue = λ _. []; is_shut_down = false; is_per_cpu = false }

abbrev boxes : Boxes
boxes = record {
  mailboxes = λ _. box;
  mailbox_ref = λ _. 100;
  notification = λ _. record { type = rpc_incoming; opaque = 3 };
  pending = λ _ _. 0;
  woken = [];
  objects = record { rc = λ _. record { refcount = 2; drop = true }; disposed = [] };
}

abbrev rpcs : Rpc
rpcs = record {
  boxes = boxes;
  containers = λ _. record {
    message = record { len = 0; status = 0; opaque = 0; payload = [] };
    client_opaque = 0;
    caller = 0;
  };
  callers = λ _. record {
    on_reply_raiser = 300;
    free_containers = [];
    incoming_replies = [];
    is_shut_down = false;
  };
  callees = λ _. record {
    on_incoming_raiser = 300;
    incoming_rpcs = [];
    awaiting_reply = record { buckets_count = 4; nodes = λ _. [] };
    seq = 9;
    is_shut_down = false;
  };
}

abbrev system : System
system = record {
  rpc = rpcs;
  universes = λ _. table;
  last_universe_id = 6;
  cookies =
      λ _. record { key = 7; mutex = mutex_init; grp_keys = record { items = []; capacity = 0 } };
  groups = λ _. record { key = 9 };
  last_key = 10;
  shm_intmap = record { buckets_count = 1024; nodes = λ _. [] };
  last_shm_id = 6;
  shm_owners = λ _. some buffer;
  tls_tables = λ _. record { keys = record { buckets_count = 4; nodes = λ _. [] }; value = λ _. 0 };
}

abbrev env : Env
env = record {
  me = 1;
  core = 0;
  mem = λ _. none;
  junk_ref = letter;
  junk_nodes = λ _. [];
  junk_values = λ _. 0;
}

abbrev entry : Entry
entry = record { universe = 50; cookie = 60; tls = 70 }

system-IsReady : IsReady (ids system) (world_of system 50)
system-IsReady = record {
  sound = record {
    free = elim [
      | zero ↦ refl
      | suc i ↦ elim i as (λ i. count (suc i) [] ≡ idle (get_elem? table.cells.items (suc i))) [
        | zero ↦ refl
        | suc j ↦ ground arith
      ]
    ];
    ordered = λ i r e t. omega arith;
  };
  idle = (refl, refl);
}

-- Joining a group by the handle of a mailbox.
invoke-refuses_example : invoke env entry join_group 0 system ≡ returns invalid_handle_type system
invoke-refuses_example =
    invoke-refuses env entry system system-IsReady join_group
      (wrong_type letter refl refl (omega arith) (omega arith) refl)

system-Holds : Holds system entry 1 memory buffer
system-Holds = record {
  ready = system-IsReady;
  named = refl;
  writable = refl;
  live = omega arith;
  room = omega arith;
  owner = refl;
  valid = (refl, omega arith);
}

sys_read-sys_write_example :
    (sys_write_to_shm_ref env entry 1 2 (7 ∷ 8 ∷ []) >>= λ _. sys_read_from_shm_ref env entry 1 2 2)
      system
    ≡ returns (success, 7 ∷ 8 ∷ []) (stored env entry 1 2 system-Holds (7 ∷ 8 ∷ []))
sys_read-sys_write_example =
    sys_read-sys_write env entry 1 2 system-Holds (7 ∷ 8 ∷ []) (omega arith)
