-- ===== src/Rpc/Tests.antt =====
-- Runs of remote calls between one caller and one callee, and the theorems at them.
use ricerca.Common.{
  ℕ, ◌≡◌, ◌≤◌, refl, some, [], ◌∷◌, ◌++◌, Option, none, true, false, arith, count, if◌then◌else◌,
  ◌==◌,
}
use ricerca.Status.{Status, success}
use ricerca.Notifications.Defs.{Mailbox}
use ricerca.Notifications.Boxes.{Boxes, rpc_incoming}
use ricerca.Shm.Defs.{zeros}
use ricerca.Containers.Intmap.{insert, search, remove}
use ricerca.Containers.Intmap.Tally.{total, listed}
use ricerca.Rpc.Defs.{
  copy_contents_from_user, copy_contents_from_kernel, RpcMsg, Rpc, noreply, token_of,
  shutdown_callee, with_callee, enqueue_reply_container,
}
use ricerca.Rpc.Calls.{
  take_container, Prepared, failed, ready, prepare, enqueue_request, accept, Answered, refused,
  replying, take_reply,
}
use ricerca.Rpc.Messages.{contents}
use ricerca.Rpc.RoundTrip.{
  IsIdle, IsExchange, called, taken_up, answered, read_back, call_round_trip,
}
use ricerca.Rpc.Shutdown.{gathered, shutdown_callee-answers}
use ricerca.Rpc.System.{
  Running, flight, Reach, start, later, prepares, enqueues, accepts, answers, replies, IsRunning,
  Reach-IsRunning,
}
use ricerca.Rpc.Containers.{placed}

abbrev blank : RpcMsg
blank = record { len = 0; status = 0; opaque = 0; payload = zeros 112 }

abbrev request : RpcMsg
request = record { len = 2; status = 1; opaque = 77; payload = 5 ∷ 6 ∷ zeros 110 }

-- A reply to the request with the number 9.
abbrev reply : RpcMsg
reply = record { len = 3; status = 2; opaque = 9; payload = 7 ∷ 8 ∷ 9 ∷ zeros 109 }

abbrev box : Mailbox
box = record { msg_queue = λ _. []; task_queue = λ _. []; is_shut_down = false; is_per_cpu = false }

abbrev boxes : Boxes
boxes = record {
  mailboxes = λ _. box;
  mailbox_ref = λ _. 100;
  notification = λ _. record { type = rpc_incoming; opaque = 3 };
  pending = λ _ _. 0;
  woken = [];
  objects = record { rc = λ _. record { refcount = 2; drop = true }; disposed = [] };
}

-- The caller at 1000 has no container, and the callee at 2000 no request.
abbrev system : Rpc
system = record {
  boxes = boxes;
  containers = λ _. record { message = blank; client_opaque = 0; caller = 0 };
  callers = λ _. record {
    on_reply_raiser = 300;
    free_containers = [];
    incoming_replies = [];
    is_shut_down = false;
  };
  callees = λ _. record {
    on_incoming_raiser = 400;
    incoming_rpcs = [];
    awaiting_reply = record { buckets_count = 4; nodes = λ _. [] };
    seq = 9;
    is_shut_down = false;
  };
}

system-IsIdle : IsIdle (some 500) 1000 2000 500 system
unfolding take_container
system-IsIdle = record {
  rest = [];
  taken = refl;
  no_reply = refl;
  no_request = refl;
  running = refl;
}

exchange : IsExchange blank request reply blank blank
exchange = record {
  container_full = refl;
  args_full = refl;
  ret_full = refl;
  in_full = refl;
  out_full = refl;
  args_fit = omega arith;
  ret_fit = omega arith;
}

abbrev sent : Status × Rpc
sent = called 0 1000 2000 500 (some 500) request reply blank blank system

call_round_trip_example :
    ((sent.0 ≡ success)
      × ((taken_up 0 1000 2000 500 (some 500) request reply blank blank system).0 ≡ success)
      × (contents (taken_up 0 1000 2000 500 (some 500) request reply blank blank system).1
          ≡ contents request)
      × ((taken_up 0 1000 2000 500 (some 500) request reply blank blank system).1.status ≡ 1)
      × ((taken_up 0 1000 2000 500 (some 500) request reply blank blank system).1.opaque ≡ 9))
    × ((answered 0 1000 2000 500 (some 500) request reply blank blank system).0 ≡ success)
    × ((read_back 0 1000 2000 500 (some 500) request reply blank blank system).0 ≡ success)
    × (contents (read_back 0 1000 2000 500 (some 500) request reply blank blank system).1
        ≡ contents reply)
    × ((read_back 0 1000 2000 500 (some 500) request reply blank blank system).1.status ≡ 2)
    × ((read_back 0 1000 2000 500 (some 500) request reply blank blank system).1.opaque ≡ 77)
call_round_trip_example =
    call_round_trip 0 1000 2000 500 (some 500) request reply blank blank system system-IsIdle
      exchange refl

-- The same system with the callee shut down, or with two requests that it has accepted and one that
-- it has not, all from the caller at 1000.
abbrev closed : Rpc
closed = with_callee system 2000 (record (system.callees 2000) { is_shut_down = true })

abbrev asked : Rpc
asked =
    with_callee
      (record system {
        containers = λ _. record { message = request; client_opaque = 77; caller = 1000 };
      })
      2000
      (record (system.callees 2000) {
        incoming_rpcs = 510 ∷ [];
        awaiting_reply = record {
          buckets_count = 4;
          nodes = λ i. if i == 0 then record { addr = 520; key = 8 } ∷ [] else [];
        };
      })

shutdown_callee-answers_example :
    (((shutdown_callee 0 2000 asked).callers 1000).incoming_replies ≡ [] ++ 510 ∷ 520 ∷ [])
    × ((x : ℕ)
        → ((shutdown_callee 0 2000 asked).containers x).message.status
          ≡ (if count x (510 ∷ 520 ∷ []) == 0 then 1 else noreply))
unfolding gathered
shutdown_callee-answers_example = shutdown_callee-answers 0 1000 2000 asked λ x h. refl

abbrev idle_run : Running
idle_run = record { rpc = system; sending = []; answering = []; undelivered = [] }

idle_run-IsRunning : IsRunning 1000 2000 idle_run
unfolding total listed
idle_run-IsRunning = record {
  single = λ c. ground arith;
  owned = λ c h. ground (arith, h);
  buckets = omega arith;
}

-- What is left of the system after a first section, and after the second of initiating.
abbrev rest_of : Prepared → Rpc
rest_of (failed status s) = s
rest_of (ready p s) = s

abbrev rest_after : Rpc → Option Rpc → Rpc
rest_after s none = s
rest_after s (some s') = s'

abbrev rest_with : Rpc → Answered → Rpc
rest_with s (refused status) = s
rest_with s (replying p s') = s'

-- One call, section by section: it takes a new container and hands it over, is accepted, and is answered;
-- between the two sections of the answer, a second call takes another container.
abbrev handing : Running
handing = record idle_run {
  rpc = rest_of (prepare (some 500) 1000 request system);
  sending = 500 ∷ [];
}

abbrev handed : Running
handed = record handing {
  rpc = rest_after handing.rpc (enqueue_request 0 (token_of 2000) 500 handing.rpc);
  sending = [];
}

abbrev accepted : Running
accepted = record handed { rpc = (accept 2000 blank handed.rpc).2 }

abbrev answering : Running
answering = record accepted {
  rpc = rest_with accepted.rpc (take_reply 2000 reply accepted.rpc);
  answering = 500 ∷ [];
}

abbrev crossing : Running
crossing = record answering {
  rpc = rest_of (prepare (some 600) 1000 request answering.rpc);
  sending = 600 ∷ [];
}

abbrev replied : Running
replied = record crossing { rpc = enqueue_reply_container 0 500 crossing.rpc; answering = [] }

prepares_first : prepare (some 500) 1000 request system ≡ ready 500 handing.rpc
unfolding prepare take_container copy_contents_from_user copy_contents_from_kernel
prepares_first = refl

enqueues_first : enqueue_request 0 (token_of 2000) 500 handing.rpc ≡ some handed.rpc
unfolding prepare take_container copy_contents_from_user copy_contents_from_kernel enqueue_request
enqueues_first = refl

answers_first : take_reply 2000 reply accepted.rpc ≡ replying 500 answering.rpc
unfolding prepare take_container copy_contents_from_user copy_contents_from_kernel enqueue_request
    accept take_reply insert search
answers_first = refl

prepares_second : prepare (some 600) 1000 request answering.rpc ≡ ready 600 crossing.rpc
unfolding prepare take_container copy_contents_from_user copy_contents_from_kernel enqueue_request
    accept take_reply insert search remove
prepares_second = refl

two_calls : Reach 1000 2000 idle_run replied
unfolding prepare take_container copy_contents_from_user copy_contents_from_kernel enqueue_request
    accept take_reply insert search remove total listed
two_calls =
    later
      (later
        (later
          (later
            (later (later start (prepares (some 500) request 500 refl prepares_first refl))
              (enqueues 0 500 [] [] refl enqueues_first refl))
            (accepts blank refl))
          (answers reply 500 answers_first refl))
        (prepares (some 600) request 600 refl prepares_second refl))
      (replies 0 500 [] [] refl refl)

Reach-IsRunning_example :
    IsRunning 1000 2000 replied
    × ((c : ℕ)
        → placed 1000 2000 system (flight idle_run) c
          ≤ placed 1000 2000 replied.rpc (flight replied) c)
Reach-IsRunning_example = Reach-IsRunning 1000 2000 idle_run-IsRunning two_calls
