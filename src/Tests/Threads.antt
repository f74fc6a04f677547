-- ===== src/Tests/Threads.antt =====
-- Concrete runs of the threads of src/forward.c.
use adb_termux_bridge.Base.{
  arith, ◌≡◌, refl, true, false, some, List, [], ◌∷◌, All, pos, codes, bytes_eq,
}
use adb_termux_bridge.Forward.{Forward, Calls}
use adb_termux_bridge.Forward.Threads.{
  accepting, ended, shuts_down, run_event, Answer, Accept, Event, accept_runs, relay_ends, adds,
  removes, ready, accepted, looping, pick, run_events, no_threads,
}
use adb_termux_bridge.Forward.Threads.Freed.{run_events-faults, forward_remove-In}
use adb_termux_bridge.Forward.Threads.Shutdown.{turns, forward_shutdown_all-turns}
use adb_termux_bridge.Forward.Threads.Nodes.{In, removed_by}

abbrev willing : Calls
willing = record {
  socket = some 7;
  inet_pton = λ host. some 2130706433;
  bind = λ addr port. true;
  listen = true;
  calloc = true;
}

-- A client on the descriptor 8, for which the unix socket gets the descriptor 9.
abbrev one_client : Answer
one_client = record {
  poll = ready;
  accept = accepted 8;
  unix_socket = some 9;
  unix_connect = λ address. true;
  malloc = true;
  created = true;
}

abbrev adding : Event
adding = adds willing (codes "@adb") (codes "127.0.0.1") (pos 5037) false

abbrev turn : Event
turn = accept_runs 0 one_client

-- A forward is added, and its thread starts one relay.
abbrev relaying : List Event
relaying = adding ∷ turn ∷ turn ∷ turn ∷ turn ∷ turn ∷ []

relaying_run : (run_events relaying no_threads).connections ≡ 9 ∷ 8 ∷ []
unfolding run_events bytes_eq
relaying_run = refl

-- The forward is removed while the relay runs.
abbrev removing : List Event
removing = adding ∷ turn ∷ turn ∷ turn ∷ turn ∷ turn ∷ removes 1 ∷ relay_ends 0 ∷ []

removing_run : (run_events removing no_threads).faults ≡ 1 ∷ []
unfolding run_events bytes_eq
removing_run = refl

run_events-faults_example :
    All (λ id. In id (removed_by removing)) (run_events removing no_threads).faults
run_events-faults_example = run_events-faults removing

abbrev relayed : Forward
relayed = record {
  id = 1;
  unix_path = codes "@adb";
  host = codes "127.0.0.1";
  port = pos 5037;
  secure = false;
  listen_fd = some 7;
  running = true;
  active_connections = 1;
}

abbrev waiting : Accept
waiting = record { fw = 1; at = looping }

waiting_run : pick 0 (run_events relaying no_threads).accepts ≡ some (waiting, [])
unfolding run_events bytes_eq
waiting_run = refl

forward_remove-In_example :
    In 1
      (run_events
        (removes 1 ∷ accept_runs 0 one_client ∷ [])
        (run_events relaying no_threads)).faults
forward_remove-In_example = forward_remove-In relaying 0 one_client waiting [] waiting_run (λ e. cc)

abbrev eight : List Answer
eight =
    one_client ∷ one_client ∷ one_client ∷ one_client ∷ one_client ∷ one_client ∷ one_client
    ∷ one_client ∷ []

forward_shutdown_all-turns_example :
    (turns eight accepting 1 (run_event shuts_down (run_events relaying no_threads))).0 ≡ ended
forward_shutdown_all-turns_example =
    forward_shutdown_all-turns eight accepting 1 (run_events relaying no_threads) (omega arith)
