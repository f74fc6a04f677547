-- ===== src/Forward/Threads.antt =====
-- The threads of src/forward.c: `accept_thread`, the end of `relay_thread`, and the operations on
-- the list between them, as events in any order. A thread's event is what it does up to its next
-- use of the node that it was given.
pub mod Nodes
pub mod Counting
pub mod Operations
pub mod Events
pub mod Freed
pub mod Shutdown
use adb_termux_bridge.Base.{
  ℕ, zero, suc, ◌+◌, ◌-◌, ◌*◌, ◌/◌, ◌%◌, ◌^◌, ◌≤◌, ◌<◌, min, ◌≡◌, refl, sym, ap, ◌∙◌, subst, ◌≢◌,
  ◌↔◌, ◌⊎◌, inl, inr, Bool, true, false, not, ◌&&◌, ◌||◌, Option, none, some, List, [], ◌∷◌, ◌++◌,
  map, append-nil, append_assoc, arith, ltb, leb, ◌==◌, if◌then◌else◌, ltb→lt, lt→ltb, not-lt→ltb,
  ltb-false→le, ==_iff, ==_refl, Bool-cases, Option-cases, All, length, take, drop, concat,
  length-append, length-take, length-drop, take-append-drop, take_all, concat-append, All-append,
  All-take, All-drop, ℤ, pos, negsuc, neg, is_pos, is_neg, pos_part, int_eq, int_eq→eq, int_eq_refl,
  Bytes, codes, bytes_eq, bytes_eq_iff, bytes_eq_refl, starts_with, starts_with-append, strstr,
  skip_spaces, NoNul, c_str, c_str-NoNul, digit_char, digit_value, digit_value-digit_char,
  print_base, read_digits, is_space, skip_isspace, long_max, clamp_long, skip_hex_prefix,
  strtol_signed, strtol, print_int, EndsNumber, minus, All-imp, print_base-Without,
  length-print_base, strtol-print_base, print_base-cons, Absent, strstr-append, Without, cut_at,
  cut_at-Without,
}
use adb_termux_bridge.Forward.{
  Forward, Registry, Calls, forward_add, forward_remove, forward_shutdown_all, find_forward,
  close_socket, empty,
}
use adb_termux_bridge.Forward.Relay.{UnixAddress, connect_unix}
use adb_termux_bridge.Forward.Lists.{erase}

-- Where a thread stands: at the test of `running`, in front of `poll`, of `accept4`, of the second
-- test of `running`, of `connect_unix` for a client, of the counting of a connection, behind the
-- loop, in front of the `close` of the descriptor that it has read, and at its end.
pub data Phase : Type 0 where
  looping polling accepting rechecking leaving ended : Phase
  connecting closing : ℕ → Phase
  counting : ℕ → ℕ → Phase

-- A thread, with the id of the node whose address it has. Ids are not used again, so that an id
-- stands for an address.
pub record Accept : Type 0 where
  pub fw : ℕ
  pub at : Phase

-- `relay_job_t`
pub record Job : Type 0 where
  pub fd_a : ℕ
  pub fd_b : ℕ
  pub fw : ℕ

-- The list, the threads, the relays that run, the descriptors of connections, and the nodes that were
-- used after they were freed.
pub record Threads : Type 0 where
  pub registry : Registry
  pub accepts : List Accept
  pub jobs : List Job
  pub connections : List ℕ
  pub faults : List ℕ

pub data Poll : Type 0 where
  poll_failed poll_interrupted timeout ready : Poll

pub data Accepted : Type 0 where
  accepted : ℕ → Accepted
  accept_interrupted accept_failed : Accepted

-- What the calls answer: `poll`, `accept4`, `socket` and `connect` for the unix socket, `malloc`
-- and `pthread_create`.
pub record Answer : Type 0 where
  pub poll : Poll
  pub accept : Accepted
  pub unix_socket : Option ℕ
  pub unix_connect : UnixAddress → Bool
  pub malloc : Bool
  pub created : Bool

unfoldable pub after_poll : Poll → Phase
after_poll poll_failed = leaving
after_poll poll_interrupted = looping
after_poll timeout = looping
after_poll ready = accepting

-- The first node of that id changed.
unfoldable pub set_forward : ℕ → (Forward → Forward) → List Forward → List Forward
set_forward id change [] = []
set_forward id change (f ∷ fs) = if f.id == id then change f ∷ fs else f ∷ set_forward id change fs

abbrev pub one_more : Forward → Forward
one_more f = record f { active_connections = f.active_connections + 1 }

-- A count of 0 stays.
abbrev pub one_less : Forward → Forward
one_less f = record f { active_connections = f.active_connections - 1 }

abbrev pub no_socket : Forward → Forward
no_socket f = record f { listen_fd = none }

unfoldable pub change_node : ℕ → (Forward → Forward) → Registry → Registry
unfolding set_forward
change_node id change r = record r { forwards = set_forward id change r.forwards }

-- A use of the node with the id: of a node that was freed it is a fault, and what the thread does
-- then is not followed.
unfoldable pub use_node : ℕ → Threads → (Forward → Phase × Threads) → Phase × Threads
unfolding find_forward
use_node id t body = elim (find_forward id t.registry.forwards) [
  | none ↦ (ended, record t { faults = id ∷ t.faults })
  | some f ↦ body f
]

unfoldable pub after_accept : Accepted → Threads → Phase × Threads
after_accept (accepted fd) t = (connecting fd, record t { connections = fd ∷ t.connections })
after_accept accept_interrupted t = (looping, t)
after_accept accept_failed t = (rechecking, t)

-- From the result of `connect_unix` on.
unfoldable pub after_connect : Option ℕ → Bool → ℕ → Threads → Phase × Threads
after_connect unix_fd malloc client t = elim unix_fd [
  | none ↦ (looping, record t { connections = erase client t.connections })
  | some fd ↦ elim malloc [
    | false ↦ (looping, record t { connections = erase client t.connections })
    | true ↦ (counting client fd, record t { connections = fd ∷ t.connections })
  ]
]

-- The connection is counted and its relay started.
unfoldable pub start_relay : Answer → ℕ → ℕ → ℕ → Threads → Threads
unfolding change_node
start_relay ans client fd id t =
    let counted = record t { registry = change_node id one_more t.registry } in
    elim ans.created [
      | false ↦ counted
      | true ↦ record counted { jobs = record { fd_a = client; fd_b = fd; fw = id } ∷ counted.jobs }
    ]

-- `close` and the reset of `listen_fd`.
unfoldable pub close_own : ℕ → ℕ → Threads → Threads
unfolding change_node close_socket
close_own fd id t =
    let r = change_node id no_socket t.registry in
    record t { registry = record r { sockets = close_socket fd r.sockets } }

-- One event of an accept thread.
unfoldable pub advance : Answer → Phase → ℕ → Threads → Phase × Threads
unfolding use_node after_poll after_accept after_connect connect_unix start_relay close_own
advance ans looping id t = use_node id t (λ f. (if f.running then polling else leaving, t))
advance ans polling id t = use_node id t (λ f. (after_poll ans.poll, t))
advance ans accepting id t = use_node id t (λ f. after_accept ans.accept t)
advance ans rechecking id t = use_node id t (λ f. (if f.running then looping else leaving, t))
advance ans (connecting client) id t = use_node id t (λ f.
    after_connect (connect_unix ans.unix_socket ans.unix_connect f.unix_path) ans.malloc client t)
advance ans (counting client fd) id t =
    use_node id t (λ f. (looping, start_relay ans client fd id t))
advance ans leaving id t =
    use_node id t (λ f. (elim f.listen_fd [ some fd ↦ closing fd | none ↦ ended ], t))
advance ans (closing fd) id t = use_node id t (λ f. (ended, close_own fd id t))
advance ans ended id t = (ended, t)

-- `cleanup` of `relay_thread`.
unfoldable pub relay_cleanup : Job → Threads → Threads
unfolding use_node change_node
relay_cleanup job t =
    let closed = record t { connections = erase job.fd_b (erase job.fd_a t.connections) } in
    (use_node job.fw closed
      (λ f. (ended, record closed { registry = change_node job.fw one_less closed.registry }))).1

-- The n-th of a list, and the others.
abbrev pub pick {ℓ} : {A : Type ℓ} → ℕ → List A → Option (A × List A)
pick n [] = none
pick zero (x ∷ xs) = some (x, xs)
pick (suc n) (x ∷ xs) = elim (pick n xs) [ none ↦ none | some o ↦ some (o.0, x ∷ o.1) ]

pub data Event : Type 0 where
  accept_runs : ℕ → Answer → Event
  relay_ends : ℕ → Event
  adds : Calls → Bytes → Bytes → ℤ → Bool → Event
  removes : ℕ → Event
  shuts_down : Event

-- `pthread_create` of the accept thread, for a node that was added.
unfoldable pub started : ℤ → List Accept → List Accept
started (pos id) accepts = record { fw = id; at = looping } ∷ accepts
started (negsuc _) accepts = accepts

-- The thread that was taken out goes back with its new phase.
unfoldable pub thread_step : Answer → Accept → Threads → Threads
unfolding advance
thread_step ans a t =
    let o = advance ans a.at a.fw t in
    record (o.1) { accepts = record { fw = a.fw; at = o.0 } ∷ o.1.accepts }

unfoldable pub run_event : Event → Threads → Threads
unfolding thread_step relay_cleanup started forward_add forward_remove forward_shutdown_all
run_event (accept_runs n ans) t = elim (pick n t.accepts) [
  | none ↦ t
  | some o ↦ thread_step ans o.0 (record t { accepts = o.1 })
]
run_event (relay_ends n) t = elim (pick n t.jobs) [
  | none ↦ t
  | some o ↦ relay_cleanup o.0 (record t { jobs = o.1 })
]
run_event (adds c unix_path host port secure) t =
    let o = forward_add c unix_path host port secure t.registry in
    record t { registry = o.0; accepts = started o.1 t.accepts }
run_event (removes id) t = record t { registry = (forward_remove id t.registry).0 }
run_event shuts_down t = record t { registry = forward_shutdown_all t.registry }

unfoldable pub run_events : List Event → Threads → Threads
unfolding run_event
run_events [] t = t
run_events (e ∷ events) t = run_events events (run_event e t)

abbrev pub no_threads : Threads
no_threads = record { registry = empty; accepts = []; jobs = []; connections = []; faults = [] }
