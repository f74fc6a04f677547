-- ===== src/Forward/Threads/Freed.antt =====
-- Nodes of src/forward.c that are used after `forward_remove` has freed them, and the connections that
-- are counted in a node.
use adb_termux_bridge.Base.{
  ℕ, ◌≡◌, refl, ◌≢◌, inl, inr, none, some, List, [], ◌∷◌, Option-cases, All,
}
use adb_termux_bridge.Forward.{Forward, Registry, forward_remove, find_forward}
use adb_termux_bridge.Forward.Lists.{ids, Distinct, find-NotIn, NotIn-self-unlink}
use adb_termux_bridge.Forward.Threads.{
  Phase, Accept, Threads, Answer, looping, polling, accepting, rechecking, leaving, ended,
  connecting, closing, counting, use_node, advance, pick, Event, accept_runs, removes, thread_step,
  run_event, run_events, no_threads,
}
use adb_termux_bridge.Forward.Threads.Nodes.{In, removed_by}
use adb_termux_bridge.Forward.Threads.Events.{reached-Sound}

-- Whatever the threads, the relays and the callers do, in whatever order: a node that a thread or a
-- relay uses after it was freed is one that `forward_remove` was called for. Without a removal there
-- is no such use.
pub run_events-faults :
    (events : List Event)
    → All (λ id. In id (removed_by events)) (run_events events no_threads).faults
run_events-faults events = (reached-Sound events).misused

use_node-In :
    (id : ℕ) (t : Threads) (body : Forward → Phase × Threads)
    → find_forward id t.registry.forwards ≡ none
    → In id (use_node id t body).1.faults
unfolding use_node
use_node-In id t body e = rw (e, use_node) (inl refl)

advance-In :
    (ans : Answer) (at : Phase) (id : ℕ) (t : Threads)
    → at ≢ ended
    → find_forward id t.registry.forwards ≡ none
    → In id (advance ans at id t).1.faults
unfolding advance
advance-In ans looping id t ne e = use_node-In id t _ e
advance-In ans polling id t ne e = use_node-In id t _ e
advance-In ans accepting id t ne e = use_node-In id t _ e
advance-In ans rechecking id t ne e = use_node-In id t _ e
advance-In ans (connecting client) id t ne e = use_node-In id t _ e
advance-In ans (counting client fd) id t ne e = use_node-In id t _ e
advance-In ans leaving id t ne e = use_node-In id t _ e
advance-In ans (closing fd) id t ne e = use_node-In id t _ e
advance-In ans ended id t ne e = absurd (ne refl)

removed-none :
    (id : ℕ) (r : Registry)
    → Distinct (ids r.forwards)
    → find_forward id (forward_remove id r).0.forwards ≡ none
unfolding forward_remove
removed-none id r d = elim (Option-cases (find_forward id r.forwards)) [
  | inl e ↦ rw (e, forward_remove) e
  | inr (f, e) ↦ rw (e, forward_remove) (find-NotIn id _ (NotIn-self-unlink id r.forwards d))
]

-- Whenever an accept thread has not ended, a `forward_remove` of its node makes the thread's next step
-- use freed memory, wherever the thread stands and whatever its calls answer.
pub forward_remove-In :
    (events : List Event) (n : ℕ) (ans : Answer) (a : Accept) (rest : List Accept)
    → pick n (run_events events no_threads).accepts ≡ some (a, rest)
    → a.at ≢ ended
    → In a.fw
        (run_events (removes a.fw ∷ accept_runs n ans ∷ []) (run_events events no_threads)).faults
unfolding run_events run_event thread_step
forward_remove-In events n ans a rest e ne =
    let t = run_events events no_threads in
    rw (e, run_event)
      (advance-In ans a.at a.fw
        (record t { registry = (forward_remove a.fw t.registry).0; accepts = rest }) ne
        (removed-none a.fw t.registry (reached-Sound events).listed.distinct))
