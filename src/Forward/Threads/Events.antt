-- ===== src/Forward/Threads/Events.antt =====
-- Every order of events on the threads and the list of src/forward.c.
use adb_termux_bridge.Base.{ℕ, refl, inl, inr, List, [], ◌∷◌, arith, Option-cases, All}
use adb_termux_bridge.Forward.Threads.{
  Threads, pick, Event, accept_runs, relay_ends, adds, removes, shuts_down, run_event, run_events,
  no_threads,
}
use adb_termux_bridge.Forward.Threads.Nodes.{In, removed_by, Sound}
use adb_termux_bridge.Forward.Threads.Counting.{relay_cleanup-Sound, thread_step-Sound}
use adb_termux_bridge.Forward.Threads.Operations.{stopped-Sound, removed-Sound, add-Sound}

module _ (gone : List ℕ) where
  -- What an event may remove.
  abbrev Allowed : Event → Type 0
  Allowed (removes id) = In id gone
  Allowed _ = Unit

  run_event-Sound :
      (e : Event) (t : Threads) → Allowed e → Sound gone t → Sound gone (run_event e t)
  unfolding run_event
  run_event-Sound (accept_runs n ans) t allowed s = elim (Option-cases (pick n t.accepts)) [
    | inl e ↦ rw (e, run_event) s
    | inr ((a, rest), e) ↦ rw (e, run_event) (thread_step-Sound gone ans t rest n a e s)
  ]
  run_event-Sound (relay_ends n) t allowed s = elim (Option-cases (pick n t.jobs)) [
    | inl e ↦ rw (e, run_event) s
    | inr ((j, rest), e) ↦ rw (e, run_event) (relay_cleanup-Sound gone t rest n j e s)
  ]
  run_event-Sound (adds c unix_path host port secure) t allowed s =
      add-Sound gone c unix_path host port secure t s
  run_event-Sound (removes id) t allowed s = removed-Sound gone id t allowed s
  run_event-Sound shuts_down t allowed s = stopped-Sound gone t s

  run_events-Sound :
      (events : List Event) (t : Threads)
      → All Allowed events
      → Sound gone t
      → Sound gone (run_events events t)
  unfolding run_events
  run_events-Sound [] t h s = s
  run_events-Sound (e ∷ events) t h s =
      run_events-Sound events (run_event e t) h.1 (run_event-Sound e t h.0 s)

  no_threads-Sound : Sound gone no_threads
  no_threads-Sound = record {
    listed = record { below = tt; distinct = tt };
    threads = tt;
    relays = tt;
    counts = record { counted = λ id f e. omega arith };
    misused = tt;
  }

Allowed-imp :
    (gone : List ℕ) (id : ℕ) (events : List Event)
    → All (Allowed gone) events
    → All (Allowed (id ∷ gone)) events
Allowed-imp gone id [] h = tt
Allowed-imp gone id (accept_runs n ans ∷ events) h = (tt, Allowed-imp gone id events h.1)
Allowed-imp gone id (relay_ends n ∷ events) h = (tt, Allowed-imp gone id events h.1)
Allowed-imp gone id (adds c u w p s ∷ events) h = (tt, Allowed-imp gone id events h.1)
Allowed-imp gone id (removes other ∷ events) h = (inr h.0, Allowed-imp gone id events h.1)
Allowed-imp gone id (shuts_down ∷ events) h = (tt, Allowed-imp gone id events h.1)

own_removals-Allowed : (events : List Event) → All (Allowed (removed_by events)) events
own_removals-Allowed [] = tt
own_removals-Allowed (accept_runs n ans ∷ events) = (tt, own_removals-Allowed events)
own_removals-Allowed (relay_ends n ∷ events) = (tt, own_removals-Allowed events)
own_removals-Allowed (adds c u w p s ∷ events) = (tt, own_removals-Allowed events)
own_removals-Allowed (removes id ∷ events) =
    (inl refl, Allowed-imp (removed_by events) id events (own_removals-Allowed events))
own_removals-Allowed (shuts_down ∷ events) = (tt, own_removals-Allowed events)

-- After any events the state is sound for the ids that they removed.
pub reached-Sound : (events : List Event) → Sound (removed_by events) (run_events events no_threads)
reached-Sound events =
    run_events-Sound (removed_by events) events no_threads (own_removals-Allowed events)
      (no_threads-Sound (removed_by events))
