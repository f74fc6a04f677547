-- ===== src/Forward/Threads/Shutdown.antt =====
-- `forward_shutdown_all` of src/forward.c and the accept threads that it finds.
use adb_termux_bridge.Base.{
  ℕ, ◌≤◌, ◌<◌, ◌≡◌, refl, sym, ◌∙◌, subst, ◌⊎◌, inl, inr, Bool, true, false, Option, none, some,
  List, [], ◌∷◌, map, arith, Bool-cases, Option-cases, length,
}
use adb_termux_bridge.Forward.{Forward, Registry, forward_shutdown_all, find_forward, stop}
use adb_termux_bridge.Forward.Threads.{
  Phase, Threads, Answer, Accepted, accepted, accept_interrupted, accept_failed, looping, polling,
  accepting, rechecking, leaving, ended, connecting, closing, counting, change_node, one_more,
  no_socket, use_node, after_accept, after_connect, after_poll, Poll, poll_failed, poll_interrupted,
  timeout, ready, start_relay, close_own, advance, shuts_down, run_event,
}
use adb_termux_bridge.Forward.Threads.Nodes.{set-same, set-missing}

-- The events of one thread, one for each answer.
abbrev pub turns : List Answer → Phase → ℕ → Threads → Phase × Threads
turns [] at id t = (at, t)
turns (ans ∷ answers) at id t = turns answers (advance ans at id t).0 id (advance ans at id t).1

-- How many events a thread whose node does not run has in front of it at most.
abbrev rank : Phase → ℕ
rank polling = 8
rank accepting = 7
rank (connecting client) = 6
rank (counting client fd) = 5
rank rechecking = 4
rank looping = 3
rank leaving = 2
rank (closing fd) = 1
rank ended = 0

Stopped : ℕ → Registry → Type 0
Stopped id r = (f : Forward) → find_forward id r.forwards ≡ some f → f.running ≡ false

-- The thread is nearer to its end, and its node still does not run.
record Nearer (n : ℕ) (id : ℕ) (o : Phase × Threads) : Type 0 where
  nearer : rank o.0 < n
  still : Stopped id o.1.registry

Stopped-change :
    (id : ℕ) (change : Forward → Forward) (r : Registry)
    → ((g : Forward) → (change g).id ≡ g.id)
    → ((g : Forward) → (change g).running ≡ g.running)
    → Stopped id r
    → Stopped id (change_node id change r)
unfolding change_node Stopped
Stopped-change id change r keeps same h f e = go (find_forward id r.forwards) refl
  where
    go : (o : Option Forward) → find_forward id r.forwards ≡ o → f.running ≡ false
    go none missing =
        absurd (none_some (sym (set-missing id id change r.forwards keeps missing) ∙ e))
      where
        none_some : none ≡ some f → ⊥
        none_some e = cc
    go (some g) found =
        let q : some (change g) ≡ some f = sym (set-same id change r.forwards g keeps found) ∙ e in
        let stopped = h g found in ground (arith, q, same g, stopped)

use_node-Nearer :
    (n id : ℕ) (t : Threads) (body : Forward → Phase × Threads)
    → 0 < n
    → Stopped id t.registry
    → ((f : Forward) → f.running ≡ false → Nearer n id (body f))
    → Nearer n id (use_node id t body)
unfolding use_node Stopped
use_node-Nearer n id t body some_n h k = elim (Option-cases (find_forward id t.registry.forwards)) [
  | inl e ↦ rw (e, use_node) (record { nearer = some_n; still = h })
  | inr (f, e) ↦ rw (e, use_node) (k f (h f e))
]

after_poll-rank : (p : Poll) → rank (after_poll p) < 8
unfolding after_poll
after_poll-rank poll_failed = omega arith
after_poll-rank poll_interrupted = omega arith
after_poll-rank timeout = omega arith
after_poll-rank ready = omega arith

after_accept-Nearer :
    (o : Accepted) (id : ℕ) (t : Threads) → Stopped id t.registry → Nearer 7 id (after_accept o t)
unfolding after_accept
after_accept-Nearer (accepted fd) id t h = record { nearer = omega arith; still = h }
after_accept-Nearer accept_interrupted id t h = record { nearer = omega arith; still = h }
after_accept-Nearer accept_failed id t h = record { nearer = omega arith; still = h }

after_connect-Nearer :
    (unix_fd : Option ℕ) (malloc : Bool) (client id : ℕ) (t : Threads)
    → Stopped id t.registry
    → Nearer 6 id (after_connect unix_fd malloc client t)
unfolding after_connect
after_connect-Nearer none malloc client id t h = record { nearer = omega arith; still = h }
after_connect-Nearer (some fd) true client id t h = record { nearer = omega arith; still = h }
after_connect-Nearer (some fd) false client id t h = record { nearer = omega arith; still = h }

start_relay-Stopped :
    (ans : Answer) (client fd id : ℕ) (t : Threads)
    → Stopped id t.registry
    → Stopped id (start_relay ans client fd id t).registry
unfolding start_relay
start_relay-Stopped ans client fd id t h = elim (Bool-cases ans.created) [
  | inl e ↦ rw (e, start_relay) (Stopped-change id one_more t.registry (λ g. refl) (λ g. refl) h)
  | inr e ↦ rw (e, start_relay) (Stopped-change id one_more t.registry (λ g. refl) (λ g. refl) h)
]

close_own-Stopped :
    (fd id : ℕ) (t : Threads) → Stopped id t.registry → Stopped id (close_own fd id t).registry
unfolding close_own Stopped
close_own-Stopped fd id t h = Stopped-change id no_socket t.registry (λ g. refl) (λ g. refl) h

leave-rank :
    (o : Option ℕ) → rank (elim o as (λ _. Phase) [ some fd ↦ closing fd | none ↦ ended ]) < 2
leave-rank none = omega arith
leave-rank (some fd) = omega arith

-- A step of a thread that has not ended.
advance-Nearer :
    (ans : Answer) (at : Phase) (id : ℕ) (t : Threads)
    → Stopped id t.registry
    → (at ≡ ended) ⊎ Nearer (rank at) id (advance ans at id t)
unfolding advance
advance-Nearer ans looping id t h = inr (
    use_node-Nearer 3 id t _ (omega arith) h
      (λ f e. record { nearer = rw e (omega arith); still = h }))
advance-Nearer ans polling id t h = inr (
    use_node-Nearer 8 id t _ (omega arith) h
      (λ f e. record { nearer = after_poll-rank ans.poll; still = h }))
advance-Nearer ans accepting id t h =
    inr (use_node-Nearer 7 id t _ (omega arith) h (λ f e. after_accept-Nearer ans.accept id t h))
advance-Nearer ans rechecking id t h = inr (
    use_node-Nearer 4 id t _ (omega arith) h
      (λ f e. record { nearer = rw e (omega arith); still = h }))
advance-Nearer ans (connecting client) id t h = inr (
    use_node-Nearer 6 id t _ (omega arith) h
      (λ f e. after_connect-Nearer _ ans.malloc client id t h))
advance-Nearer ans (counting client fd) id t h = inr (
    use_node-Nearer 5 id t _ (omega arith) h
      (λ f e. record { nearer = omega arith; still = start_relay-Stopped ans client fd id t h }))
advance-Nearer ans leaving id t h = inr (
    use_node-Nearer 2 id t _ (omega arith) h
      (λ f e. record { nearer = leave-rank f.listen_fd; still = h }))
advance-Nearer ans (closing fd) id t h = inr (
    use_node-Nearer 1 id t _ (omega arith) h
      (λ f e. record { nearer = omega arith; still = close_own-Stopped fd id t h }))
advance-Nearer ans ended id t h = inl refl

ended-turns : (answers : List Answer) (id : ℕ) (t : Threads) → (turns answers ended id t).0 ≡ ended
unfolding advance
ended-turns [] id t = refl
ended-turns (ans ∷ answers) id t = ended-turns answers id t

rank-ended : (at : Phase) → rank at ≤ 0 → at ≡ ended
rank-ended ended h = refl
rank-ended looping h = absurd (omega arith)
rank-ended polling h = absurd (omega arith)
rank-ended accepting h = absurd (omega arith)
rank-ended rechecking h = absurd (omega arith)
rank-ended leaving h = absurd (omega arith)
rank-ended (connecting c) h = absurd (omega arith)
rank-ended (closing fd) h = absurd (omega arith)
rank-ended (counting c fd) h = absurd (omega arith)

turns-end :
    (answers : List Answer) (at : Phase) (id : ℕ) (t : Threads)
    → Stopped id t.registry
    → rank at ≤ length answers
    → (turns answers at id t).0 ≡ ended
turns-end [] at id t h enough = rank-ended at enough
turns-end (ans ∷ answers) at id t h enough = elim (advance-Nearer ans at id t h) [
  | inl e ↦
      subst (λ p. (turns (ans ∷ answers) p id t).0 ≡ ended) (sym e)
        (ended-turns (ans ∷ answers) id t)
  | inr n ↦
      turns-end answers (advance ans at id t).0 id (advance ans at id t).1 n.still
        (omega (arith, n.nearer))
]

stopped_running :
    (id : ℕ) (fs : List Forward) (f : Forward)
    → find_forward id (map stop fs) ≡ some f
    → f.running ≡ false
unfolding find_forward stop
stopped_running id [] f e = cc
stopped_running id (g ∷ fs) f e = ground (arith, stopped_running id fs f)

rank-most : (at : Phase) → rank at ≤ 8
rank-most ended = omega arith
rank-most looping = omega arith
rank-most polling = omega arith
rank-most accepting = omega arith
rank-most rechecking = omega arith
rank-most leaving = omega arith
rank-most (connecting c) = omega arith
rank-most (closing fd) = omega arith
rank-most (counting c fd) = omega arith

-- After `forward_shutdown_all` every accept thread, wherever it stands, reaches its end within eight
-- of its own steps, whatever its calls answer; a use of a node that was freed before counts as an
-- end.
pub forward_shutdown_all-turns :
    (answers : List Answer) (at : Phase) (id : ℕ) (t : Threads)
    → 8 ≤ length answers
    → (turns answers at id (run_event shuts_down t)).0 ≡ ended
unfolding run_event forward_shutdown_all Stopped
forward_shutdown_all-turns answers at id t enough =
    turns-end answers at id (run_event shuts_down t)
      (λ f e. stopped_running id t.registry.forwards f e) (omega (arith, rank-most at))
