-- ===== src/Forward/Threads/Counting.antt =====
-- What holds of the nodes, the threads and the relays of src/forward.c whatever runs when.
use adb_termux_bridge.Base.{
  Bool, Option, none, some, if◌then◌else◌, ℕ, ◌+◌, ◌≤◌, ◌≡◌, refl, ap, ◌∙◌, ◌≢◌, inl, inr, List, [],
  ◌∷◌, arith, ==_refl, Bool-cases, Option-cases,
}
use adb_termux_bridge.Forward.{Forward, Registry, find_forward, Socket}
use adb_termux_bridge.Forward.Lists.{erase}
use adb_termux_bridge.Forward.Threads.{
  Phase, Accept, Job, Threads, Answer, Accepted, accepted, accept_interrupted, accept_failed,
  looping, polling, accepting, rechecking, leaving, ended, connecting, closing, counting,
  change_node, one_more, one_less, no_socket, use_node, after_accept, after_connect, start_relay,
  close_own, advance, relay_cleanup, pick, thread_step,
}
use adb_termux_bridge.Forward.Threads.Nodes.{
  jobs_of, Known, Counted, AllKnown, JobsKnown, Sound, Known-change, Listed-change, Counted-change,
  pick-All, jobs_of-pick,
}

module _ (gone : List ℕ) where
  pub AllKnown-imp :
      (r after : Registry)
      → ((id : ℕ) → Known gone r id → Known gone after id)
      → (threads : List Accept) → AllKnown gone r threads
      → AllKnown gone after threads
  AllKnown-imp r after again [] h = tt
  AllKnown-imp r after again (a ∷ threads) h =
      (again a.fw h.0, AllKnown-imp r after again threads h.1)

  pub JobsKnown-imp :
      (r after : Registry)
      → ((id : ℕ) → Known gone r id → Known gone after id)
      → (jobs : List Job) → JobsKnown gone r jobs
      → JobsKnown gone after jobs
  JobsKnown-imp r after again [] h = tt
  JobsKnown-imp r after again (j ∷ jobs) h = (again j.fw h.0, JobsKnown-imp r after again jobs h.1)

  -- A sound state, and a node that a thread has.
  record Fine (id : ℕ) (t : Threads) : Type 0 where
    sound : Sound gone t
    known : Known gone t.registry id

  -- Descriptors do not matter.
  Fine-elsewhere :
      (id : ℕ) (t : Threads) (cs : List ℕ) (ss : List Socket)
      → Fine id t
      → Fine id (record t { connections = cs; registry = record (t.registry) { sockets = ss } })
  Fine-elsewhere id t cs ss h =
      let r = record (t.registry) { sockets = ss } in
      let again : (i : ℕ) → Known gone t.registry i → Known gone r i =
        λ i k. record { old = k.old; there = k.there } in
      record {
        sound = record {
          listed = record { below = h.sound.listed.below; distinct = h.sound.listed.distinct };
          threads = AllKnown-imp t.registry r again t.accepts h.sound.threads;
          relays = JobsKnown-imp t.registry r again t.jobs h.sound.relays;
          counts = record { counted = h.sound.counts.counted };
          misused = h.sound.misused;
        };
        known = again id h.known;
      }

  Fine-fault :
      (id : ℕ) (t : Threads)
      → find_forward id t.registry.forwards ≡ none
      → Fine id t
      → Fine id (record t { faults = id ∷ t.faults })
  Fine-fault id t e h = record {
    sound = record {
      listed = h.sound.listed;
      threads = h.sound.threads;
      relays = h.sound.relays;
      counts = h.sound.counts;
      misused = (h.known.there e, h.sound.misused);
    };
    known = h.known;
  }

  use_node-Fine :
      (id : ℕ) (t : Threads) (body : Forward → Phase × Threads)
      → Fine id t
      → ((f : Forward) → Fine id (body f).1)
      → Fine id (use_node id t body).1
  unfolding use_node
  use_node-Fine id t body h k = elim (Option-cases (find_forward id t.registry.forwards)) [
    | inl e ↦ rw (e, use_node) (Fine-fault id t e h)
    | inr (f, e) ↦ rw (e, use_node) (k f)
  ]

  Fine-change :
      (id : ℕ) (change : Forward → Forward) (t : Threads) (after : List Job)
      → ((g : Forward) → (change g).id ≡ g.id)
      → Fine id t
      → JobsKnown gone t.registry after
      → ((other : ℕ) → id ≢ other → jobs_of other after ≤ jobs_of other t.jobs)
      → ((g : Forward)
          → jobs_of id t.jobs ≤ g.active_connections
          → jobs_of id after ≤ (change g).active_connections)
      → Fine id (record t { registry = change_node id change t.registry; jobs = after })
  Fine-change id change t after keeps h known others own =
      let again : (i : ℕ)
          → Known gone t.registry i
          → Known gone (change_node id change t.registry) i =
        λ i k. Known-change gone id change t.registry i keeps k in
      record {
        sound = record {
          listed = Listed-change id change t.registry keeps h.sound.listed;
          threads = AllKnown-imp t.registry _ again t.accepts h.sound.threads;
          relays = JobsKnown-imp t.registry _ again after known;
          counts = Counted-change id change t.registry t.jobs after keeps h.sound.counts others own;
          misused = h.sound.misused;
        };
        known = again id h.known;
      }

  start_relay-Fine :
      (ans : Answer) (client fd id : ℕ) (t : Threads)
      → Fine id t
      → Fine id (start_relay ans client fd id t)
  unfolding start_relay
  start_relay-Fine ans client fd id t h = elim (Bool-cases ans.created) [
    | inr e ↦
        rw (e, start_relay)
          (Fine-change id one_more t t.jobs (λ g. refl) h h.sound.relays (λ o ne. omega arith)
            (λ g k. omega arith))
    | inl e ↦
        rw (e, start_relay)
          (Fine-change id one_more t (record { fd_a = client; fd_b = fd; fw = id } ∷ t.jobs)
            (λ g. refl) h (h.known, h.sound.relays) (λ o ne. ground arith) (λ g k. ground arith))
  ]

  close_own-Fine : (fd id : ℕ) (t : Threads) → Fine id t → Fine id (close_own fd id t)
  unfolding close_own
  close_own-Fine fd id t h = Fine-elsewhere id _ t.connections _ (
      Fine-change id no_socket t t.jobs (λ g. refl) h h.sound.relays (λ o ne. omega arith)
        (λ g k. k))

  after_accept-Fine :
      (o : Accepted) (id : ℕ) (t : Threads) → Fine id t → Fine id (after_accept o t).1
  unfolding after_accept
  after_accept-Fine (accepted fd) id t h =
      Fine-elsewhere id t (fd ∷ t.connections) t.registry.sockets h
  after_accept-Fine accept_interrupted id t h = h
  after_accept-Fine accept_failed id t h = h

  after_connect-Fine :
      (unix_fd : Option ℕ) (malloc : Bool) (client id : ℕ) (t : Threads)
      → Fine id t
      → Fine id (after_connect unix_fd malloc client t).1
  unfolding after_connect
  after_connect-Fine unix_fd malloc client id t h = elim (Option-cases unix_fd) [
    | inl e ↦ rw (e, after_connect) (Fine-elsewhere id t _ t.registry.sockets h)
    | inr (fd, e) ↦ elim (Bool-cases malloc) [
      | inl k ↦
          rw (e, after_connect) (rw (k, after_connect) (Fine-elsewhere id t _ t.registry.sockets h))
      | inr k ↦
          rw (e, after_connect) (rw (k, after_connect) (Fine-elsewhere id t _ t.registry.sockets h))
    ]
  ]

  advance-Fine :
      (ans : Answer) (at : Phase) (id : ℕ) (t : Threads)
      → Fine id t
      → Fine id (advance ans at id t).1
  unfolding advance
  advance-Fine ans looping id t h = use_node-Fine id t _ h (λ f. h)
  advance-Fine ans polling id t h = use_node-Fine id t _ h (λ f. h)
  advance-Fine ans accepting id t h =
      use_node-Fine id t _ h (λ f. after_accept-Fine ans.accept id t h)
  advance-Fine ans rechecking id t h = use_node-Fine id t _ h (λ f. h)
  advance-Fine ans (connecting client) id t h =
      use_node-Fine id t _ h (λ f. after_connect-Fine _ ans.malloc client id t h)
  advance-Fine ans (counting client fd) id t h =
      use_node-Fine id t _ h (λ f. start_relay-Fine ans client fd id t h)
  advance-Fine ans leaving id t h = use_node-Fine id t _ h (λ f. h)
  advance-Fine ans (closing fd) id t h = use_node-Fine id t _ h (λ f. close_own-Fine fd id t h)
  advance-Fine ans ended id t h = h

  Counted-fewer :
      (r : Registry) (jobs rest : List Job) (n : ℕ) (j : Job)
      → pick n jobs ≡ some (j, rest)
      → Counted r jobs
      → Counted r rest
  Counted-fewer r jobs rest n j e c = record {
    counted = λ id f found. omega (arith, jobs_of-pick id n jobs rest j e, c.counted id f found);
  }

  Fine-drop :
      (t : Threads) (rest : List Job) (n : ℕ) (j : Job)
      → pick n t.jobs ≡ some (j, rest)
      → Sound gone t
      → Fine j.fw (record t { jobs = rest })
  Fine-drop t rest n j e s =
      let (known, others) = pick-All (λ k. Known gone t.registry k.fw) n t.jobs rest j e s.relays in
      record {
        sound = record {
          listed = s.listed;
          threads = s.threads;
          relays = others;
          counts = Counted-fewer t.registry t.jobs rest n j e s.counts;
          misused = s.misused;
        };
        known = known;
      }

  own_job :
      (n : ℕ) (jobs rest : List Job) (j : Job)
      → pick n jobs ≡ some (j, rest)
      → jobs_of j.fw jobs ≡ 1 + jobs_of j.fw rest
  own_job n jobs rest j e =
      jobs_of-pick j.fw n jobs rest j e
      ∙ ap (λ b. (if b then 1 else 0) + jobs_of j.fw rest) (==_refl j.fw)

  pub relay_cleanup-Sound :
      (t : Threads) (rest : List Job) (n : ℕ) (j : Job)
      → pick n t.jobs ≡ some (j, rest)
      → Sound gone t
      → Sound gone (relay_cleanup j (record t { jobs = rest }))
  unfolding relay_cleanup
  relay_cleanup-Sound t rest n j e s =
      let cs = erase j.fd_b (erase j.fd_a t.connections) in
      let fine = Fine-drop t rest n j e s in
      let before : Fine j.fw t = record {
        sound = s;
        known = record { old = fine.known.old; there = fine.known.there };
      } in
      let changed =
        Fine-change j.fw one_less t rest (λ g. refl) before fine.sound.relays
          (λ other ne. omega (arith, jobs_of-pick other n t.jobs rest j e))
          (λ g k. omega (arith, own_job n t.jobs rest j e)) in
      (use_node-Fine j.fw _ _ (Fine-elsewhere j.fw _ cs t.registry.sockets fine)
        (λ f. Fine-elsewhere j.fw _ cs t.registry.sockets changed)).sound

  pub thread_step-Sound :
      (ans : Answer) (t : Threads) (rest : List Accept) (n : ℕ) (a : Accept)
      → pick n t.accepts ≡ some (a, rest)
      → Sound gone t
      → Sound gone (thread_step ans a (record t { accepts = rest }))
  unfolding thread_step
  thread_step-Sound ans t rest n a e s =
      let (known, others) =
        pick-All (λ b. Known gone t.registry b.fw) n t.accepts rest a e s.threads in
      let o =
        advance-Fine ans a.at a.fw (record t { accepts = rest })
          (record {
            sound = record {
              listed = s.listed;
              threads = others;
              relays = s.relays;
              counts = s.counts;
              misused = s.misused;
            };
            known = known;
          }) in
      record {
        listed = o.sound.listed;
        threads = (o.known, o.sound.threads);
        relays = o.sound.relays;
        counts = o.sound.counts;
        misused = o.sound.misused;
      }
