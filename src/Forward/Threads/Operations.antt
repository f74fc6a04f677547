-- ===== src/Forward/Threads/Operations.antt =====
-- What the operations on the list of src/forward.c leave to its threads.
use adb_termux_bridge.Base.{
  ℕ, ◌+◌, ◌≤◌, ◌<◌, ◌≡◌, refl, sym, ap, ◌∙◌, subst, ◌⊎◌, inl, inr, Bool, true, false, none, some,
  List, [], ◌∷◌, arith, ◌==◌, ==_iff, ==_refl, Bool-cases, Option-cases, All, ℤ, Bytes,
}
use adb_termux_bridge.Forward.{
  Forward, Registry, Calls, forward_remove, forward_shutdown_all, find_forward, unlink, new_forward,
  Socket,
}
use adb_termux_bridge.Forward.Invariant.{added, forward_add_cases}
use adb_termux_bridge.Forward.Lists.{
  ids, NotIn, Distinct, Distinct-unlink, find-NotIn, NotIn-self-unlink, find-unlink_ne, ids-stop,
}
use adb_termux_bridge.Forward.Threads.{
  Job, Threads, looping, adds, removes, shuts_down, started, run_event,
}
use adb_termux_bridge.Forward.Threads.Nodes.{
  In, jobs_of, Known, Listed, Counted, JobsKnown, Sound, stop-none, stop-some,
}
use adb_termux_bridge.Forward.Threads.Counting.{AllKnown-imp, JobsKnown-imp}

below-unlink :
    (n id : ℕ) (fs : List Forward)
    → All (λ i. i < n) (ids fs)
    → All (λ i. i < n) (ids (unlink id fs))
unfolding unlink
below-unlink n id [] h = tt
below-unlink n id (f ∷ fs) h = ground (arith, below-unlink n id fs)

below-suc : (n : ℕ) (xs : List ℕ) → All (λ i. i < n) xs → All (λ i. i < n + 1) xs
below-suc n [] h = tt
below-suc n (x ∷ xs) h = (omega arith, below-suc n xs h.1)

NotIn-below : (n : ℕ) (xs : List ℕ) → All (λ i. i < n) xs → NotIn n xs
NotIn-below n [] h = tt
NotIn-below n (x ∷ xs) h = (omega arith, NotIn-below n xs h.1)

no_jobs :
    (gone : List ℕ) (r : Registry) (jobs : List Job)
    → JobsKnown gone r jobs
    → jobs_of r.next_id jobs ≡ 0
no_jobs gone r [] h = refl
no_jobs gone r (j ∷ jobs) h = ground (arith, h.0.old, no_jobs gone r jobs h.1)

find-cons_none :
    (id : ℕ) (f : Forward) (fs : List Forward)
    → find_forward id (f ∷ fs) ≡ none
    → find_forward id fs ≡ none
unfolding find_forward
find-cons_none id f fs e = ground arith

find_self : (f : Forward) (fs : List Forward) → find_forward f.id (f ∷ fs) ≡ some f
unfolding find_forward
find_self f fs = rw (==_refl f.id) refl

find-cons :
    (id : ℕ) (g : Forward) (fs : List Forward) (f : Forward)
    → find_forward id (g ∷ fs) ≡ some f
    → (g.id ≡ id) ⊎ (find_forward id fs ≡ some f)
unfolding find_forward
find-cons id g fs f e = elim (Bool-cases (g.id == id)) [
  | inl h ↦ inl ((==_iff g.id id).0 h)
  | inr h ↦ inr (ground arith)
]

module _ (gone : List ℕ) where
  Sound-registry :
      (t : Threads) (r : Registry)
      → Sound gone t
      → Listed r
      → ((id : ℕ) → Known gone t.registry id → Known gone r id)
      → Counted r t.jobs
      → Sound gone (record t { registry = r })
  Sound-registry t r s l again c = record {
    listed = l;
    threads = AllKnown-imp gone t.registry r again t.accepts s.threads;
    relays = JobsKnown-imp gone t.registry r again t.jobs s.relays;
    counts = c;
    misused = s.misused;
  }

  pub stopped-Sound : (t : Threads) → Sound gone t → Sound gone (run_event shuts_down t)
  unfolding run_event forward_shutdown_all
  stopped-Sound t s =
      let fs = t.registry.forwards in
      Sound-registry t _ s
        (record {
          below = subst (All (λ i. i < t.registry.next_id)) (sym (ids-stop fs)) s.listed.below;
          distinct = subst Distinct (sym (ids-stop fs)) s.listed.distinct;
        })
        (λ id k. record { old = k.old; there = λ e. k.there (stop-none id fs e) })
        (record {
          counted = λ id f e.
              let (g, found, same) = stop-some id fs f e in
              subst (λ n. jobs_of id t.jobs ≤ n) (sym same) (s.counts.counted id g found);
        })

  unlinked-Sound :
      (id : ℕ) (ss : List Socket) (t : Threads)
      → In id gone
      → Sound gone t
      → Sound gone (record t {
        registry = record (t.registry) { forwards = unlink id t.registry.forwards; sockets = ss };
      })
  unlinked-Sound id ss t allowed s =
      let fs = t.registry.forwards in
      Sound-registry t _ s
        (record {
          below = below-unlink t.registry.next_id id fs s.listed.below;
          distinct = Distinct-unlink id fs s.listed.distinct;
        })
        (λ other k. record { old = k.old; there = λ e. there other k e (Bool-cases (id == other)) })
        (record { counted = λ other f e. counted other f e (Bool-cases (id == other)) })
    where
      there :
          (other : ℕ)
          → Known gone t.registry other
          → find_forward other (unlink id t.registry.forwards) ≡ none
          → ((id == other) ≡ true) ⊎ ((id == other) ≡ false)
          → In other gone
      there other k e (inl h) = subst (λ n. In n gone) ((==_iff id other).0 h) allowed
      there other k e (inr h) =
          k.there (sym (find-unlink_ne id other t.registry.forwards (ground arith)) ∙ e)

      counted :
          (other : ℕ) (f : Forward)
          → find_forward other (unlink id t.registry.forwards) ≡ some f
          → ((id == other) ≡ true) ⊎ ((id == other) ≡ false)
          → jobs_of other t.jobs ≤ f.active_connections
      counted other f e (inl h) =
          let fs = t.registry.forwards in
          let missing = find-NotIn id _ (NotIn-self-unlink id fs s.listed.distinct) in
          let q = (==_iff id other).0 h in
          absurd (none_some (sym missing ∙ ap (λ n. find_forward n (unlink id fs)) q ∙ e))
        where
          none_some : none ≡ some f → ⊥
          none_some e = cc
      counted other f e (inr h) =
          s.counts.counted other f
            (sym (find-unlink_ne id other t.registry.forwards (ground arith)) ∙ e)

  pub removed-Sound :
      (id : ℕ) (t : Threads) → In id gone → Sound gone t → Sound gone (run_event (removes id) t)
  unfolding run_event forward_remove
  removed-Sound id t allowed s = elim (Option-cases (find_forward id t.registry.forwards)) [
    | inl e ↦ rw (e, run_event, forward_remove) s
    | inr (f, e) ↦ rw (e, run_event, forward_remove) (unlinked-Sound id _ t allowed s)
  ]

  added-Sound :
      (c : Calls) (fd : ℕ) (unix_path host : Bytes) (port : ℤ) (secure : Bool) (t : Threads)
      → Sound gone t
      → Sound gone (record t {
        registry = added c fd unix_path host port secure t.registry;
        accepts = record { fw = t.registry.next_id; at = looping } ∷ t.accepts;
      })
  unfolding added new_forward
  added-Sound c fd unix_path host port secure t s =
      let r = added c fd unix_path host port secure t.registry in
      let n = t.registry.next_id in
      let f = new_forward n fd unix_path host port secure in
      let again : (i : ℕ) → Known gone t.registry i → Known gone r i = λ i k. record {
        old = omega (arith, k.old);
        there = λ e. k.there (find-cons_none i f t.registry.forwards e);
      } in
      record {
        listed = record {
          below = (omega arith, below-suc n (ids t.registry.forwards) s.listed.below);
          distinct = (NotIn-below n (ids t.registry.forwards) s.listed.below, s.listed.distinct);
        };
        threads = (
          record { old = omega arith; there = λ e. absurd (new_there e) },
          AllKnown-imp gone t.registry r again t.accepts s.threads,
        );
        relays = JobsKnown-imp gone t.registry r again t.jobs s.relays;
        counts = record { counted = counted };
        misused = s.misused;
      }
    where
      new_there :
          find_forward t.registry.next_id
              (new_forward t.registry.next_id fd unix_path host port secure ∷ t.registry.forwards)
            ≡ none
          → ⊥
      new_there e = none_some (sym e ∙ find_self _ t.registry.forwards)
        where
          none_some : {g : Forward} → none ≡ some g → ⊥
          none_some e = cc

      counted :
          (id : ℕ) (f : Forward)
          → find_forward id
              (new_forward t.registry.next_id fd unix_path host port secure ∷ t.registry.forwards)
            ≡ some f
          → jobs_of id t.jobs ≤ f.active_connections
      counted id f e = elim (find-cons id _ t.registry.forwards f e) [
        | inl same ↦
            let none_run = no_jobs gone t.registry t.jobs s.relays in
            subst (λ n. n ≤ f.active_connections)
              (sym (ap (λ n. jobs_of n t.jobs) (sym same) ∙ none_run)) (omega arith)
        | inr found ↦ s.counts.counted id f found
      ]

  pub add-Sound :
      (c : Calls) (unix_path host : Bytes) (port : ℤ) (secure : Bool) (t : Threads)
      → Sound gone t
      → Sound gone (run_event (adds c unix_path host port secure) t)
  unfolding run_event started
  add-Sound c unix_path host port secure t s =
      elim (forward_add_cases c unix_path host port secure t.registry) [
        | inl refused ↦ subst P (sym refused.result) s
        | inr a ↦ subst P (sym a.result) (added-Sound c a.fd unix_path host port secure t s)
      ]
    where
      P : Registry × ℤ → Type 0
      P o = Sound gone (record t { registry = o.0; accepts = started o.1 t.accepts })
