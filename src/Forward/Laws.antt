-- ===== src/Forward/Laws.antt =====
-- What `forward_add` and `forward_remove` promise to their callers.
use adb_termux_bridge.Base.{
  ℕ, ◌≡◌, refl, sym, ap, ◌∙◌, subst, ◌≢◌, ◌⊎◌, inl, inr, Bool, true, false, none, some, arith,
  Option-cases, ℤ, pos, negsuc, is_neg, Bytes,
}
use adb_termux_bridge.Forward.{
  Forward, Registry, Calls, new_forward, forward_add, find_forward, unlink, forward_remove,
  close_listen_fd, close_socket,
}
use adb_termux_bridge.Forward.Invariant.{IsValid, Added, added, forward_add_cases}
use adb_termux_bridge.Forward.Lists.{
  NotIn, socket_fds, NotIn-self-unlink, find-NotIn, find-unlink_ne, close-unlink, unlink-NotIn_fd,
}

remove_none :
    (id : ℕ) (r : Registry) → find_forward id r.forwards ≡ none → forward_remove id r ≡ (r, false)
unfolding forward_remove
remove_none id r e = rw (e, forward_remove)

remove_some :
    (id : ℕ) (r : Registry) (f : Forward)
    → find_forward id r.forwards ≡ some f
    → forward_remove id r ≡ (
      record r { forwards = unlink id r.forwards; sockets = close_listen_fd f.listen_fd r.sockets },
      true,
    )
unfolding forward_remove
remove_some id r f e = rw (e, forward_remove)

module _ (c : Calls) (unix_path host : Bytes) (port : ℤ) (secure : Bool) (r : Registry) where
  -- A call that returns a negative code changes nothing: no node, no socket and no thread is left
  -- behind, whichever of the seven ways out was taken.
  pub forward_add-unchanged :
      is_neg (forward_add c unix_path host port secure r).1 ≡ true
      → (forward_add c unix_path host port secure r).0 ≡ r
  forward_add-unchanged h = elim (forward_add_cases c unix_path host port secure r) [
    | inl f ↦ ap (λ o. o.0) f.result
    | inr a ↦ absurd (pos_not_neg (subst (λ o. is_neg o.1 ≡ true) a.result h))
  ]
    where
      pos_not_neg : false ≡ true → ⊥
      pos_not_neg e = cc

  Added-of_pos :
      (id : ℕ)
      → (forward_add c unix_path host port secure r).1 ≡ pos id
      → Added c unix_path host port secure r (forward_add c unix_path host port secure r)
        × (r.next_id ≡ id)
  Added-of_pos id h = elim (forward_add_cases c unix_path host port secure r) [
    | inl f ↦ absurd (negsuc_ne f.code (sym (ap (λ o. o.1) f.result) ∙ h))
    | inr a ↦ (a, same r.next_id (sym (ap (λ o. o.1) a.result) ∙ h))
  ]
    where
      negsuc_ne : (k : ℕ) → negsuc k ≡ pos id → ⊥
      negsuc_ne k e = cc

      same : (n : ℕ) → pos n ≡ pos id → n ≡ id
      same n e = cc

  find-added :
      (fd other : ℕ)
      → r.next_id ≢ other
      → find_forward other (added c fd unix_path host port secure r).forwards
        ≡ find_forward other r.forwards
  unfolding find_forward added new_forward
  find-added fd other h = ground arith

  find_self-added :
      (fd : ℕ)
      → find_forward r.next_id (added c fd unix_path host port secure r).forwards
        ≡ some (new_forward r.next_id fd unix_path host port secure)
  unfolding find_forward added new_forward
  find_self-added fd = ground arith

  -- A call that returns an id has a node under that id which holds the arguments, listens and runs;
  -- every other id names the node that it named before.
  pub forward_add-found :
      (id : ℕ)
      → (forward_add c unix_path host port secure r).1 ≡ pos id
      → (fd : ℕ) × (c.socket ≡ some fd)
        × (find_forward id (forward_add c unix_path host port secure r).0.forwards
            ≡ some (new_forward id fd unix_path host port secure))
        × ((other : ℕ)
            → id ≢ other
            → find_forward other (forward_add c unix_path host port secure r).0.forwards
              ≡ find_forward other r.forwards)
  forward_add-found id h =
      let (a, e) = Added-of_pos id h in
      rw (← e) (
        a.fd,
        a.got_socket,
        rw a.result (find_self-added a.fd),
        λ other ne. rw a.result (find-added a.fd other ne),
      )

  -- Removing what was just added gives back the list and the sockets.
  pub forward_remove-forward_add :
      (id : ℕ)
      → (forward_add c unix_path host port secure r).1 ≡ pos id
      → (let o = forward_remove id (forward_add c unix_path host port secure r).0 in
          (o.1 ≡ true) × (o.0.forwards ≡ r.forwards) × (o.0.sockets ≡ r.sockets))
  forward_remove-forward_add id h =
      let (a, e) = Added-of_pos id h in
      rw
        (
          ← e,
          a.result,
          remove_some r.next_id (added c a.fd unix_path host port secure r)
              (new_forward r.next_id a.fd unix_path host port secure) (find_self-added a.fd),
        )
        (back a.fd)
    where
      back :
          (fd : ℕ)
          → (◌≡◌ {A = Bool} true true)
            × (unlink r.next_id (added c fd unix_path host port secure r).forwards ≡ r.forwards)
            × (close_listen_fd
                  (new_forward r.next_id fd unix_path host port secure).listen_fd
                  (added c fd unix_path host port secure r).sockets
                ≡ r.sockets)
      back fd = unfold unlink close_listen_fd close_socket added new_forward in ground arith

-- In a valid list, removing succeeds exactly when the id names a node; then the id names nothing any
-- more, every other id names the node that it named before, and the node's socket is closed.
pub forward_remove_lem :
    (id : ℕ) (r : Registry)
    → IsValid r
    → ((find_forward id r.forwards ≡ none) × (forward_remove id r ≡ (r, false)))
      ⊎ ((f : Forward) × (find_forward id r.forwards ≡ some f)
          × ((forward_remove id r).1 ≡ true)
          × (find_forward id (forward_remove id r).0.forwards ≡ none)
          × ((other : ℕ)
              → id ≢ other
              → find_forward other (forward_remove id r).0.forwards ≡ find_forward other r.forwards)
          × ((fd : ℕ)
              → f.listen_fd ≡ some fd
              → NotIn fd (socket_fds (forward_remove id r).0.sockets)))
forward_remove_lem id r v = elim (Option-cases (find_forward id r.forwards)) [
  | inl e ↦ inl (e, remove_none id r e)
  | inr (f, e) ↦ inr (
    f,
    e,
    rw (remove_some id r f e) refl,
    rw (remove_some id r f e) (find-NotIn id _ (NotIn-self-unlink id r.forwards v.ids_distinct)),
    λ other ne. rw (remove_some id r f e) (find-unlink_ne id other r.forwards ne),
    λ fd k.
        rw
          (
            remove_some id r f e,
            close-unlink id r.forwards r.sockets f e v.fds_distinct v.sockets_owned,
          )
          (unlink-NotIn_fd id fd r.forwards f e k v.fds_distinct),
  )
]
