-- ===== src/Executor/Pipe/Input.antt =====
-- The way of the request body into the child in `exec_run_pipe` of src/executor.c.
use adb_termux_bridge.Base.{
  ℕ, ◌+◌, ◌≡◌, refl, sym, ap, ◌∙◌, subst, ◌⊎◌, inl, inr, Bool, true, false, not, ◌&&◌, ◌||◌, Option,
  none, some, [], ◌∷◌, ◌++◌, append_assoc, ltb, ◌==◌, if◌then◌else◌, length, take, drop,
  take-append-drop, Bytes,
}
use adb_termux_bridge.Executor.BodyReader.{Reader, br_step}
use adb_termux_bridge.Executor.BodyReader.Core.{core}
use adb_termux_bridge.Executor.Capture.{Status}
use adb_termux_bridge.Executor.Pipe.{
  Polled, poll_failed, interrupted, poll_ready, Wrote, wrote, again, broken, Answers, Loop, Next,
  go_on, leave, ssl_failed, polls_ssl, polls_stdin, read_block, pending_output, after_write,
  write_block, after_stdin, stdin_block, output_block, close_block, wait_block, second_half,
  after_poll, round,
}
use adb_termux_bridge.Ssl.{Ssl, Outcome, done, want_read, want_write, failed}

module _ (ssl : Ssl) (beyond : ℕ → Bytes) (raw : Bool) where
  open ssl use {Session, ssl_write, ssl_pending}

  -- All that was stored of the body: given to the child, or in the buffer for it.
  unfoldable pub stored : Loop Session → Bytes
  stored l = l.child_input ++ l.reader.stdin_buf

  -- The body reader with all that was stored.
  abbrev pub core_of : Loop Session → Reader
  core_of l = core l.child_input l.reader

  -- The body reader is where it was, and the same bytes are stored in the same order.
  unfoldable pub Same : Loop Session → Loop Session → Type 0
  Same l t = core_of t ≡ core_of l

  pub Same-stored : (l t : Loop Session) → Same l t → stored t ≡ stored l
  unfolding Same stored
  Same-stored l t h = ap (λ r. r.stdin_buf) h

  pub Same-state : (l t : Loop Session) → Same l t → t.reader.state ≡ l.reader.state
  unfolding Same
  Same-state l t h = ap (λ r. r.state) h

  if-Same : (b : Bool) (l t u : Loop Session) → Same l t → Same l u → Same l (if b then t else u)
  if-Same true l t u h k = h
  if-Same false l t u h k = k

  after_stdin-Same : (w : Wrote) (l : Loop Session) → Same l (after_stdin ssl beyond raw w l)
  unfolding after_stdin Same
  after_stdin-Same (wrote n) l =
      ap (λ (b : Bytes). record (l.reader) { stdin_buf = b; want_read = false; want_write = false })
        (append_assoc l.child_input (take n l.reader.stdin_buf) (drop n l.reader.stdin_buf)
          ∙ ap (λ t. l.child_input ++ t) (take-append-drop n l.reader.stdin_buf))
  after_stdin-Same again l = refl
  after_stdin-Same broken l = refl

  output_block-Same :
      (is_err : Bool) (read : Option Bytes) (l t : Loop Session)
      → Same l t
      → Same l (output_block ssl beyond raw is_err read t)
  unfolding output_block Same
  output_block-Same is_err none l t h = h
  output_block-Same true (some []) l t h = h
  output_block-Same false (some []) l t h = h
  output_block-Same is_err (some (b ∷ bs)) l t h = h

  pub wait_block-Same :
      (w : Option Status) (l t : Loop Session) → Same l t → Same l (wait_block ssl beyond raw w t)
  unfolding wait_block Same
  wait_block-Same none l t h = h
  wait_block-Same (some status) l t h = if-Same t.child_exited l t _ h h

  close_block-Same : (l t : Loop Session) → Same l t → Same l (close_block ssl beyond raw t)
  unfolding close_block Same
  close_block-Same l t h =
      if-Same (t.reader.body_eof && (length t.reader.stdin_buf == 0 && not t.stdin_closed)) l _ t h
        h

  second_half-Same :
      (polled : Bool) (a : Answers) (l : Loop Session)
      → Same l (second_half ssl beyond raw polled a l)
  unfolding second_half stdin_block
  second_half-Same polled a l =
      let fed = stdin_block ssl beyond raw polled a l in
      let out = if l.stdout_done then fed else output_block ssl beyond raw false a.stdout_in fed in
      let err = if l.stderr_done then out else output_block ssl beyond raw true a.stderr_in out in
      let fed_k : Same l fed =
        if-Same (polls_stdin ssl beyond raw l && (polled && a.stdin_out)) l _ l
          (after_stdin-Same a.write l) (unfold Same in refl) in
      let out_k : Same l out =
        if-Same l.stdout_done l fed _ fed_k (output_block-Same false a.stdout_in l fed fed_k) in
      let err_k : Same l err =
        if-Same l.stderr_done l out _ out_k (output_block-Same true a.stderr_in l out out_k) in
      wait_block-Same a.waited l (close_block ssl beyond raw err) (close_block-Same l err err_k)

  -- The variables behind a round, whether or not it is the last.
  abbrev pub state_of : Next Session → Loop Session
  state_of (go_on t) = t
  state_of (leave t) = t
  state_of (ssl_failed t) = t

  abbrev SameNext : Loop Session → Next Session → Type 0
  SameNext l n = Same l (state_of n)

  after_write-Same :
      (o : Outcome ℕ) (s : Session) (l : Loop Session)
      → SameNext l (after_write ssl beyond raw o s l)
  unfolding after_write Same
  after_write-Same (done n) s l = refl
  after_write-Same want_write s l = refl
  after_write-Same want_read s l = refl
  after_write-Same failed s l = refl

  write_block-Same :
      (polled : Bool) (a : Answers) (l : Loop Session)
      → SameNext l (write_block ssl beyond raw polled a l)
  unfolding write_block
  write_block-Same polled a l =
      go (polled && (a.ssl_out && ltb 0 (length l.out.bytes + l.out.missing)))
    where
      go :
          (b : Bool)
          → SameNext l (
              if b
              then after_write ssl beyond raw
                  (ssl_write l.session (pending_output ssl beyond raw l.out)).0
                  (ssl_write l.session (pending_output ssl beyond raw l.out)).1
                  l
              else go_on l)
      go true = after_write-Same _ _ l
      go false = unfold Same in refl

  -- Behind the read of a round, whatever else it does.
  pub after_poll-Same :
      (a : Answers) (l : Loop Session)
      → Same (read_block ssl beyond raw a l) (state_of (after_poll ssl beyond raw a l))
  unfolding after_poll
  after_poll-Same a l =
      go (write_block ssl beyond raw (polls_ssl ssl beyond raw l) a (read_block ssl beyond raw a l))
        (write_block-Same (polls_ssl ssl beyond raw l) a (read_block ssl beyond raw a l))
    where
      go :
          (r : Next Session)
          → SameNext (read_block ssl beyond raw a l) r
          → Same (read_block ssl beyond raw a l) (
              state_of (elim r as (λ _. Next Session) [
                | go_on t ↦ go_on (second_half ssl beyond raw (polls_stdin ssl beyond raw l) a t)
                | leave t ↦ leave t
                | ssl_failed t ↦ ssl_failed t
              ]))
      go (go_on u) k = unfold Same in (second_half-Same (polls_stdin ssl beyond raw l) a u ∙ k)
      go (leave u) k = k
      go (ssl_failed u) k = k

  read_block-stored :
      (a : Answers) (l : Loop Session)
      → (read_block ssl beyond raw a l ≡ l)
        ⊎ (stored (read_block ssl beyond raw a l)
            ≡ l.child_input ++ (br_step ssl l.reader l.session).0.stdin_buf)
  unfolding read_block stored
  read_block-stored a l =
      go (polls_ssl ssl beyond raw l && (a.ssl_in || ltb 0 (ssl_pending l.session)))
    where
      go :
          (b : Bool)
          → (let o = br_step ssl l.reader l.session in
              let after = if b then record l { reader = o.0; session = o.1 } else l in
              (after ≡ l) ⊎ (stored after ≡ l.child_input ++ o.0.stdin_buf))
      go true = inr refl
      go false = inl refl

  -- A round that goes on loses, repeats and reorders no byte of the body: what the child was given
  -- with what waits for it is afterwards what it was before, or with what the round's one step of the
  -- body reader added.
  pub round-stored :
      (a : Answers) (l t : Loop Session)
      → round ssl beyond raw a l ≡ go_on t
      → (stored t ≡ stored l)
        ⊎ (stored t ≡ l.child_input ++ (br_step ssl l.reader l.session).0.stdin_buf)
  unfolding round Same
  round-stored a l t h =
      go
        (polls_ssl ssl beyond raw l
          || (polls_stdin ssl beyond raw l || (not l.stdout_done || not l.stderr_done)))
        a.poll h
    where
      inj : (x y : Loop Session) → go_on x ≡ go_on y → x ≡ y
      inj x y e = cc

      go :
          (b : Bool) (p : Polled)
          → (if b
              then elim p as (λ _. Next Session) [
                | poll_failed ↦ leave l
                | interrupted ↦ go_on l
                | poll_ready ↦ after_poll ssl beyond raw a l
              ]
              else leave (wait_block ssl beyond raw a.awaited l))
            ≡ go_on t
          → (stored t ≡ stored l)
            ⊎ (stored t ≡ l.child_input ++ (br_step ssl l.reader l.session).0.stdin_buf)
      go false p e = cc
      go true poll_failed e = cc
      go true interrupted e = inl (ap stored (sym (inj l t e)))
      go true poll_ready e =
          let k = Same-stored (read_block ssl beyond raw a l) t (
            subst (λ n. Same (read_block ssl beyond raw a l) (state_of n)) e
              (after_poll-Same a l)) in
          elim (read_block-stored a l) [
            | inl same ↦ inl (k ∙ ap stored same)
            | inr more ↦ inr (k ∙ more)
          ]
