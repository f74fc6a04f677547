-- ===== src/Executor/Pipe/Delivery.antt =====
-- The whole way of the request body through the loop of `exec_run_pipe` in src/executor.c: from the
-- bytes that SSL_read returns to the child's input.
use adb_termux_bridge.Base.{
  ℕ, ◌≡◌, refl, sym, ap, ◌∙◌, subst, ◌⊎◌, inl, inr, Bool, true, false, not, ◌&&◌, ◌||◌, Option,
  none, some, List, [], ◌∷◌, ◌++◌, append-nil, append_assoc, ltb, if◌then◌else◌, concat, ℤ, Bytes,
}
use adb_termux_bridge.Executor.BodyReader.{br_done, Reader, new_reader, br_step}
use adb_termux_bridge.Executor.BodyReader.Core.{feed-grows, br_reads, br_step-core, read_of}
use adb_termux_bridge.Executor.BodyReader.Feed.{feed, feed-append, feed_nil, asked_in}
use adb_termux_bridge.Executor.BodyReader.RoundTrip.{AreChunks, send_chunks, feed-send_chunks}
use adb_termux_bridge.Executor.Pipe.{
  Polled, poll_failed, interrupted, poll_ready, Answers, Loop, Next, go_on, leave, ssl_failed,
  start_loop, running, polls_ssl, polls_stdin, read_block, after_poll, round, pipe_loop, wait_block,
}
use adb_termux_bridge.Executor.Pipe.Input.{
  stored, core_of, Same, Same-stored, Same-state, state_of, after_poll-Same, wait_block-Same,
}
use adb_termux_bridge.Chunk.{send_chunk_final}
use adb_termux_bridge.Ssl.{Ssl, wire}

module _ (ssl : Ssl) (beyond : ℕ → Bytes) (raw : Bool) where
  open ssl use {Session, ssl_pending}

  -- The bytes that a round reads of the body.
  reads_if : Bool → Loop Session → Bytes
  reads_if true l = br_reads ssl l.reader l.session
  reads_if false l = []

  polled_reads : Polled → Answers → Loop Session → Bytes
  polled_reads poll_failed a l = []
  polled_reads interrupted a l = []
  polled_reads poll_ready a l =
      reads_if (polls_ssl ssl beyond raw l && (a.ssl_in || ltb 0 (ssl_pending l.session))) l

  round_reads : Answers → Loop Session → Bytes
  unfolding polled_reads reads_if
  round_reads a l =
      if polls_ssl ssl beyond raw l
        || (polls_stdin ssl beyond raw l || (not l.stdout_done || not l.stderr_done))
      then polled_reads a.poll a l
      else []

  -- The bytes that the loop reads of the body, in order.
  unfoldable pub pipe_reads : List Answers → Loop Session → Bytes
  unfolding round_reads
  pipe_reads [] l = []
  pipe_reads (a ∷ rest) l = elim (running ssl beyond raw l) [
    | false ↦ []
    | true ↦ round_reads a l ++ (elim (round ssl beyond raw a l) [
      | go_on t ↦ pipe_reads rest t
      | leave t ↦ []
      | ssl_failed t ↦ []
    ])
  ]

  -- From `l` to `t` the body reader was fed `bs`; or it was stopped by an error.
  Step : Loop Session → Bytes → Loop Session → Type 0
  Step l bs t =
      (core_of ssl beyond raw t ≡ feed bs (core_of ssl beyond raw l))
      ⊎ ((t.reader.state ≡ br_done)
          × (stored ssl beyond raw t ≡ stored ssl beyond raw l)
          × (bs ≡ []))

  Step-refl : (l t : Loop Session) → Same ssl beyond raw l t → Step l [] t
  unfolding Step Same
  Step-refl l t h = inl (h ∙ sym (feed_nil _))

  Step-Same :
      (l u t : Loop Session) (bs : Bytes) → Step l bs u → Same ssl beyond raw u t → Step l bs t
  unfolding Step Same
  Step-Same l u t bs (inl fed) h = inl (h ∙ fed)
  Step-Same l u t bs (inr bad) h =
      inr (Same-state ssl beyond raw u t h ∙ bad.0, Same-stored ssl beyond raw u t h ∙ bad.1, bad.2)

  read_block-Step :
      (a : Answers) (l : Loop Session)
      → Step l
          (reads_if (polls_ssl ssl beyond raw l && (a.ssl_in || ltb 0 (ssl_pending l.session))) l)
          (read_block ssl beyond raw a l)
  unfolding read_block reads_if Step stored
  read_block-Step a l =
      go (polls_ssl ssl beyond raw l && (a.ssl_in || ltb 0 (ssl_pending l.session)))
    where
      go :
          (b : Bool)
          → (let o = br_step ssl l.reader l.session in
              Step l (reads_if b l) (if b then record l { reader = o.0; session = o.1 } else l))
      go false = Step-refl l l (unfold Same in refl)
      go true = elim (br_step-core ssl l.child_input l.reader l.session) [
        | inl fed ↦ inl fed
        | inr bad ↦ inr (bad.0.stopped, ap (λ b. l.child_input ++ b) bad.0.same_buffer, bad.1)
      ]

  round-Step :
      (a : Answers) (l : Loop Session)
      → Step l (round_reads a l) (state_of ssl beyond raw (round ssl beyond raw a l))
  unfolding round round_reads polled_reads
  round-Step a l =
      go
        (polls_ssl ssl beyond raw l
          || (polls_stdin ssl beyond raw l || (not l.stdout_done || not l.stderr_done)))
        a.poll
    where
      go :
          (b : Bool) (p : Polled)
          → Step l (if b then polled_reads p a l else []) (
              state_of ssl beyond raw (
                if b
                then elim p as (λ _. Next Session) [
                  | poll_failed ↦ leave l
                  | interrupted ↦ go_on l
                  | poll_ready ↦ after_poll ssl beyond raw a l
                ]
                else leave (wait_block ssl beyond raw a.awaited l)))
      go false p =
          Step-refl l _ (wait_block-Same ssl beyond raw a.awaited l l (unfold Same in refl))
      go true poll_failed = Step-refl l l (unfold Same in refl)
      go true interrupted = Step-refl l l (unfold Same in refl)
      go true poll_ready =
          Step-Same l (read_block ssl beyond raw a l) _ _ (read_block-Step a l)
            (after_poll-Same ssl beyond raw a l)

  -- Behind `bs`, with `r` at the start: the body reader is where `bs` brings it; or it was stopped, and
  -- what was stored is what `bs` gives.
  Fed : Reader → Bytes → Loop Session → Type 0
  Fed r bs l =
      (core_of ssl beyond raw l ≡ feed bs r)
      ⊎ ((l.reader.state ≡ br_done) × (stored ssl beyond raw l ≡ (feed bs r).stdin_buf))

  Fed-stored :
      (r : Reader) (bs : Bytes) (l : Loop Session)
      → Fed r bs l
      → stored ssl beyond raw l ≡ (feed bs r).stdin_buf
  unfolding Fed stored
  Fed-stored r bs l (inl fed) = ap (λ t. t.stdin_buf) fed
  Fed-stored r bs l (inr stopped) = stopped.1

  -- A reader that is done reads nothing.
  done-reads : (l : Loop Session) (b : Bool) → l.reader.state ≡ br_done → reads_if b l ≡ []
  unfolding reads_if br_reads read_of
  done-reads l false h = refl
  done-reads l true h = ap (λ st. read_of ssl (asked_in st l.reader) l.session) h

  round-done : (a : Answers) (l : Loop Session) → l.reader.state ≡ br_done → round_reads a l ≡ []
  unfolding round_reads
  round-done a l h =
      go
        (polls_ssl ssl beyond raw l
          || (polls_stdin ssl beyond raw l || (not l.stdout_done || not l.stderr_done)))
        a.poll
    where
      go : (b : Bool) (p : Polled) → (if b then polled_reads p a l else []) ≡ []
      go false p = refl
      go true poll_failed = unfold polled_reads in refl
      go true interrupted = unfold polled_reads in refl
      go true poll_ready = unfold polled_reads in done-reads l _ h

  Fed-Step :
      (r : Reader) (bs cs : Bytes) (l t : Loop Session)
      → (l.reader.state ≡ br_done → cs ≡ [])
      → Fed r bs l
      → Step l cs t
      → Fed r (bs ++ cs) t
  unfolding Fed Step stored
  Fed-Step r bs cs l t idle (inl fed) (inl more) =
      inl (more ∙ ap (feed cs) fed ∙ sym (feed-append bs cs r))
  Fed-Step r bs cs l t idle (inl fed) (inr bad) = inr (
    bad.0,
    bad.1
        ∙ ap (λ u. u.stdin_buf) fed
        ∙ ap (λ b. (feed b r).stdin_buf) (sym (ap (λ c. bs ++ c) bad.2 ∙ append-nil bs)),
  )
  Fed-Step r bs cs l t idle (inr stopped) (inl more) =
      let none_read = idle stopped.0 in
      let same : core_of ssl beyond raw t ≡ core_of ssl beyond raw l =
        more ∙ ap (λ c. feed c (core_of ssl beyond raw l)) none_read ∙ feed_nil _ in
      inr (
        ap (λ u. u.state) same ∙ stopped.0,
        ap (λ u. u.stdin_buf) same
            ∙ stopped.1
            ∙ ap (λ b. (feed b r).stdin_buf) (sym (ap (λ c. bs ++ c) none_read ∙ append-nil bs)),
      )
  Fed-Step r bs cs l t idle (inr stopped) (inr bad) = inr (
    bad.0,
    bad.1
        ∙ stopped.1
        ∙ ap (λ b. (feed b r).stdin_buf) (sym (ap (λ c. bs ++ c) bad.2 ∙ append-nil bs)),
  )

  abbrev EndFed : Reader → Bytes → Option (Loop Session × Bool) → Type 0
  EndFed r bs none = Unit
  EndFed r bs (some o) = Fed r bs o.0

  Fed-nil : (r : Reader) (bs : Bytes) (l : Loop Session) → Fed r bs l → Fed r (bs ++ []) l
  Fed-nil r bs l h = subst (λ b. Fed r b l) (sym (append-nil bs)) h

  -- What the rest of the loop comes to.
  abbrev Later : Reader → Answers → Loop Session → Bytes → List Answers → Type 0
  Later r a l bs rest =
      (t : Loop Session)
      → Fed r (bs ++ round_reads a l) t
      → EndFed r ((bs ++ round_reads a l) ++ pipe_reads rest t) (pipe_loop ssl beyond raw rest t)

  pipe_loop-Fed :
      (answers : List Answers) (l : Loop Session) (r : Reader) (bs : Bytes)
      → Fed r bs l
      → EndFed r (bs ++ pipe_reads answers l) (pipe_loop ssl beyond raw answers l)
  unfolding pipe_loop pipe_reads
  pipe_loop-Fed [] l r bs h = go (running ssl beyond raw l)
    where
      go : (b : Bool) → EndFed r (bs ++ []) (if b then none else some (l, false))
      go true = tt
      go false = Fed-nil r bs l h
  pipe_loop-Fed (a ∷ rest) l r bs h =
      go (λ t k. pipe_loop-Fed rest t r (bs ++ round_reads a l) k) (running ssl beyond raw l)
    where
      next :
          Later r a l bs rest
          → (n : Next Session) → Fed r (bs ++ round_reads a l) (state_of ssl beyond raw n)
          → EndFed r
              (bs
                ++ (round_reads a l ++ (elim n as (λ _. Bytes) [
                  | go_on t ↦ pipe_reads rest t
                  | leave t ↦ []
                  | ssl_failed t ↦ []
                ])))
              (elim n as (λ _. Option (Loop Session × Bool)) [
                | go_on t ↦ pipe_loop ssl beyond raw rest t
                | leave t ↦ some (t, false)
                | ssl_failed t ↦ some (t, true)
              ])
      next later (go_on t) k =
          subst (λ b. EndFed r b (pipe_loop ssl beyond raw rest t))
            (append_assoc bs (round_reads a l) (pipe_reads rest t)) (later t k)
      next later (leave t) k = subst (λ b. Fed r (bs ++ b) t) (sym (append-nil (round_reads a l))) k
      next later (ssl_failed t) k =
          subst (λ b. Fed r (bs ++ b) t) (sym (append-nil (round_reads a l))) k

      go :
          Later r a l bs rest
          → (b : Bool)
          → EndFed r
              (bs ++ (elim b as (λ _. Bytes) [
                | false ↦ []
                | true ↦ round_reads a l ++ (elim (round ssl beyond raw a l) as (λ _. Bytes) [
                  | go_on t ↦ pipe_reads rest t
                  | leave t ↦ []
                  | ssl_failed t ↦ []
                ])
              ]))
              (elim b as (λ _. Option (Loop Session × Bool)) [
                | false ↦ some (l, false)
                | true ↦ elim (round ssl beyond raw a l) as (λ _. Option (Loop Session × Bool)) [
                  | go_on t ↦ pipe_loop ssl beyond raw rest t
                  | leave t ↦ some (t, false)
                  | ssl_failed t ↦ some (t, true)
                ]
              ])
      go later false = Fed-nil r bs l h
      go later true =
          next later (round ssl beyond raw a l)
            (Fed-Step r bs (round_reads a l) l _ (round-done a l) h (round-Step a l))

  start-Fed :
      (chunked : Bool) (content_length : ℤ) (s : Session)
      → Fed
          (new_reader chunked content_length)
          []
          (start_loop ssl beyond raw chunked content_length s)
  unfolding Fed start_loop feed
  start-Fed chunked content_length s = inl refl

  pub pipe_loop-feed :
      (answers : List Answers) (chunked : Bool) (content_length : ℤ) (s : Session)
      (l : Loop Session) (ssl_error : Bool)
      → (let start = start_loop ssl beyond raw chunked content_length s in
          pipe_loop ssl beyond raw answers start ≡ some (l, ssl_error))
      → l.child_input ++ l.reader.stdin_buf
        ≡ (feed
            (pipe_reads answers (start_loop ssl beyond raw chunked content_length s))
            (new_reader chunked content_length)).stdin_buf
  unfolding stored
  pipe_loop-feed answers chunked content_length s l ssl_error ended =
      let start = start_loop ssl beyond raw chunked content_length s in
      let r = new_reader chunked content_length in
      let fresh : Fed r [] start = start-Fed chunked content_length s in
      let end = pipe_loop-Fed answers start r [] fresh in
      Fed-stored r (pipe_reads answers start) l
        (subst (EndFed r (pipe_reads answers start)) ended end)

  -- If the client puts data on the connection by `send_chunk`, one call for each piece, and
  -- `send_chunk_final`, and the loop reads a front of that before it ends, then the child was given a
  -- front of the data: no byte of the framing, none of the data twice, and none out of its order.
  pub pipe_loop-front :
      (client : Ssl) (sender : client.Session) (ds : List Bytes) (answers : List Answers)
      (content_length : ℤ) (s : Session) (l : Loop Session) (ssl_error : Bool) (unread : Bytes)
      → AreChunks ds
      → (let start = start_loop ssl beyond raw true content_length s in
          pipe_loop ssl beyond raw answers start ≡ some (l, ssl_error))
      → wire
          (send_chunk_final client (send_chunks client ds (record { session = sender; sent = [] })))
        ≡ pipe_reads answers (start_loop ssl beyond raw true content_length s) ++ unread
      → (later : Bytes) × (l.child_input ++ later ≡ concat ds)
  pipe_loop-front client sender ds answers content_length s l ssl_error unread chunks ended
        on_wire =
      let r = new_reader true content_length in
      let read = pipe_reads answers (start_loop ssl beyond raw true content_length s) in
      let whole = (feed-send_chunks client ds sender content_length chunks).0 in
      let given = pipe_loop-feed answers true content_length s l ssl_error ended in
      let (x, more) = feed-grows unread (feed read r) in
      (
        l.reader.stdin_buf ++ x,
        sym (append_assoc l.child_input l.reader.stdin_buf x)
            ∙ ap (λ b. b ++ x) given
            ∙ sym more
            ∙ ap (λ t. t.stdin_buf) (sym (feed-append read unread r))
            ∙ ap (λ b. (feed b r).stdin_buf) (sym on_wire)
            ∙ whole,
      )
