-- ===== src/Executor/Pipe.antt =====
-- `exec_run_pipe` of src/executor.c behind `fork`: the loop that moves the request body into the
-- child and the child's output to the client, and what follows it.
pub mod RawRound
pub mod RawFlow
pub mod Input
pub mod Delivery
use adb_termux_bridge.Base.{
  ℕ, zero, suc, ◌+◌, ◌-◌, ◌*◌, ◌/◌, ◌%◌, ◌^◌, ◌≤◌, ◌<◌, min, ◌≡◌, refl, sym, ap, ◌∙◌, subst, ◌≢◌,
  ◌↔◌, ◌⊎◌, inl, inr, Bool, true, false, not, ◌&&◌, ◌||◌, Option, none, some, List, [], ◌∷◌, ◌++◌,
  map, append-nil, append_assoc, arith, ltb, leb, ◌==◌, if◌then◌else◌, ltb→lt, lt→ltb, not-lt→ltb,
  ltb-false→le, ==_iff, ==_refl, Bool-cases, Option-cases, All, length, take, drop, concat,
  length-append, length-take, length-drop, take-append-drop, take_all, concat-append, All-append,
  All-take, All-drop, ℤ, pos, negsuc, neg, is_pos, is_neg, pos_part, int_eq, int_eq→eq, int_eq_refl,
  Bytes, codes, bytes_eq, bytes_eq_iff, bytes_eq_refl, starts_with, starts_with-append, strstr,
  skip_spaces, NoNul, c_str, c_str-NoNul, digit_char, digit_value, digit_value-digit_char,
  print_base, read_digits, is_space, skip_isspace, long_max, clamp_long, skip_hex_prefix,
  strtol_signed, strtol, print_int, EndsNumber, minus, All-imp, print_base-Without,
  length-print_base, strtol-print_base, print_base-cons, Absent, strstr-append, Without, cut_at,
  cut_at-Without,
}
use adb_termux_bridge.Chunk.{send_chunk, send_chunk_final}
use adb_termux_bridge.Executor.BodyReader.{Reader, new_reader, br_step, stdin_buf_size}
use adb_termux_bridge.Executor.Capture.{Status}
use adb_termux_bridge.Executor.Output.{OutBuf, no_output, sse_buf_len, store_output}
use adb_termux_bridge.Executor.Stream.{exit_status, exit_event}
use adb_termux_bridge.Ssl.{Ssl, Conn, Outcome, done, want_read, want_write, failed, send}

pub data Polled : Type 0 where
  poll_failed interrupted poll_ready : Polled

-- `write` to the child: a positive count, nothing for now, or an error.
pub data Wrote : Type 0 where
  wrote : ℕ → Wrote
  again broken : Wrote

-- What the system calls of one round answer. The flags are `revents`: of the connection, of the
-- child's input. For an output pipe there is none without POLLIN or POLLHUP, else what `read` stored,
-- empty where it is not positive.
pub record Answers : Type 0 where
  pub poll : Polled
  pub ssl_in : Bool
  pub ssl_out : Bool
  pub stdin_out : Bool
  pub write : Wrote
  pub stdout_in : Option Bytes
  pub stderr_in : Option Bytes
  pub waited : Option Status
  -- the blocking `waitpid` when nothing is left to poll
  pub awaited : Option Status

-- The variables of the loop. `child_input` is what the child was given, `accepted` what SSL_write
-- took.
pub record Loop (Session : Type 0) : Type 0 where
  pub reader : Reader
  pub session : Session
  pub accepted : Bytes
  pub out : OutBuf
  pub child_input : Bytes
  pub stdin_closed : Bool
  pub stdout_done : Bool
  pub stderr_done : Bool
  pub child_exited : Bool
  pub exit_code : ℤ

-- How a round ends: with the next one, behind the loop, or behind it with `ssl_error`.
pub data Next (Session : Type 0) : Type 0 where
  go_on leave ssl_failed : Loop Session → Next Session

-- `beyond n`: the `n` bytes that stand in memory behind what was stored in `sse_buf`.
module _ (ssl : Ssl) (beyond : ℕ → Bytes) (raw : Bool) where
  open ssl use {Session, ssl_write, ssl_pending}

  unfoldable pub start_loop : Bool → ℤ → Session → Loop Session
  unfolding new_reader
  start_loop chunked content_length s =
      let r = new_reader chunked content_length in
      record {
        reader = r;
        session = s;
        accepted = [];
        out = no_output;
        child_input = [];
        stdin_closed = r.body_eof;
        stdout_done = false;
        stderr_done = false;
        child_exited = false;
        exit_code = negsuc 0;
      }

  -- The condition of the loop but for `ssl_error`.
  unfoldable pub running : Loop Session → Bool
  running l =
      not l.child_exited
      || (not l.stdin_closed
          || (not l.stdout_done || (not l.stderr_done || ltb 0 (sse_buf_len l.out))))

  abbrev pub has_pending : Loop Session → Bool
  has_pending l = ltb 0 (ssl_pending l.session)

  -- Which descriptors are polled.
  unfoldable pub polls_ssl : Loop Session → Bool
  polls_ssl l =
      (not l.reader.body_eof && ltb (length l.reader.stdin_buf) stdin_buf_size)
      || (ltb 0 (sse_buf_len l.out)
          || (l.reader.want_read || (l.reader.want_write || has_pending l)))

  unfoldable pub polls_stdin : Loop Session → Bool
  polls_stdin l = not l.stdin_closed && ltb 0 (length l.reader.stdin_buf)

  unfoldable pub read_block : Answers → Loop Session → Loop Session
  unfolding polls_ssl
  read_block a l =
      let o = br_step ssl l.reader l.session in
      if polls_ssl l && (a.ssl_in || has_pending l)
      then record l { reader = o.0; session = o.1 }
      else l

  -- What is handed to SSL_write: `sse_buf_len` bytes.
  abbrev pub pending_output : OutBuf → Bytes
  pending_output o = o.bytes ++ beyond o.missing

  unfoldable pub after_write : Outcome ℕ → Session → Loop Session → Next Session
  after_write (done n) s l = go_on (record l {
    session = s;
    accepted = l.accepted ++ take n (pending_output l.out);
    out = record { bytes = drop n (pending_output l.out); missing = 0 };
    reader = record (l.reader) { want_write = false };
  })
  after_write want_write s l =
      go_on (record l { session = s; reader = record (l.reader) { want_write = true } })
  after_write want_read s l = ssl_failed (record l { session = s })
  after_write failed s l = ssl_failed (record l { session = s })

  -- The flag says whether the connection was polled.
  unfoldable pub write_block : Bool → Answers → Loop Session → Next Session
  unfolding after_write
  write_block polled a l =
      let o = ssl_write l.session (pending_output l.out) in
      if polled && (a.ssl_out && ltb 0 (sse_buf_len l.out)) then after_write o.0 o.1 l else go_on l

  unfoldable pub after_stdin : Wrote → Loop Session → Loop Session
  after_stdin (wrote n) l = record l {
    child_input = l.child_input ++ take n l.reader.stdin_buf;
    reader = record (l.reader) { stdin_buf = drop n l.reader.stdin_buf };
  }
  after_stdin again l = l
  after_stdin broken l = record l { stdin_closed = true }

  -- The flag says whether the child's input was polled.
  unfoldable pub stdin_block : Bool → Answers → Loop Session → Loop Session
  unfolding after_stdin polls_stdin
  stdin_block polled a l =
      if polls_stdin l && (polled && a.stdin_out) then after_stdin a.write l else l

  -- One output pipe: its flag, and what the round found on it.
  unfoldable pub output_block : Bool → Option Bytes → Loop Session → Loop Session
  output_block is_err none l = l
  output_block is_err (some []) l =
      if is_err then record l { stderr_done = true } else record l { stdout_done = true }
  output_block is_err (some (b ∷ bs)) l = record l { out = store_output raw is_err (b ∷ bs) l.out }

  unfoldable pub close_block : Loop Session → Loop Session
  close_block l =
      if l.reader.body_eof && (length l.reader.stdin_buf == 0 && not l.stdin_closed)
      then record l { stdin_closed = true }
      else l

  unfoldable pub wait_block : Option Status → Loop Session → Loop Session
  wait_block none l = l
  wait_block (some status) l =
      if l.child_exited then l else record l { child_exited = true; exit_code = exit_status status }

  -- From the write to the child on.
  unfoldable pub second_half : Bool → Answers → Loop Session → Loop Session
  unfolding stdin_block output_block close_block wait_block
  second_half stdin_polled a l =
      let fed = stdin_block stdin_polled a l in
      let out = if l.stdout_done then fed else output_block false a.stdout_in fed in
      let err = if l.stderr_done then out else output_block true a.stderr_in out in
      wait_block a.waited (close_block err)

  unfoldable pub after_poll : Answers → Loop Session → Next Session
  unfolding read_block write_block second_half
  after_poll a l = elim (write_block (polls_ssl l) a (read_block a l)) [
    | go_on t ↦ go_on (second_half (polls_stdin l) a t)
    | leave t ↦ leave t
    | ssl_failed t ↦ ssl_failed t
  ]

  -- One round.
  unfoldable pub round : Answers → Loop Session → Next Session
  unfolding after_poll
  round a l =
      if polls_ssl l || (polls_stdin l || (not l.stdout_done || not l.stderr_done))
      then elim a.poll as (λ _. Next Session) [
        | poll_failed ↦ leave l
        | interrupted ↦ go_on l
        | poll_ready ↦ after_poll a l
      ]
      else leave (wait_block a.awaited l)

  -- The loop: its state behind it and `ssl_error`; `none` if the rounds are used up.
  unfoldable pub pipe_loop : List Answers → Loop Session → Option (Loop Session × Bool)
  unfolding running round
  pipe_loop [] l = if running l then none else some (l, false)
  pipe_loop (a ∷ rest) l = elim (running l) [
    | false ↦ some (l, false)
    | true ↦ elim (round a l) [
      | go_on t ↦ pipe_loop rest t
      | leave t ↦ some (t, false)
      | ssl_failed t ↦ some (t, true)
    ]
  ]

  -- The exit code; a child that is still there is killed and has none.
  unfoldable pub final_code : Loop Session → ℤ
  final_code l = if l.child_exited then l.exit_code else negsuc 0

  -- The flush and the termination.
  unfoldable pub finish : Loop Session × Bool → Conn Session × ℤ
  unfolding final_code
  finish (l, ssl_error) =
      let at : Conn Session = record { session = l.session; sent = l.accepted ∷ [] } in
      let flushed = if ltb 0 (sse_buf_len l.out) then send ssl (pending_output l.out) at else at in
      let event = if raw then flushed else send_chunk ssl (exit_event (final_code l)) flushed in
      (if ssl_error then at else send_chunk_final ssl event, final_code l)

  -- `exec_run_pipe`: the pipes and the child could be made or not, then the loop and what follows.
  unfoldable pub exec_run_pipe :
      Bool → Bool → ℤ → List Answers → Session → Option (Conn Session × ℤ)
  unfolding start_loop pipe_loop finish
  exec_run_pipe started chunked content_length answers s =
      if started
      then elim (pipe_loop answers (start_loop chunked content_length s)) [
        | some o ↦ some (finish o)
        | none ↦ none
      ]
      else some (record { session = s; sent = [] }, negsuc 0)
