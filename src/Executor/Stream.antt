-- ===== src/Executor/Stream.antt =====
-- `exec_run_stream` of src/executor.c and `handle_exec_stream` of src/handler.c: the output of a
-- command is passed on while it runs.
pub mod Events
use adb_termux_bridge.Base.{
  ℕ, zero, suc, ◌+◌, ◌-◌, ◌*◌, ◌/◌, ◌%◌, ◌^◌, ◌≤◌, ◌<◌, min, ◌≡◌, refl, sym, ap, ◌∙◌, subst, ◌≢◌,
  ◌↔◌, ◌⊎◌, inl, inr, Bool, true, false, not, ◌&&◌, ◌||◌, Option, none, some, List, [], ◌∷◌, ◌++◌,
  map, append-nil, append_assoc, arith, ltb, leb, ◌==◌, if◌then◌else◌, ltb→lt, lt→ltb, not-lt→ltb,
  ltb-false→le, ==_iff, ==_refl, Bool-cases, Option-cases, All, length, take, drop, concat,
  length-append, length-take, length-drop, take-append-drop, take_all, concat-append, All-append,
  All-take, All-drop, ℤ, pos, negsuc, neg, is_pos, is_neg, pos_part, int_eq, int_eq→eq, int_eq_refl,
  Bytes, codes, bytes_eq, bytes_eq_iff, bytes_eq_refl, starts_with, starts_with-append, strstr,
  skip_spaces, NoNul, c_str, c_str-NoNul, digit_char, digit_value, digit_value-digit_char,
  print_base, read_digits, is_space, skip_isspace, long_max, clamp_long, skip_hex_prefix,
  strtol_signed, strtol, print_int, EndsNumber, minus, All-imp, print_base-Without,
  length-print_base, strtol-print_base, print_base-cons, Absent, strstr-append, Without,
}
use adb_termux_bridge.Chunk.{send_chunked_headers, send_chunk, send_chunk_final, stream_callback}
use adb_termux_bridge.Chunk.Laws.{chunk_text, wire-send_chunk, Framed, stream_callback_frames}
use adb_termux_bridge.Executor.Capture.{Status, exited, signalled}
use adb_termux_bridge.Ssl.{Ssl, Conn, send, wire, wire-send}

-- What `waitpid(pid, &wstatus, WNOHANG)` answers.
pub data Waited : Type 0 where
  still_running wait_failed : Waited
  reaped : Status → Waited

-- What one round meets: `poll` fails; or what `read` stored from standard output and from standard
-- error, empty where the pipe has no POLLIN or `read` is not positive, and what `waitpid` would
-- answer.
pub data Round : Type 0 where
  poll_failed : Round
  polled : Bytes → Bytes → Waited → Round

-- -1 for a status that is neither does not occur here.
unfoldable pub exit_status : Status → ℤ
exit_status (exited code) = pos code
exit_status (signalled sig) = neg sig

-- The result of the callback, and the state that it works on.
module _ {S : Type 0} (fn : Bytes → Bool → S → S × ℕ) where
  -- One of the two pipes: nothing is passed on for an empty read. The flag says whether the callback
  -- asked to stop.
  unfoldable pub pass_on : Bytes → Bool → S → S × Bool
  pass_on [] is_err st = (st, false)
  pass_on (b ∷ bs) is_err st = ((fn (b ∷ bs) is_err st).0, not ((fn (b ∷ bs) is_err st).1 == 0))

  unfoldable pub after_wait : Waited → Option ℤ
  unfolding exit_status
  after_wait still_running = none
  after_wait wait_failed = some (negsuc 0)
  after_wait (reaped status) = some (exit_status status)

  abbrev pub has_data : Bytes → Bytes → Bool
  has_data [] [] = false
  has_data _ _ = true

  -- The loop; `none` for the code while it is still running when the rounds are used up. A round
  -- that passed on data does not look at the child.
  unfoldable pub stream_rounds : List Round → S → S × Option ℤ
  unfolding pass_on after_wait
  stream_rounds [] st = (st, none)
  stream_rounds (poll_failed ∷ rounds) st = (st, some (negsuc 0))
  stream_rounds (polled out err waited ∷ rounds) st =
      let first = pass_on out false st in
      let second = pass_on err true first.0 in
      elim first.1 [
        | true ↦ (first.0, some (negsuc 0))
        | false ↦ elim second.1 [
          | true ↦ (second.0, some (negsuc 0))
          | false ↦ elim (has_data out err) [
            | true ↦ stream_rounds rounds second.0
            | false ↦ elim (after_wait waited) [
              | some code ↦ (second.0, some code)
              | none ↦ stream_rounds rounds second.0
            ]
          ]
        ]
      ]

  -- Whether the pipes and the child could be made, and the rounds.
  unfoldable pub exec_run_stream : Bool → List Round → S → S × Option ℤ
  unfolding stream_rounds
  exec_run_stream started rounds st =
      if started then stream_rounds rounds st else (st, some (negsuc 0))

-- `"data: {\"event\":\"exit\",\"exit_code\":%d}\n\n"`
unfoldable pub exit_event : ℤ → Bytes
exit_event code =
    codes "data: {\"event\":\"exit\",\"exit_code\":" ++ (print_int code ++ codes "}\n\n")

module _ (ssl : Ssl) where
  open ssl use {Session}

  unfoldable pub finish_stream : ℤ → Conn Session → Conn Session
  unfolding exit_event
  finish_stream code c = send_chunk_final ssl (send_chunk ssl (exit_event code) c)

  -- `handle_exec_stream` from `send_chunked_headers` on; the flag says whether it has returned.
  unfoldable pub stream_command : Bool → List Round → Conn Session → Conn Session × Bool
  unfolding exec_run_stream finish_stream
  stream_command started rounds c =
      let o = exec_run_stream (stream_callback ssl) started rounds (send_chunked_headers ssl c) in
      elim o.1 [ some code ↦ (finish_stream code o.0, true) | none ↦ (o.0, false) ]
