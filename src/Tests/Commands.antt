-- ===== src/Tests/Commands.antt =====
-- Concrete runs of the loops of src/executor.c.
use adb_termux_bridge.Base.{
  ℕ, zero, suc, ◌<◌, ◌≡◌, refl, true, false, none, some, List, [], ◌∷◌, ◌++◌, arith, All, length,
  take, ℤ, pos, negsuc, strtol, skip_isspace, clamp_long, read_digits, skip_hex_prefix, digit_value,
  Bytes, codes, NoNul, print_base, minus, Without,
}
use adb_termux_bridge.Chunk.{stream_prefix, send_chunk, send_chunk_final}
use adb_termux_bridge.Executor.BodyReader.Core.{br_reads}
use adb_termux_bridge.Chunk.Laws.{last_chunk}
use adb_termux_bridge.Executor.Capture
use adb_termux_bridge.Executor.Capture.{
  ExecResult, exec_run, exec_run-Captured, max_output, exited, timeout, ready, first_of, second_of,
  all_read,
}
use adb_termux_bridge.Executor.Output.{
  no_output, sse_buf_size, sse_buf_len, sse_output, store_output,
}
use adb_termux_bridge.Executor.Output.Laws.{lines, chunks, sse_output_lem, sse_output_overrun}
use adb_termux_bridge.Executor.Pipe.{
  round, go_on, running, Answers, poll_ready, poll_failed, wrote, again, exec_run_pipe, pipe_loop,
  start_loop, Loop,
}
use adb_termux_bridge.Executor.BodyReader.{br_step, to_read, br_trailer, header_byte}
use adb_termux_bridge.Executor.Pipe.Delivery.{pipe_reads, pipe_loop-front}
use adb_termux_bridge.Executor.Pipe.RawFlow.{exec_run_pipe-raw}
use adb_termux_bridge.Executor.Pipe.RawRound.{chunk_texts}
use adb_termux_bridge.Executor.Stream.{exit_status}
use adb_termux_bridge.Executor.Stream.Events.{Events}
use adb_termux_bridge.Ssl.{Conn, scripted, send, wire}

-- The child prints, then ends with the code 3.
abbrev two_rounds : List Capture.Round
two_rounds =
    Capture.round (ready (codes "ab") (codes "e")) none
    ∷ Capture.round (ready (codes "c") []) (some (exited 3))
    ∷ []

abbrev two_result : ExecResult
two_result = record { stdout_data = codes "abc"; stderr_data = codes "e"; exit_code = pos 3 }

capture_run : exec_run true two_rounds ≡ some (some two_result)
unfolding exec_run
capture_run = refl

exec_run-Captured_example :
    (two_result.stdout_data ≡ take max_output (all_read first_of two_rounds))
    × (two_result.stderr_data ≡ take max_output (all_read second_of two_rounds))
exec_run-Captured_example = exec_run-Captured two_rounds two_result capture_run

abbrev idle : Conn Bytes
idle = record { session = []; sent = [] }

sse_output_lem_example :
    (let t = sse_output false (codes "a\n\nb") no_output in
      (t.bytes ≡ chunks false (lines (codes "a\n\nb"))) × (t.missing ≡ 0))
unfolding print_base stream_prefix
sse_output_lem_example =
    sse_output_lem false (codes "a\n\nb") no_output
      ((λ h. ground arith), ((λ h. ground arith), ((λ h. ground arith), ((λ h. ground arith), tt))))
      refl (omega arith)

-- A text of `x` only.
xs : ℕ → Bytes
xs zero = []
xs (suc n) = b'x' ∷ xs n

length-xs : (n : ℕ) → length (xs n) ≡ n
unfolding xs
length-xs zero = refl
length-xs (suc n) = omega (arith, length-xs n)

xs-NoNul : (n : ℕ) → NoNul (xs n)
unfolding xs
xs-NoNul zero = tt
xs-NoNul (suc n) = ((λ h. ground arith), xs-NoNul n)

xs-Without : (n : ℕ) → Without b'\n' (xs n)
unfolding xs
xs-Without zero = tt
xs-Without (suc n) = (refl, xs-Without n)

sse_output_overrun_example :
    sse_buf_size
    < sse_buf_len (sse_output true (b'x' ∷ xs 40000) (record { bytes = xs 100000; missing = 0 }))
sse_output_overrun_example =
    sse_output_overrun true b'x' (xs 40000) (record { bytes = xs 100000; missing = 0 })
      ((λ h. ground arith), xs-NoNul 40000) (refl, xs-Without 40000)
      (omega (arith, length-xs 100000)) (omega (arith, length-xs 40000, length-xs 100000))

-- The child prints two bytes, closes both pipes and ends.
abbrev quiet : Answers
quiet = record {
  poll = poll_ready;
  ssl_in = false;
  ssl_out = true;
  stdin_out = false;
  write = again;
  stdout_in = none;
  stderr_in = none;
  waited = none;
  awaited = none;
}

abbrev pipe_answers : List Answers
pipe_answers =
    record quiet { stdout_in = some (codes "hi") }
    ∷ record quiet { stdout_in = some []; stderr_in = some []; waited = some (exited 0) }
    ∷ []

abbrev behind : ℕ → Bytes
behind zero = []
behind (suc n) = 0 ∷ behind n

abbrev pipe_end : Loop Bytes
pipe_end = record (start_loop scripted behind true false (pos 0) []) {
  accepted = codes "2\r\nhi\r\n";
  stdout_done = true;
  stderr_done = true;
  child_exited = true;
  exit_code = pos 0;
}

pipe_run :
    pipe_loop scripted behind true pipe_answers (start_loop scripted behind true false (pos 0) [])
    ≡ some (pipe_end, false)
unfolding pipe_loop start_loop store_output print_base exit_status
pipe_run = refl

exec_run_pipe-raw_example :
    (conn : Conn Bytes) × (code : ℤ) × (pieces : List Bytes) × (exec_run_pipe scripted behind true
        true false
        (pos 0)
        pipe_answers
        []
      ≡ some (conn, code))
    × All (λ p. 0 < length p) pieces
    × (wire conn ≡ chunk_texts pieces ++ last_chunk)
exec_run_pipe-raw_example =
    exec_run_pipe-raw scripted behind false (pos 0) pipe_answers [] pipe_end refl pipe_run

-- A body of three bytes arrives.
abbrev arriving : Loop Bytes
arriving = start_loop scripted behind true false (pos 3) (codes "abc")

abbrev arrived : Loop Bytes
arrived = record arriving {
  reader = (br_step scripted arriving.reader arriving.session).0;
  session = [];
}

arrive_run : round scripted behind true (record quiet { ssl_in = true }) arriving ≡ go_on arrived
unfolding round start_loop br_step to_read minus
arrive_run = refl

-- The client sends "hi" in a chunk; the child is given its first byte, then poll fails.
abbrev sent_hi : Bytes
sent_hi = codes "2\r\nhi\r\n0\r\n\r\n"

abbrev hi_answers : List Answers
hi_answers =
    let read = record quiet { ssl_in = true } in
    read
    ∷ read
    ∷ read
    ∷ read
    ∷ record quiet { stdin_out = true; write = wrote 1 }
    ∷ record quiet { poll = poll_failed }
    ∷ []

abbrev hi_end : Loop Bytes
hi_end = record (start_loop scripted behind true true (negsuc 0) sent_hi) {
  reader = record {
    chunked = true;
    state = br_trailer;
    remaining = pos 0;
    hdr = [];
    stdin_buf = codes "i";
    body_eof = false;
    want_read = false;
    want_write = false;
  };
  session = codes "\r\n0\r\n\r\n";
  child_input = codes "h";
}

hi_run :
    pipe_loop scripted behind true hi_answers
      (start_loop scripted behind true true (negsuc 0) sent_hi)
    ≡ some (hi_end, false)
unfolding pipe_loop start_loop br_step to_read minus header_byte strtol skip_isspace clamp_long
    read_digits skip_hex_prefix digit_value
hi_run = refl

hi_wire :
    wire (
      send_chunk_final scripted
        (send_chunk scripted (codes "hi") (record { session = []; sent = [] })))
    ≡ pipe_reads scripted behind true hi_answers
        (start_loop scripted behind true true (negsuc 0) sent_hi)
      ++ codes "\r\n0\r\n\r\n"
unfolding pipe_reads br_reads round start_loop br_step to_read minus header_byte strtol skip_isspace
    clamp_long read_digits skip_hex_prefix digit_value send_chunk send_chunk_final running send
    print_base
hi_wire = refl

pipe_loop-front_example : (later : Bytes) × (codes "h" ++ later ≡ codes "hi")
pipe_loop-front_example =
    pipe_loop-front scripted behind true scripted [] (codes "hi" ∷ []) hi_answers (negsuc 0) sent_hi
      hi_end false (codes "\r\n0\r\n\r\n") ((omega arith, omega arith), tt) hi_run hi_wire
