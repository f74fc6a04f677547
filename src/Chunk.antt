-- ===== src/Chunk.antt =====
-- The chunked frames of src/handler.c: `send_chunked_headers`, `send_chunk`, `send_chunk_final` and
-- `stream_callback`.
pub mod Laws
use adb_termux_bridge.Base.{
  ℕ, zero, suc, ◌+◌, ◌-◌, ◌*◌, ◌/◌, ◌%◌, ◌^◌, ◌≤◌, ◌<◌, min, ◌≡◌, refl, sym, ap, ◌∙◌, subst, ◌≢◌,
  ◌↔◌, ◌⊎◌, inl, inr, Bool, true, false, not, ◌&&◌, ◌||◌, Option, none, some, List, [], ◌∷◌, ◌++◌,
  map, append-nil, append_assoc, arith, ltb, leb, ◌==◌, if◌then◌else◌, ltb→lt, lt→ltb, not-lt→ltb,
  ltb-false→le, ==_iff, ==_refl, Bool-cases, Option-cases, All, length, take, drop, concat,
  length-append, length-take, length-drop, take-append-drop, take_all, concat-append, All-append,
  All-take, All-drop, ℤ, pos, negsuc, neg, is_pos, is_neg, pos_part, int_eq, int_eq→eq, int_eq_refl,
  Bytes, codes, bytes_eq, bytes_eq_iff, bytes_eq_refl, starts_with, starts_with-append, strstr,
  skip_spaces, NoNul, c_str, c_str-NoNul, digit_char, digit_value, digit_value-digit_char,
  print_base, read_digits, is_space, skip_isspace, long_max, clamp_long, skip_hex_prefix,
  strtol_signed, strtol, print_int, EndsNumber, minus, length-print_base, strtol-print_base,
  print_base-cons, Absent, strstr-append, Without,
}
use adb_termux_bridge.Ssl.{Ssl, Conn, send}

abbrev pub crlf : Bytes
crlf = b'\r' ∷ b'\n' ∷ []

-- `"%zx\r\n"`: at most sixteen digits, so `hdr[32]` and `size_line[32]` never cut it.
abbrev pub size_line : ℕ → Bytes
size_line n = print_base 16 n ++ crlf

-- The prefix of a line that comes from the standard error stream.
unfoldable pub stream_prefix : Bool → Bytes
stream_prefix is_stderr = if is_stderr then codes "[STDERR] " else []

abbrev pub sse_buf_size : ℕ
sse_buf_size = 4096

-- `sizeof(buf) - sse_overhead`
unfoldable pub max_piece : Bool → ℕ
max_piece is_stderr = sse_buf_size - (6 + (if is_stderr then 9 else 0) + 2 + 1)

-- `"data: %s%.*s\n\n"`: the text of the piece ends at its first NUL.
unfoldable pub event_text : Bool → Bytes → Bytes
unfolding stream_prefix
event_text is_stderr piece =
    codes "data: " ++ (stream_prefix is_stderr ++ (c_str piece ++ codes "\n\n"))

module _ (ssl : Ssl) where
  open ssl use {Session}

  unfoldable pub send_chunked_headers : Conn Session → Conn Session
  send_chunked_headers = send ssl (
      codes "HTTP/1.1 200 OK\r\n"
      ++ codes "Content-Type: text/event-stream\r\n"
      ++ codes "Transfer-Encoding: chunked\r\n"
      ++ codes "Cache-Control: no-cache\r\n"
      ++ codes "Connection: keep-alive\r\n"
      ++ codes "\r\n")

  unfoldable pub send_chunk : Bytes → Conn Session → Conn Session
  send_chunk data' c =
      let opened = send ssl (size_line (length data')) c in
      let filled = if ltb 0 (length data') then send ssl data' opened else opened in
      send ssl crlf filled

  unfoldable pub send_chunk_final : Conn Session → Conn Session
  send_chunk_final = send ssl (b'0' ∷ (crlf ++ crlf))

  -- The loop of `stream_callback`; the list is `data + offset` up to `len`. `n >= sizeof(buf)`
  -- breaks off. Every round takes at least one byte, so the length is fuel enough.
  unfoldable pub stream_loop : ℕ → Bool → Bytes → Conn Session → Conn Session
  stream_loop zero is_stderr rest c = c
  stream_loop (suc fuel) is_stderr [] c = c
  stream_loop (suc fuel) is_stderr (b ∷ bs) c =
      let size = min (length (b ∷ bs)) (max_piece is_stderr) in
      let text = event_text is_stderr (take size (b ∷ bs)) in
      let framed = send ssl crlf (send ssl text (send ssl (size_line (length text)) c)) in
      elim (leb sse_buf_size (length text)) [
        | true ↦ c
        | false ↦ stream_loop fuel is_stderr (drop size (b ∷ bs)) framed
      ]

  -- The result is 0 on every path, which `exec_run_stream` takes for "go on".
  unfoldable pub stream_callback : Bytes → Bool → Conn Session → Conn Session × ℕ
  unfolding stream_loop
  stream_callback data' is_stderr c = (stream_loop (length data') is_stderr data' c, 0)
