-- ===== src/Executor/Output.antt =====
-- How `exec_run_pipe` of src/executor.c frames the child's output into `sse_buf`.
pub mod Laws
use adb_termux_bridge.Base.{
  ℕ, zero, suc, ◌+◌, ◌-◌, ◌*◌, ◌/◌, ◌%◌, ◌^◌, ◌≤◌, ◌<◌, min, ◌≡◌, refl, sym, ap, ◌∙◌, subst, ◌≢◌,
  ◌↔◌, ◌⊎◌, inl, inr, Bool, true, false, not, ◌&&◌, ◌||◌, Option, none, some, List, [], ◌∷◌, ◌++◌,
  map, append-nil, append_assoc, arith, ltb, leb, ◌==◌, if◌then◌else◌, ltb→lt, lt→ltb, not-lt→ltb,
  ltb-false→le, ==_iff, ==_refl, Bool-cases, Option-cases, All, length, take, drop, concat,
  length-append, length-take, length-drop, take-append-drop, take_all, concat-append, All-append,
  All-take, All-drop, ℤ, pos, negsuc, neg, is_pos, is_neg, pos_part, int_eq, int_eq→eq, int_eq_refl,
  Bytes, codes, bytes_eq, bytes_eq_iff, bytes_eq_refl, starts_with, starts_with-append, strstr,
  skip_spaces, NoNul, c_str, c_str-NoNul, digit_char, digit_value, digit_value-digit_char,
  print_base, read_digits, is_space, skip_isspace, long_max, clamp_long, skip_hex_prefix,
  strtol_signed, strtol, print_int, EndsNumber, minus, All-imp, print_base-Without,
  length-print_base, strtol-print_base, print_base-cons, Absent, strstr-append, Without, cut_at,
  cut_at-Without,
}
use adb_termux_bridge.Chunk.{crlf, size_line, stream_prefix}

abbrev pub sse_buf_size : ℕ
sse_buf_size = 131072

-- `sse_buf`: the bytes that were stored, and by how much `sse_buf_len` counts more than these.
pub record OutBuf : Type 0 where
  pub bytes : Bytes
  pub missing : ℕ

abbrev pub no_output : OutBuf
no_output = record { bytes = []; missing = 0 }

-- `sse_buf_len`
abbrev pub sse_buf_len : OutBuf → ℕ
sse_buf_len o = length o.bytes + o.missing

-- Raw mode: a chunk that does not fit is dropped, and so is all of standard error.
unfoldable pub raw_output : Bool → Bytes → OutBuf → OutBuf
raw_output is_err data' o =
    let hn = length (size_line (length data')) in
    if is_err
    then o
    else if leb (sse_buf_len o + hn + length data' + 2) sse_buf_size
    then record o { bytes = o.bytes ++ (size_line (length data') ++ (data' ++ crlf)) }
    else o

-- The text of the two calls of `snprintf` for one line.
unfoldable pub line_text : Bool → Bytes → Bytes
line_text is_err line =
    size_line (6 + (if is_err then 9 else 0) + length line + 2)
    ++ (codes "data: " ++ (stream_prefix is_err ++ (line ++ codes "\n\n\r\n")))

-- The first call has room enough; the second stores what fits, less its NUL, and both count the
-- whole text.
unfoldable pub put_line : Bool → Bytes → OutBuf → OutBuf
unfolding line_text
put_line is_err line o =
    let text = line_text is_err line in
    let room = sse_buf_size - sse_buf_len o - 1 in
    record { bytes = o.bytes ++ take room text; missing = o.missing + (length text - room) }

-- `if (*line)`
abbrev pub store_line : Bool → Bytes → OutBuf → OutBuf
store_line is_err [] o = o
store_line is_err (c ∷ cs) o = put_line is_err (c ∷ cs) o

-- The loop over the lines; a line that is empty is skipped, and when fewer than 512 bytes are left
-- the rest is dropped. Each round takes a line and its newline, so one more than the text's length is
-- fuel enough.
unfoldable pub sse_lines : ℕ → Bool → Bytes → OutBuf → OutBuf
unfolding put_line cut_at
sse_lines zero is_err text o = o
sse_lines (suc fuel) is_err text o = elim (ltb (sse_buf_len o) (sse_buf_size - 512)) [
  | false ↦ o
  | true ↦
      let line = (cut_at b'\n' text).0 in
      let stored = store_line is_err line o in
      elim (cut_at b'\n' text).1 [ none ↦ stored | some rest ↦ sse_lines fuel is_err rest stored ]
]

-- SSE mode: the text of a read ends at its first NUL.
unfoldable pub sse_output : Bool → Bytes → OutBuf → OutBuf
unfolding sse_lines
sse_output is_err data' o = let text = c_str data' in sse_lines (suc (length text)) is_err text o

-- What one positive `read` of a pipe does.
unfoldable pub store_output : Bool → Bool → Bytes → OutBuf → OutBuf
unfolding raw_output sse_output
store_output raw is_err data' o =
    if raw then raw_output is_err data' o else sse_output is_err data' o
