-- ===== src/Executor/Output/Laws.antt =====
-- The frames that `exec_run_pipe` of src/executor.c makes of the child's output.
use adb_termux_bridge.Base.{
  ℕ, zero, suc, ◌+◌, ◌-◌, ◌≤◌, ◌<◌, ◌≡◌, refl, sym, ap, ◌∙◌, subst, inl, inr, Bool, true, false,
  Option, none, some, List, [], ◌∷◌, ◌++◌, append-nil, append_assoc, arith, ◌==◌, if◌then◌else◌,
  lt→ltb, Bool-cases, Option-cases, length, take, length-append, length-take, take_all, Bytes,
  codes, NoNul, c_str-NoNul, Without, cut_at, cut_at-Without,
}
use adb_termux_bridge.Chunk.{crlf, size_line, stream_prefix}
use adb_termux_bridge.Chunk.Laws.{chunk_text}
use adb_termux_bridge.Executor.Output.{
  OutBuf, sse_buf_size, sse_buf_len, line_text, put_line, store_line, sse_lines, sse_output,
}

-- The lines of a text, the last one without a newline behind it.
abbrev add_front : ℕ → List Bytes → List Bytes
add_front c [] = (c ∷ []) ∷ []
add_front c (l ∷ ls) = (c ∷ l) ∷ ls

abbrev pub lines : Bytes → List Bytes
lines [] = [] ∷ []
lines (c ∷ cs) = if c == b'\n' then [] ∷ lines cs else add_front c (lines cs)

-- The event of one line.
abbrev pub line_event : Bool → Bytes → Bytes
line_event is_err line = codes "data: " ++ (stream_prefix is_err ++ (line ++ codes "\n\n"))

-- One chunk with one event for a line that is not empty.
abbrev pub line_chunk : Bool → Bytes → Bytes
line_chunk is_err [] = []
line_chunk is_err (c ∷ cs) = chunk_text (line_event is_err (c ∷ cs))

abbrev pub chunks : Bool → List Bytes → Bytes
chunks is_err [] = []
chunks is_err (l ∷ ls) = line_chunk is_err l ++ chunks is_err ls

abbrev from_cut : Bytes × Option Bytes → List Bytes
from_cut r = elim r.1 [ none ↦ r.0 ∷ [] | some rest ↦ r.0 ∷ lines rest ]

lines-cut_at : (s : Bytes) → lines s ≡ from_cut (cut_at b'\n' s)
unfolding cut_at
lines-cut_at [] = refl
lines-cut_at (c ∷ s) = elim (Bool-cases (c == b'\n')) [
  | inl e ↦ rw e refl
  | inr e ↦ rw (e, lines-cut_at s) (go (cut_at b'\n' s))
]
  where
    go : (r : Bytes × Option Bytes) → add_front c (from_cut r) ≡ from_cut (c ∷ r.0, r.1)
    go (front, none) = refl
    go (front, some rest) = refl

-- The size in front of a line is the length of its event.
length-line_event :
    (is_err : Bool) (line : Bytes)
    → length (line_event is_err line) ≡ 6 + (if is_err then 9 else 0) + length line + 2
unfolding stream_prefix
length-line_event true line = omega (arith, length-append line (codes "\n\n"))
length-line_event false line = omega (arith, length-append line (codes "\n\n"))

line_text-chunk_text :
    (is_err : Bool) (line : Bytes) → line_text is_err line ≡ chunk_text (line_event is_err line)
unfolding line_text stream_prefix
line_text-chunk_text true line =
    ap (λ n. size_line n ++ (codes "data: " ++ (stream_prefix true ++ (line ++ codes "\n\n\r\n"))))
      (sym (length-line_event true line))
    ∙ ap
        (λ t.
          size_line (length (line_event true line)) ++ (codes "data: " ++ (codes "[STDERR] " ++ t)))
        (sym (append_assoc line (codes "\n\n") crlf))
line_text-chunk_text false line =
    ap (λ n. size_line n ++ (codes "data: " ++ (stream_prefix false ++ (line ++ codes "\n\n\r\n"))))
      (sym (length-line_event false line))
    ∙ ap (λ t. size_line (length (line_event false line)) ++ (codes "data: " ++ t))
        (sym (append_assoc line (codes "\n\n") crlf))

cut_at-shorter : (s rest : Bytes) → (cut_at b'\n' s).1 ≡ some rest → length rest < length s
unfolding cut_at
cut_at-shorter [] rest h = cc
cut_at-shorter (c ∷ s) rest h = elim (Bool-cases (c == b'\n')) [
  | inl e ↦ let same : s ≡ rest = some_inj s rest (rw e at h) in rw⁻¹ same (omega arith)
  | inr e ↦ omega (arith, cut_at-shorter s rest (rw e at h))
]
  where
    some_inj : (a b : Bytes) → some a ≡ some b → a ≡ b
    some_inj a b h = cc

stored_lem :
    (is_err : Bool) (line : Bytes) (o : OutBuf)
    → o.missing ≡ 0
    → length o.bytes + length (line_chunk is_err line) < sse_buf_size
    → (let t = store_line is_err line o in
        (t.bytes ≡ o.bytes ++ line_chunk is_err line) × (t.missing ≡ 0))
unfolding put_line
stored_lem is_err [] o z h = (sym (append-nil o.bytes), z)
stored_lem is_err (c ∷ cs) o z h =
    let e = line_text-chunk_text is_err (c ∷ cs) in
    let len = ap length e in
    (
      ap (λ t. o.bytes ++ t)
          (take_all (sse_buf_size - sse_buf_len o - 1) (line_text is_err (c ∷ cs))
              (omega (arith, len))
            ∙ e),
      omega (arith, len),
    )

sse_lines_lem :
    (fuel : ℕ) (is_err : Bool) (text : Bytes) (o : OutBuf)
    → length text < fuel
    → o.missing ≡ 0
    → length o.bytes + length (chunks is_err (lines text)) < sse_buf_size - 512
    → (let t = sse_lines fuel is_err text o in
        (t.bytes ≡ o.bytes ++ chunks is_err (lines text)) × (t.missing ≡ 0))
unfolding sse_lines
sse_lines_lem zero is_err text o le z fits = absurd (omega arith)
sse_lines_lem (suc fuel) is_err text o le z fits =
    let line = (cut_at b'\n' text).0 in
    let go_on = lt→ltb (sse_buf_len o) (sse_buf_size - 512) (omega arith) in
    elim (Option-cases (cut_at b'\n' text).1) [
      | inl e ↦
          let split : lines text ≡ line ∷ [] = lines-cut_at text ∙ rw (e, from_cut) refl in
          let len = ap (λ ls. length (chunks is_err ls)) split in
          let here =
            stored_lem is_err line o z
              (omega (arith, len, length-append (line_chunk is_err line) [])) in
          rw (go_on, sse_lines)
            (rw (e, sse_lines)
              (
                here.0
                    ∙ ap (λ t. o.bytes ++ t)
                        (sym (append-nil (line_chunk is_err line))
                          ∙ ap (chunks is_err) (sym split)),
                here.1,
              ))
      | inr (rest, e) ↦
          let split : lines text ≡ line ∷ lines rest = lines-cut_at text ∙ rw (e, from_cut) refl in
          let len = ap (λ ls. length (chunks is_err ls)) split in
          let len' = length-append (line_chunk is_err line) (chunks is_err (lines rest)) in
          let here = stored_lem is_err line o z (omega (arith, len, len')) in
          let len'' = length-append o.bytes (line_chunk is_err line) in
          let later =
            sse_lines_lem fuel is_err rest (store_line is_err line o)
              (omega (arith, cut_at-shorter text rest e)) here.1
              (rw here.0 (omega (arith, len, len', len''))) in
          rw (go_on, sse_lines)
            (rw (e, sse_lines)
              (
                later.0
                    ∙ ap (λ t. t ++ chunks is_err (lines rest)) here.0
                    ∙ append_assoc o.bytes (line_chunk is_err line) (chunks is_err (lines rest))
                    ∙ ap (λ ls. o.bytes ++ chunks is_err ls) (sym split),
                later.1,
              ))
    ]

-- In SSE mode a read with no NUL whose events leave more than 512 bytes of the buffer free adds one
-- chunk for each line that is not empty, in order, and each chunk's size is right.
pub sse_output_lem :
    (is_err : Bool) (data' : Bytes) (o : OutBuf)
    → NoNul data'
    → o.missing ≡ 0
    → length o.bytes + length (chunks is_err (lines data')) < sse_buf_size - 512
    → (let t = sse_output is_err data' o in
        (t.bytes ≡ o.bytes ++ chunks is_err (lines data')) × (t.missing ≡ 0))
unfolding sse_output
sse_output_lem is_err data' o h z fits =
    rw (c_str-NoNul data' h)
      (sse_lines_lem (suc (length data')) is_err data' o (omega arith) z fits)

-- `sse_buf_len` counts the whole text of a line, stored or not.
sse_buf_len-put_line :
    (is_err : Bool) (line : Bytes) (o : OutBuf)
    → sse_buf_len (put_line is_err line o) ≡ sse_buf_len o + length (line_text is_err line)
unfolding put_line
sse_buf_len-put_line is_err line o =
    let room = sse_buf_size - sse_buf_len o - 1 in
    let text = line_text is_err line in
    omega (arith, length-append o.bytes (take room text), length-take room text)

length-line_text : (is_err : Bool) (line : Bytes) → length line < length (line_text is_err line)
unfolding line_text stream_prefix
length-line_text true line =
    let event = codes "data: " ++ (codes "[STDERR] " ++ (line ++ codes "\n\n\r\n")) in
    omega (
      arith,
      length-append (size_line (6 + 9 + length line + 2)) event,
      length-append line (codes "\n\n\r\n"),
    )
length-line_text false line =
    let event = codes "data: " ++ (line ++ codes "\n\n\r\n") in
    omega (
      arith,
      length-append (size_line (6 + 0 + length line + 2)) event,
      length-append line (codes "\n\n\r\n"),
    )

-- A line that is longer than what is left of the buffer makes `sse_buf_len` count bytes that were
-- never stored: it passes the buffer's size.
pub sse_output_overrun :
    (is_err : Bool) (c : ℕ) (line : Bytes) (o : OutBuf)
    → NoNul (c ∷ line)
    → Without b'\n' (c ∷ line)
    → sse_buf_len o < sse_buf_size - 512
    → sse_buf_size ≤ sse_buf_len o + length (c ∷ line)
    → sse_buf_size < sse_buf_len (sse_output is_err (c ∷ line) o)
unfolding sse_output sse_lines
sse_output_overrun is_err c line o no_nul no_newline some_room long =
    let go_on = lt→ltb (sse_buf_len o) (sse_buf_size - 512) some_room in
    let cut = cut_at-Without b'\n' (c ∷ line) no_newline in
    rw (c_str-NoNul (c ∷ line) no_nul) (
      rw (go_on, sse_lines)
        (rw (cut, sse_lines)
          (subst (λ r. sse_buf_size < sse_buf_len (store_line is_err r.0 o)) (sym cut)
            (omega (
              arith,
              sse_buf_len-put_line is_err (c ∷ line) o,
              length-line_text is_err (c ∷ line),
            )))))
