-- ===== src/Handler/Pipe.antt =====
-- `handle_exec_pipe` of src/handler.c: the query's parameters, and the decoding of the command.
pub mod Decoding
use adb_termux_bridge.Base.{
  ℕ, zero, suc, ◌+◌, ◌-◌, ◌*◌, ◌/◌, ◌%◌, ◌^◌, ◌≤◌, ◌<◌, min, ◌≡◌, refl, sym, ap, ◌∙◌, subst, ◌≢◌,
  ◌↔◌, ◌⊎◌, inl, inr, Bool, true, false, not, ◌&&◌, ◌||◌, Option, none, some, List, [], ◌∷◌, ◌++◌,
  map, append-nil, append_assoc, arith, ltb, leb, ◌==◌, if◌then◌else◌, ltb→lt, lt→ltb, not-lt→ltb,
  ltb-false→le, ==_iff, ==_refl, Bool-cases, Option-cases, All, length, take, drop, concat,
  length-append, length-take, length-drop, take-append-drop, take_all, concat-append, All-append,
  All-take, All-drop, ℤ, pos, negsuc, neg, is_pos, is_neg, pos_part, int_eq, int_eq→eq, int_eq_refl,
  Bytes, codes, bytes_eq, bytes_eq_iff, bytes_eq_refl, starts_with, starts_with-append, strstr,
  skip_spaces, NoNul, c_str, c_str-NoNul, digit_char, digit_value, digit_value-digit_char,
  print_base, read_digits, is_space, skip_isspace, long_max, clamp_long, skip_hex_prefix,
  strtol_signed, strtol, print_int, EndsNumber, minus, All-imp, print_base-Without,
  length-print_base, strtol-print_base, print_base-cons, Absent, strstr-append, Without, cut_at,
  cut_at-Without,
}
use adb_termux_bridge.Handler.Answers.{send_error}
use adb_termux_bridge.Json.{Cjson}
use adb_termux_bridge.Ssl.{Ssl, Conn, send}

abbrev pub max_env : ℕ
max_env = 256

-- What the loop over the query collects. `cmd` is `none` for NULL.
pub record Params : Type 0 where
  pub cmd : Option Bytes
  pub raw : Bool
  pub env : List (Bytes × Bytes)

abbrev pub no_params : Params
no_params = record { cmd = none; raw = false; env = [] }

-- A segment `env_` with the text behind it.
unfoldable pub env_segment : Bytes → Params → Params
unfolding cut_at
env_segment text p =
    let key = (cut_at b'=' text).0 in
    elim (cut_at b'=' text).1 [
      | none ↦ p
      | some val ↦
          if ltb (length key) 256 && ltb (length val) 256
          then record p { env = p.env ++ ((key, val) ∷ []) }
          else p
    ]

-- One segment between two `&`, in the order of the tests.
unfoldable pub segment : Bytes → Params → Params
unfolding env_segment
segment seg p =
    if starts_with seg (codes "command=") && ltb 8 (length seg)
    then record p { cmd = some (drop 8 seg) }
    else if starts_with seg (codes "raw=1") && length seg == 5
    then record p { raw = true }
    else if starts_with seg (codes "env_") && ltb (length p.env) max_env
    then env_segment (drop 4 seg) p
    else p

-- The loop. Each round takes a byte at least, so the length of the query is fuel enough.
unfoldable pub read_params : ℕ → Bytes → Params → Params
unfolding cut_at segment
read_params zero q p = p
read_params (suc fuel) [] p = p
read_params (suc fuel) (c ∷ cs) p =
    let seg = (cut_at b'&' (c ∷ cs)).0 in
    elim (cut_at b'&' (c ∷ cs)).1 [
      | none ↦ segment seg p
      | some rest ↦ read_params fuel rest (segment seg p)
    ]

-- `(char)strtol(hex, NULL, 16)` of two bytes. The range of `char` wraps around.
unfoldable pub hex_char : ℕ → ℕ → ℕ
hex_char a b = elim (strtol 16 (c_str (a ∷ b ∷ []))) [ pos n ↦ n % 256 | negsuc n ↦ 255 - n % 256 ]

-- The decoding loop into `cmd_buf`; `room` is what is left of it, less the NUL.
unfoldable pub url_decode : ℕ → Bytes → Bytes
unfolding hex_char
url_decode zero s = []
url_decode (suc room) [] = []
url_decode (suc room) (c ∷ []) = (if c == b'+' then b' ' else c) ∷ []
url_decode (suc room) (c ∷ x ∷ []) = (if c == b'+' then b' ' else c) ∷ url_decode room (x ∷ [])
url_decode (suc room) (c ∷ x ∷ y ∷ cs) =
    let escaped = url_decode room cs in
    let plain = url_decode room (x ∷ y ∷ cs) in
    if c == b'%' then hex_char x y ∷ escaped else (if c == b'+' then b' ' else c) ∷ plain

-- `key=value`, built for `exec_run_pipe`.
abbrev pub env_entry : Bytes × Bytes → Bytes
env_entry (key, val) = key ++ (b'=' ∷ val)

unfoldable pub pipe_headers : Bool → Bytes
pipe_headers raw =
    codes "HTTP/1.1 200 OK\r\n"
    ++ ((if raw
          then codes "Content-Type: application/octet-stream\r\n"
          else codes "Content-Type: text/event-stream\r\n")
        ++ (codes "Transfer-Encoding: chunked\r\n"
            ++ (codes "Cache-Control: no-cache\r\n"
                ++ (codes "Connection: keep-alive\r\n" ++ codes "\r\n"))))

-- The arguments with which `exec_run_pipe` is called. The command is what a C string shows of it.
pub record PipeCall : Type 0 where
  pub command : Bytes
  pub env : List Bytes
  pub content_length : ℤ
  pub chunked : Bool
  pub raw : Bool

abbrev pub cmd_buf_size : ℕ
cmd_buf_size = 4096

unfoldable pub pipe_call : Bytes → ℤ → Bool → Params → PipeCall
unfolding url_decode
pipe_call cmd content_length chunked p = record {
  command = c_str (url_decode (cmd_buf_size - 1) cmd);
  env = map env_entry p.env;
  content_length = content_length;
  chunked = chunked;
  raw = p.raw;
}

module _ (ssl : Ssl) (json : Cjson) where
  open ssl use {Session}

  -- From the test of `cmd` on.
  unfoldable pub call_pipe : Params → ℤ → Bool → Conn Session → Conn Session × Option PipeCall
  unfolding pipe_call pipe_headers
  call_pipe p content_length chunked c = elim p.cmd [
    | none ↦ (send_error ssl json 400 (codes "missing 'command' query parameter") c, none)
    | some cmd ↦ (send ssl (pipe_headers p.raw) c, some (pipe_call cmd content_length chunked p))
  ]

  -- What is on the connection when `exec_run_pipe` is called, and the call; or the refusal.
  unfoldable pub handle_exec_pipe : Bytes → ℤ → Bool → Conn Session → Conn Session × Option PipeCall
  unfolding read_params call_pipe
  handle_exec_pipe query content_length chunked c =
      call_pipe (read_params (length query) query no_params) content_length chunked c
