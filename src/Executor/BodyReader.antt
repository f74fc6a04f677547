-- ===== src/Executor/BodyReader.antt =====
-- The request body reader of `exec_run_pipe` in src/executor.c: the state machine that takes a body
-- of a given length, or a chunked one, from the TLS session into the child's input buffer.
pub mod Core
pub mod Feed
pub mod RoundTrip
use adb_termux_bridge.Base.{
  ℕ, zero, suc, ◌+◌, ◌-◌, ◌*◌, ◌/◌, ◌%◌, ◌^◌, ◌≤◌, ◌<◌, min, ◌≡◌, refl, sym, ap, ◌∙◌, subst, ◌≢◌,
  ◌↔◌, ◌⊎◌, inl, inr, Bool, true, false, not, ◌&&◌, ◌||◌, Option, none, some, List, [], ◌∷◌, ◌++◌,
  map, append-nil, append_assoc, arith, ltb, leb, ◌==◌, if◌then◌else◌, ltb→lt, lt→ltb, not-lt→ltb,
  ltb-false→le, ==_iff, ==_refl, Bool-cases, Option-cases, All, length, take, drop, concat,
  length-append, length-take, length-drop, take-append-drop, take_all, concat-append, All-append,
  All-take, All-drop, ℤ, pos, negsuc, neg, is_pos, is_neg, pos_part, int_eq, int_eq→eq, int_eq_refl,
  Bytes, codes, bytes_eq, bytes_eq_iff, bytes_eq_refl, starts_with, starts_with-append, strstr,
  skip_spaces, NoNul, c_str, c_str-NoNul, digit_char, digit_value, digit_value-digit_char,
  print_base, read_digits, is_space, skip_isspace, long_max, clamp_long, skip_hex_prefix,
  strtol_signed, strtol, print_int, EndsNumber, minus, length-print_base, strtol-print_base,
  print_base-cons, Absent, strstr-append, Without,
}
use adb_termux_bridge.Ssl.{Ssl, Outcome, done, want_read, want_write, failed}

pub data BrState : Type 0 where
  br_header br_data br_trailer br_final br_done : BrState

abbrev pub stdin_buf_size : ℕ
stdin_buf_size = 65536

abbrev pub hdr_size : ℕ
hdr_size = 32

-- The variables of the reader. `chunked` does not change.
pub record Reader : Type 0 where
  pub chunked : Bool
  pub state : BrState
  pub remaining : ℤ
  pub hdr : Bytes
  pub stdin_buf : Bytes
  pub body_eof : Bool
  pub want_read : Bool
  pub want_write : Bool

-- The initial values, from `chunked` and `content_length`. For a body that is not there
-- `br_remaining` is not set; no state reads it then.
unfoldable pub new_reader : Bool → ℤ → Reader
new_reader chunked content_length =
    let state = if chunked then br_header else if is_pos content_length then br_data else br_done in
    record {
      chunked = chunked;
      state = state;
      remaining = if chunked then negsuc 0 else content_length;
      hdr = [];
      stdin_buf = [];
      body_eof = not chunked && not (is_pos content_length);
      want_read = false;
      want_write = false;
    }

-- What follows a read that is not positive: the three branches on SSL_get_error.
unfoldable pub on_error : Outcome Bytes → Reader → Reader
on_error (done bs) r = r
on_error want_read r = record r { want_read = true }
on_error want_write r = record r { want_write = true }
on_error failed r = record r { body_eof = true; state = br_done }

-- BR_HEADER with the byte `c`.
unfoldable pub header_byte : ℕ → Reader → Reader
header_byte c r =
    if c == b'\n'
    then (let size = strtol 16 r.hdr in
        record r {
          remaining = size;
          hdr = [];
          state = if int_eq size (pos 0) then br_final else br_data;
        })
    else if ltb (length r.hdr) (hdr_size - 1)
    then record r { hdr = r.hdr ++ (c ∷ []) }
    else r

-- BR_TRAILER and BR_FINAL with the byte `c`.
unfoldable pub trailer_byte : ℕ → Reader → Reader
trailer_byte c r = if c == b'\n' then record r { state = br_header } else r

unfoldable pub final_byte : ℕ → Reader → Reader
final_byte c r = if c == b'\n' then record r { state = br_done; body_eof = true } else r

-- BR_DATA with the bytes of one read.
unfoldable pub data_bytes : Bytes → Reader → Reader
data_bytes bs r =
    let left = minus r.remaining (length bs) in
    let t = record r { stdin_buf = r.stdin_buf ++ bs; remaining = left } in
    if int_eq left (pos 0)
    then (if r.chunked
        then record t { state = br_trailer }
        else record t { state = br_done; body_eof = true })
    else t

-- The bytes that BR_DATA asks for: the smaller of `br_remaining` and the room in the buffer. A
-- negative size goes to SSL_read as it is, and fails there.
unfoldable pub to_read : Reader → Option ℕ
to_read r = elim r.remaining [
  | pos n ↦ some (min n (stdin_buf_size - length r.stdin_buf))
  | negsuc n ↦ none
]

-- A one-byte read, and what each state does with its byte.
unfoldable pub with_byte : (ℕ → Reader → Reader) → Outcome Bytes → Reader → Reader
unfolding on_error
with_byte f (done (c ∷ _)) r = f c r
with_byte f o r = on_error o r

unfoldable pub with_bytes : Outcome Bytes → Reader → Reader
unfolding on_error data_bytes
with_bytes (done bs) r = data_bytes bs r
with_bytes o r = on_error o r

module _ (ssl : Ssl) where
  open ssl use {Session, ssl_read}

  one_byte : (ℕ → Reader → Reader) → Reader → Session → Reader × Session
  unfolding with_byte
  one_byte f r s = (with_byte f (ssl_read s 1).0 r, (ssl_read s 1).1)

  data_step : Option ℕ → Reader → Session → Reader × Session
  unfolding with_bytes
  data_step none r s = (on_error failed r, s)
  data_step (some n) r s = (with_bytes (ssl_read s n).0 r, (ssl_read s n).1)

  dispatch : BrState → Reader → Session → Reader × Session
  unfolding one_byte data_step
  dispatch br_header r s = one_byte header_byte r s
  dispatch br_data r s =
      if ltb 0 (stdin_buf_size - length r.stdin_buf) then data_step (to_read r) r s else (r, s)
  dispatch br_trailer r s = one_byte trailer_byte r s
  dispatch br_final r s = one_byte final_byte r s
  dispatch br_done r s = (r, s)

  -- One pass of the block "SSL read" of the loop.
  unfoldable pub br_step : Reader → Session → Reader × Session
  unfolding dispatch
  br_step r s = dispatch r.state (record r { want_read = false }) s
