-- ===== src/Handler/Update.antt =====
-- `handle_update` of src/handler.c: the program's own binary is replaced by the request's body.
pub mod Safety
use adb_termux_bridge.Base.{
  ℕ, zero, suc, ◌+◌, ◌-◌, ◌*◌, ◌/◌, ◌%◌, ◌^◌, ◌≤◌, ◌<◌, min, ◌≡◌, refl, sym, ap, ◌∙◌, subst, ◌≢◌,
  ◌↔◌, ◌⊎◌, inl, inr, Bool, true, false, not, ◌&&◌, ◌||◌, Option, none, some, List, [], ◌∷◌, ◌++◌,
  map, append-nil, append_assoc, arith, ltb, leb, ◌==◌, if◌then◌else◌, ltb→lt, lt→ltb, not-lt→ltb,
  ltb-false→le, ==_iff, ==_refl, Bool-cases, Option-cases, All, length, take, drop, concat,
  length-append, length-take, length-drop, take-append-drop, take_all, concat-append, All-append,
  All-take, All-drop, ℤ, pos, negsuc, neg, is_pos, is_neg, pos_part, int_eq, int_eq→eq, int_eq_refl,
  Bytes, codes, bytes_eq, bytes_eq_iff, bytes_eq_refl, starts_with, starts_with-append, strstr,
  skip_spaces, NoNul, c_str, c_str-NoNul, digit_char, digit_value, digit_value-digit_char,
  print_base, read_digits, is_space, skip_isspace, long_max, clamp_long, skip_hex_prefix,
  strtol_signed, strtol, print_int, EndsNumber, minus, All-imp, print_base-Without,
  length-print_base, strtol-print_base, print_base-cons, Absent, strstr-append, Without,
}
use adb_termux_bridge.Handler.Answers.{cut, send_json, send_error}
use adb_termux_bridge.Handler.Upload.{chunk_size}
use adb_termux_bridge.Json.{Cjson, Field, text, number}
use adb_termux_bridge.Ssl.{
  Ssl, Conn, send, Outcome, Outcome-cases, Stopped, done, read_bytes_of_Stopped, Receives, stop,
  more,
}

-- The contents of files, by path.
abbrev pub Files : Type 0
Files = Bytes → Option Bytes

-- The files after the one under `path` got the content, or went away.
unfoldable pub put : Bytes → Option Bytes → Files → Files
put path content files at = if bytes_eq at path then content else files at

-- What the system calls answer, and EVP's SHA-256: `readlink("/proc/self/exe")`, `fopen(path, "wb")`
-- and `rename` with `strerror(errno)` where they fail, and the bytes that `fwrite` has room for.
pub record UpdateCalls : Type 0 where
  pub own_path : Option Bytes
  pub fopen_error : Bytes → Option Bytes
  pub disk_room : ℕ
  pub rename_error : Option Bytes
  pub sha256 : Bytes → Bytes

-- The part in front of the first `&`.
unfoldable pub before_amp : Bytes → Bytes
before_amp [] = []
before_amp (c ∷ cs) = let front = before_amp cs in if c == b'&' then [] else c ∷ front

-- What stands in `expected_sha[128]`.
unfoldable pub expected_sha : Bytes → Bytes
unfolding before_amp
expected_sha query =
    if starts_with query (codes "sha256=") then before_amp (take 127 (drop 7 query)) else []

-- `"%02x"` of each byte.
unfoldable pub hex_text : Bytes → Bytes
hex_text [] = []
hex_text (b ∷ bs) = digit_char (b / 16) ∷ digit_char (b % 16) ∷ hex_text bs

unfoldable pub to_lower : ℕ → ℕ
to_lower c = if leb b'A' c && leb c b'Z' then c + 32 else c

-- `strcasecmp(a, b) == 0`
unfoldable pub same_ignoring_case : Bytes → Bytes → Bool
unfolding to_lower
same_ignoring_case a b = bytes_eq (map to_lower a) (map to_lower b)

-- `snprintf(tmp_path, sizeof(tmp_path), "%s.tmp", binary_path)`
unfoldable pub tmp_path : Bytes → Bytes
tmp_path path = cut 4096 (path ++ codes ".tmp")

-- How `handle_update` ends: it returns 1 (true) or 0 (false), or runs the binary under a path in
-- place of the process.
pub data Ending : Type 0 where
  returned : Bool → Ending
  restarted : Bytes → Ending

pub record Updated (Session : Type 0) : Type 0 where
  pub conn : Conn Session
  pub files : Files
  pub ending : Ending

-- What the loop has hashed, which `written` counts, and what is in the file.
pub record Stored : Type 0 where
  pub hashed : Bytes
  pub file : Bytes

module _ (ssl : Ssl) where
  open ssl use {Session, ssl_read, read_bounds}

  -- The loop. A short `fwrite` breaks off before the bytes are hashed and counted.
  unfoldable pub update_loop : ℕ → ℕ → ℕ → Bytes → Session → Stored × Session
  update_loop zero room total bytes s = (record { hashed = bytes; file = bytes }, s)
  update_loop (suc fuel) room total bytes s = elim (ltb (length bytes) total) [
    | false ↦ (record { hashed = bytes; file = bytes }, s)
    | true ↦
        let to_read = min (total - length bytes) chunk_size in
        elim (ssl_read s to_read).0 [
          | done bs ↦ elim (leb (length bs) (room - length bytes)) [
            | true ↦ update_loop fuel room total (bytes ++ bs) (ssl_read s to_read).1
            | false ↦ (
              record { hashed = bytes; file = bytes ++ take (room - length bytes) bs },
              (ssl_read s to_read).1,
            )
          ]
          | _ ↦ (record { hashed = bytes; file = bytes }, (ssl_read s to_read).1)
        ]
  ]

  module _ (json : Cjson) where
    open json use {print_object}

    -- From `written != content_length` on.
    unfoldable pub check_and_install :
        UpdateCalls → Bytes → Bytes → ℕ → Stored → Conn Session → Files → Updated Session
    unfolding put hex_text same_ignoring_case tmp_path
    check_and_install calls path expected total o c files =
        let written = put (tmp_path path) (some o.file) files in
        let computed = hex_text (calls.sha256 o.hashed) in
        if not (length o.hashed == total)
        then record {
          conn =
              send_error ssl json 400
                (cut 128 (
                  codes "short read: got "
                  ++ (print_base 10 (length o.hashed)
                      ++ (codes " of " ++ (print_base 10 total ++ codes " bytes")))))
                c;
          files = put (tmp_path path) none written;
          ending = returned true;
        }
        else if not (same_ignoring_case computed expected)
        then record {
          conn =
              send_error ssl json 400
                (cut 256 (
                  codes "checksum mismatch: expected "
                  ++ (expected ++ (codes ", got " ++ computed))))
                c;
          files = put (tmp_path path) none written;
          ending = returned true;
        }
        else elim calls.rename_error [
          | some err ↦ record {
            conn =
                send_error ssl json 500
                  (cut 512
                    (codes "rename failed: " ++ (path ++ (codes " (" ++ (err ++ codes ")")))))
                  c;
            files = written;
            ending = returned true;
          }
          | none ↦ record {
            conn =
                send_json ssl 200
                  (print_object (
                    (codes "status", text (codes "ok"))
                    ∷ (codes "message", text (codes "restarting"))
                    ∷ (codes "sha256", text computed)
                    ∷ []))
                  c;
            files = put (tmp_path path) none (put path (some o.file) written);
            ending = restarted path;
          }
        ]

    -- From `fopen` on.
    unfoldable pub receive_update :
        UpdateCalls → Bytes → Bytes → ℕ → Conn Session → Files → Updated Session
    unfolding update_loop check_and_install
    receive_update calls path expected total c files = elim (calls.fopen_error (tmp_path path)) [
      | some err ↦ record {
        conn =
            send_error ssl json 500
              (cut 512 (
                codes "cannot open temp file: "
                ++ (tmp_path path ++ (codes " (" ++ (err ++ codes ")")))))
              c;
        files = files;
        ending = returned false;
      }
      | none ↦
          let o = update_loop total calls.disk_room total [] c.session in
          check_and_install calls path expected total o.0 (record c { session = o.1 }) files
    ]

    -- From `readlink` on; the second argument is what it answers.
    unfoldable pub locate :
        UpdateCalls → Option Bytes → Bytes → ℕ → Conn Session → Files → Updated Session
    unfolding receive_update
    locate calls none expected total c files = record {
      conn = send_error ssl json 500 (codes "cannot determine own binary path") c;
      files = files;
      ending = returned false;
    }
    locate calls (some path) expected total c files =
        receive_update calls path expected total c files

    unfoldable pub handle_update : UpdateCalls → Bytes → ℤ → Conn Session → Files → Updated Session
    unfolding expected_sha locate
    handle_update calls query content_length c files =
        let expected = expected_sha query in
        if not (length expected == 64)
        then record {
          conn =
              send_error ssl json 400
                (codes "missing or invalid sha256 query parameter (need 64 hex chars)") c;
          files = files;
          ending = returned false;
        }
        else if not (is_pos content_length)
        then record {
          conn = send_error ssl json 400 (codes "missing body (Content-Length required)") c;
          files = files;
          ending = returned true;
        }
        else locate calls calls.own_path expected (pos_part content_length) c files
