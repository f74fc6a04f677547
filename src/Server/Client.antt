-- ===== src/Server/Client.antt =====
-- `handle_client` of src/server.c, and the answers that server.c sends itself.
pub mod Laws
use adb_termux_bridge.Base.{
  ℕ, zero, suc, ◌+◌, ◌-◌, ◌*◌, ◌/◌, ◌%◌, ◌^◌, ◌≤◌, ◌<◌, min, ◌≡◌, refl, sym, ap, ◌∙◌, subst, ◌≢◌,
  ◌↔◌, ◌⊎◌, inl, inr, Bool, true, false, not, ◌&&◌, ◌||◌, Option, none, some, List, [], ◌∷◌, ◌++◌,
  map, append-nil, append_assoc, arith, ltb, leb, ◌==◌, if◌then◌else◌, ltb→lt, lt→ltb, not-lt→ltb,
  ltb-false→le, ==_iff, ==_refl, Bool-cases, Option-cases, All, length, take, drop, concat,
  length-append, length-take, length-drop, take-append-drop, take_all, concat-append, All-append,
  All-take, All-drop, ℤ, pos, negsuc, neg, is_pos, is_neg, pos_part, int_eq, int_eq→eq, int_eq_refl,
  Bytes, codes, bytes_eq, bytes_eq_iff, bytes_eq_refl, starts_with, starts_with-append, strstr,
  skip_spaces, NoNul, c_str, c_str-NoNul, digit_char, digit_value, digit_value-digit_char,
  print_base, read_digits, is_space, skip_isspace, long_max, clamp_long, skip_hex_prefix,
  strtol_signed, strtol, print_int, EndsNumber, minus, All-imp, print_base-Without,
  length-print_base, strtol-print_base, print_base-cons, Absent, strstr-append, Without, cut_at,
  cut_at-Without,
}
use adb_termux_bridge.Handler.Answers.{cut, status_text, opening}
use adb_termux_bridge.Http.Body.{read_body}
use adb_termux_bridge.Http.Headers.{
  get_content_length, is_chunked, content_length_name, number_line,
}
use adb_termux_bridge.Http.Reading.{read_until_crnlcrnl}
use adb_termux_bridge.Http.RequestLine.{Layout, RequestLine, parse_request_line}
use adb_termux_bridge.Ssl.{Ssl, Conn, send}

-- `REQUEST_BUF`
abbrev pub request_buf : ℕ
request_buf = 65536

unfoldable pub server_header : ℕ → Bytes → ℕ → Bytes
server_header status content_type body_len =
    opening status (status_text status) content_type
    ++ (content_length_name ++ number_line 1 body_len (codes "Connection: close\r\n\r\n"))

-- What the end of a connection is made of, in the order of the calls.
pub data Cleanup : Type 0 where
  ssl_shutdown ssl_free close_fd free_job : Cleanup

-- A connection that was ended, with the cleanup that was done.
pub record Ended (Session : Type 0) : Type 0 where
  pub conn : Conn Session
  pub cleanup : List Cleanup

-- How `handle_client` ends: the connection is over; or `handle_update` has replaced the process; or
-- a command that a handler runs has not ended within the rounds given.
pub data Fate (Session : Type 0) : Type 0 where
  over : Ended Session → Fate Session
  replaced unfinished : Fate Session

-- The last three calls on every path.
abbrev pub released : List Cleanup
released = ssl_free ∷ close_fd ∷ free_job ∷ []

-- The parts of handler.c that `handle_client` calls, on the state `World` of the program.
-- `handle_update` answers `none` if it replaced the process, `handle_request` whether it handled the
-- request. The two that run commands answer `none` where the command has not ended. A body is `none`
-- where the array was never written.
pub record Handlers (Session World : Type 0) : Type 0 where
  pub handle_upload : Bytes → ℤ → World → Conn Session → World × Conn Session
  pub handle_update : Bytes → ℤ → World → Conn Session → World × Conn Session × Option Bool
  pub handle_exec_pipe : Bytes → ℤ → Bool → World → Conn Session → World × Option (Conn Session)
  pub handle_request :
      Bytes
      → Bytes
      → Bytes
      → Option Bytes
      → World
      → Conn Session
      → World × Option (Conn Session × Bool)

-- The tests on the method and the path: which of the four ways a request goes.
pub data Way : Type 0 where
  to_upload to_update to_exec_pipe to_request : Way

unfoldable pub way : Bytes → Bytes → Way
way method path =
    if bytes_eq path (codes "/api/upload") && bytes_eq method (codes "POST")
    then to_upload
    else if bytes_eq path (codes "/api/update") && bytes_eq method (codes "POST")
    then to_update
    else if bytes_eq path (codes "/api/exec/pipe") && bytes_eq method (codes "POST")
    then to_exec_pipe
    else to_request

unfoldable pub expects_continue : Bytes → Bytes → Bool
expects_continue method headers =
    bytes_eq method (codes "POST") && (elim (strstr headers (codes "Expect: 100-continue")) [
      | some _ ↦ true
      | none ↦ elim (strstr headers (codes "expect: 100-continue")) [ some _ ↦ true | none ↦ false ]
    ])

module _ (ssl : Ssl) (World : Type 0) (handlers : Handlers ssl.Session World)
    (layout : Layout) where
  open ssl use {Session}

  unfoldable pub send_json_response : ℕ → Bytes → Conn Session → Conn Session
  unfolding server_header
  send_json_response status body c =
      let opened = send ssl (server_header status (codes "application/json") (length body)) c in
      if ltb 0 (length body) then send ssl body opened else opened

  unfoldable pub send_error_json : ℕ → Bytes → Conn Session → Conn Session
  unfolding send_json_response
  send_error_json status msg c =
      send_json_response status (cut 1024 (codes "{\"error\":\"" ++ (msg ++ codes "\"}"))) c

  unfoldable pub ended : Conn Session → Ended Session
  ended c = record { conn = c; cleanup = released }

  unfoldable pub shut_down : Conn Session → Ended Session
  shut_down c = record { conn = c; cleanup = ssl_shutdown ∷ released }

  -- What follows `handle_request`.
  unfoldable pub answered : Option (Conn Session × Bool) → Fate Session
  unfolding send_error_json shut_down
  answered none = unfinished
  answered (some (c, true)) = over (shut_down c)
  answered (some (c, false)) = over (shut_down (send_error_json 404 (codes "not found") c))

  -- The last way: the body is read, and `handle_request` is asked.
  unfoldable pub other_request : RequestLine → ℤ → World → Conn Session → World × Fate Session
  unfolding answered
  other_request line content_length w c =
      let o = read_body ssl request_buf content_length c.session in
      let r =
        handlers.handle_request line.method line.path line.query o.0 w
          (record c { session = o.1 }) in
      (r.0, answered r.1)

  unfoldable pub dispatch :
      Way → RequestLine → ℤ → Bytes → World → Conn Session → World × Fate Session
  unfolding other_request ended shut_down
  dispatch to_upload line content_length headers w c =
      let r = handlers.handle_upload line.query content_length w c in (r.0, over (shut_down r.1))
  dispatch to_update line content_length headers w c =
      let r = handlers.handle_update line.query content_length w c in
      elim r.2 [
        | none ↦ (r.0, replaced)
        | some true ↦ (r.0, over (shut_down r.1))
        | some false ↦ (r.0, over (ended r.1))
      ]
  dispatch to_exec_pipe line content_length headers w c =
      let r = handlers.handle_exec_pipe line.query content_length (is_chunked headers) w c in
      elim r.1 [ some done ↦ (r.0, over (shut_down done)) | none ↦ (r.0, unfinished) ]
  dispatch to_request line content_length headers w c = other_request line content_length w c

  -- From `get_content_length` on.
  unfoldable pub serve : RequestLine → Bytes → World → Conn Session → World × Fate Session
  unfolding dispatch way expects_continue
  serve line headers w c =
      let told =
        if expects_continue line.method headers
        then send ssl (codes "HTTP/1.1 100 Continue\r\n\r\n") c
        else c in
      dispatch (way line.method line.path) line (get_content_length headers) headers w told

  -- Whether the handshake and the verification of the client's certificate succeed, then the rest.
  unfoldable pub handle_client : Bool → Bool → World → Conn Session → World × Fate Session
  unfolding serve send_error_json ended
  handle_client shaken verified w c =
      if not shaken
      then (w, over (ended c))
      else if not verified
      then (
        w,
        over (ended (send_error_json 403 (codes "client certificate verification failed") c)),
      )
      else (let o = read_until_crnlcrnl ssl request_buf c.session in
          let read : Conn Session = record c { session = o.1 } in
          elim o.0 [
            | none ↦ (w, over (ended read))
            | some headers ↦ elim (parse_request_line layout headers) [
              | none ↦ (w, over (ended (send_error_json 400 (codes "invalid request line") read)))
              | some line ↦ serve line headers w read
            ]
          ])
