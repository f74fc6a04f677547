-- ===== src/Handler/Upload.antt =====
-- `handle_upload` of src/handler.c, and the loop that it shares with `handle_update`.
pub mod Transfer
use adb_termux_bridge.Base.{
  ℕ, zero, suc, ◌+◌, ◌-◌, ◌≤◌, ◌<◌, min, ◌≡◌, refl, sym, ap, ◌∙◌, ◌⊎◌, inl, inr, true, false,
  Option, none, some, [], ◌∷◌, ◌++◌, append-nil, append_assoc, arith, ltb, leb, if◌then◌else◌,
  not-lt→ltb, ltb-false→le, Bool-cases, length, take, drop, length-append, length-take, length-drop,
  take-append-drop, ℤ, pos, negsuc, Bytes, codes, starts_with,
}
use adb_termux_bridge.Handler.Answers.{cut, send_json, send_error}
use adb_termux_bridge.Http.Body.{CutOff}
use adb_termux_bridge.Json.{Cjson, number}
use adb_termux_bridge.Ssl.{
  Ssl, Conn, Outcome, Outcome-cases, Stopped, done, read_bytes_of_Stopped, Receives, stop, more,
}

-- `(size_t)content_length`
unfoldable pub size_of_long : ℤ → ℕ
size_of_long (pos n) = n
size_of_long (negsuc n) = 18446744073709551615 - n

abbrev pub chunk_size : ℕ
chunk_size = 65536

-- The path of the query `path=...`, up to the query's end; `none` for no path or an empty one.
unfoldable pub query_path : Bytes → Option Bytes
query_path query =
    if starts_with query (codes "path=")
    then (elim (drop 5 query) as (λ _. Option Bytes) [ [] ↦ none | c ∷ cs ↦ some (c ∷ cs) ])
    else none

-- `fopen(path, "wb")` with `strerror(errno)` where it fails, and the number of bytes that `fwrite`
-- stores until it stores less than it is given.
pub record FileCalls : Type 0 where
  pub fopen_error : Bytes → Option Bytes
  pub disk_room : ℕ

module _ (ssl : Ssl) where
  open ssl use {Session, ssl_read, read_bounds}

  -- The loop; `file` is what has been written. Each round that goes on writes a byte or more, so
  -- `total` rounds are enough.
  unfoldable pub upload_loop : ℕ → ℕ → ℕ → Bytes → Session → Bytes × Session
  upload_loop zero room total file s = (file, s)
  upload_loop (suc fuel) room total file s = elim (ltb (length file) total) [
    | false ↦ (file, s)
    | true ↦
        let to_read = min (total - length file) chunk_size in
        elim (ssl_read s to_read).0 [
          | done bs ↦ elim (leb (length bs) (room - length file)) [
            | true ↦ upload_loop fuel room total (file ++ bs) (ssl_read s to_read).1
            | false ↦ (file ++ take (room - length file) bs, (ssl_read s to_read).1)
          ]
          | _ ↦ (file, (ssl_read s to_read).1)
        ]
  ]

  module _ (json : Cjson) where
    open json use {print_object}

    -- The answers, and the path and the content of the file if one was opened.
    unfoldable pub handle_upload :
        FileCalls → Bytes → ℤ → Conn Session → Conn Session × Option (Bytes × Bytes)
    unfolding query_path upload_loop size_of_long
    handle_upload calls query content_length c = elim (query_path query) [
      | none ↦ (send_error ssl json 400 (codes "missing 'path' query parameter") c, none)
      | some path ↦ elim (calls.fopen_error path) [
        | some err ↦
            let msg = codes "cannot open file: " ++ (path ++ (codes " (" ++ (err ++ codes ")"))) in
            (send_error ssl json 500 (cut 512 msg) c, none)
        | none ↦
            let total = size_of_long content_length in
            let o = upload_loop total calls.disk_room total [] c.session in
            let body = print_object ((codes "bytes_written", number (pos (length o.0))) ∷ []) in
            (send_json ssl 200 body (record c { session = o.1 }), some (path, o.0))
      ]
    ]
