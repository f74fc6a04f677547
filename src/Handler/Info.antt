-- ===== src/Handler/Info.antt =====
-- `handle_download`, `handle_health`, `handle_uptime` and `handle_certinfo` of src/handler.c.
use adb_termux_bridge.Base.{
  ℕ, ◌+◌, ◌-◌, ◌*◌, ◌/◌, ◌%◌, ◌≤◌, ◌<◌, ◌≡◌, refl, ap, ◌∙◌, Bool, true, not, Option, none, some, [],
  ◌∷◌, ◌++◌, append_assoc, arith, ltb, if◌then◌else◌, not-lt→ltb, length, take, length-take, ℤ, pos,
  negsuc, Bytes, codes, starts_with, print_base,
}
use adb_termux_bridge.Handler.Answers.{cut, send_json, send_error, is_absent, is_absent-Absent}
use adb_termux_bridge.Handler.Update.{hex_text}
use adb_termux_bridge.Handler.Upload.{query_path}
use adb_termux_bridge.Http.Headers.{
  content_length_name, number_line, get_content_length, get_content_length_lem,
}
use adb_termux_bridge.Json.{Cjson, text, number}
use adb_termux_bridge.Ssl.{Ssl, Conn, send, wire, wire-send}

-- What the calls on a file that could be opened answer: `ftell`, whether `malloc` succeeds, and the
-- file's content, of which `fread` stores a front.
pub record Opened : Type 0 where
  pub fsize : ℤ
  pub malloc : Bool
  pub content : Bytes

abbrev pub max_download : ℕ
max_download = 104857600

unfoldable pub download_header : ℕ → Bytes → Bytes
download_header nread path =
    codes "HTTP/1.1 200 OK\r\n"
    ++ (codes "Content-Type: application/octet-stream\r\n"
        ++ (content_length_name
            ++ number_line 1 nread (
                codes "Content-Disposition: attachment; filename=\""
                ++ (path ++ codes "\"\r\nConnection: close\r\n\r\n"))))

-- The numbers that `handle_uptime` prints.
pub record Uptime : Type 0 where
  pub days : ℕ
  pub hours : ℕ
  pub minutes : ℕ
  pub seconds : ℕ

unfoldable pub split_uptime : ℕ → Uptime
split_uptime uptime = record {
  days = uptime / 86400;
  hours = uptime % 86400 / 3600;
  minutes = uptime % 3600 / 60;
  seconds = uptime % 60;
}

unfoldable pub human : Uptime → Bytes
human t =
    let seconds = print_base 10 t.seconds ++ codes "s" in
    let minutes = print_base 10 t.minutes ++ (codes "m " ++ seconds) in
    let hours = print_base 10 t.hours ++ (codes "h " ++ minutes) in
    if ltb 0 t.days
    then print_base 10 t.days ++ (codes "d " ++ hours)
    else if ltb 0 t.hours
    then hours
    else if ltb 0 t.minutes
    then minutes
    else seconds

-- `time(NULL) - g_start_time`, and 0 where the clock went back.
unfoldable pub uptime_seconds : ℕ → ℕ → ℕ
uptime_seconds now started = if ltb now started then 0 else now - started

-- `fingerprint_from_x509` of a certificate's SHA-256: two digits a byte, colons between.
unfoldable pub colon_hex : Bytes → Bytes
unfolding hex_text
colon_hex [] = []
colon_hex (b ∷ []) = hex_text (b ∷ [])
colon_hex (b ∷ c ∷ bs) = hex_text (b ∷ []) ++ (b':' ∷ colon_hex (c ∷ bs))

unfoldable pub fingerprint : Bytes → Bytes
unfolding colon_hex
fingerprint md = codes "SHA256:" ++ colon_hex md

-- A certificate that was set: its text in PEM and its SHA-256, as OpenSSL computes them.
pub record Cert : Type 0 where
  pub pem : Bytes
  pub digest : Bytes

unfoldable pub pem_text : Option Cert → Bytes
pem_text none = []
pem_text (some cert) = cert.pem

unfoldable pub fingerprint_text : Option Cert → Bytes
unfolding fingerprint
fingerprint_text none = []
fingerprint_text (some cert) = fingerprint cert.digest

module _ (ssl : Ssl) (json : Cjson) where
  open ssl use {Session}
  open json use {print_object}

  -- From `fseek` on.
  unfoldable pub download_opened : Opened → Bytes → Conn Session → Conn Session
  unfolding download_header
  download_opened f path c = elim f.fsize [
    | negsuc _ ↦ send_error ssl json 500 (codes "cannot determine file size") c
    | pos size ↦
        if ltb max_download size
        then send_error ssl json 413 (codes "file too large") c
        else if not f.malloc
        then send_error ssl json 500 (codes "out of memory") c
        else (let data' = take size f.content in
            send ssl data' (send ssl (download_header (length data') path) c))
  ]

  -- `fopen` answers by path.
  unfoldable pub handle_download : (Bytes → Option Opened) → Bytes → Conn Session → Conn Session
  unfolding query_path download_opened
  handle_download fopen query c = elim (query_path query) [
    | none ↦ send_error ssl json 400 (codes "missing 'path' query parameter") c
    | some path ↦ elim (fopen path) [
      | none ↦ send_error ssl json 404 (cut 512 (codes "cannot open file: " ++ path)) c
      | some f ↦ download_opened f path c
    ]
  ]

  unfoldable pub handle_health : ℕ → ℕ → Conn Session → Conn Session
  unfolding uptime_seconds
  handle_health now started c =
      send_json ssl 200
        (print_object (
          (codes "status", text (codes "ok"))
          ∷ (codes "version", text (codes "0.1.0"))
          ∷ (codes "uptime_seconds", number (pos (uptime_seconds now started)))
          ∷ []))
        c

  unfoldable pub handle_uptime : ℕ → ℕ → Conn Session → Conn Session
  unfolding uptime_seconds human split_uptime
  handle_uptime now started c =
      let uptime = uptime_seconds now started in
      send_json ssl 200
        (print_object (
          (codes "uptime_seconds", number (pos uptime))
          ∷ (codes "uptime_human", text (human (split_uptime uptime)))
          ∷ []))
        c

  unfoldable pub handle_certinfo : Option Cert → Option Cert → Conn Session → Conn Session
  unfolding pem_text fingerprint_text
  handle_certinfo ca server c =
      send_json ssl 200
        (print_object (
          (codes "ca_pem", text (pem_text ca))
          ∷ (codes "server_pem", text (pem_text server))
          ∷ (codes "fingerprint", text (fingerprint_text server))
          ∷ []))
        c

-- The printed parts add up to the uptime, and each is below the next unit.
pub split_uptime_lem :
    (uptime : ℕ)
    → (let t = split_uptime uptime in
        (t.days * 86400 + t.hours * 3600 + t.minutes * 60 + t.seconds ≡ uptime)
        × (t.hours < 24)
        × (t.minutes < 60)
        × (t.seconds < 60))
unfolding split_uptime
split_uptime_lem uptime = (omega arith, omega arith, omega arith, omega arith)

length-colon_hex : (md : Bytes) → length (colon_hex md) ≤ 3 * length md
unfolding colon_hex hex_text
length-colon_hex [] = omega arith
length-colon_hex (b ∷ []) = omega arith
length-colon_hex (b ∷ c ∷ bs) = omega (arith, length-colon_hex (c ∷ bs))

-- The fingerprint's array, of three bytes for each byte of the digest and eight more, holds it and
-- its NUL.
pub length-fingerprint : (md : Bytes) → length (fingerprint md) + 1 ≤ length md * 3 + 8
unfolding fingerprint
length-fingerprint md = omega (arith, length-colon_hex md)

abbrev download_front : Bytes
download_front = codes "HTTP/1.1 200 OK\r\n" ++ codes "Content-Type: application/octet-stream\r\n"

abbrev download_end : Bytes → Bytes
download_end path =
    codes "Content-Disposition: attachment; filename=\""
    ++ (path ++ codes "\"\r\nConnection: close\r\n\r\n")

download_front-is_absent :
    (n : ℕ) (path : Bytes)
    → is_absent content_length_name download_front
        (content_length_name ++ number_line 1 n (download_end path))
      ≡ true
unfolding starts_with
download_front-is_absent n path = refl

module _ (ssl : Ssl) (json : Cjson) where
  open ssl use {Session}

  -- A file that can be opened, is not too large and fits into memory is sent whole behind a header
  -- block whose Content-Length is its size; of a file that grew meanwhile the size at first.
  pub handle_download-wire :
      (fopen : Bytes → Option Opened) (query path : Bytes) (f : Opened) (size : ℕ)
      (c : Conn Session)
      → query_path query ≡ some path
      → fopen path ≡ some f
      → f.fsize ≡ pos size
      → f.malloc ≡ true
      → size ≤ max_download
      → (header : Bytes) × (wire (handle_download ssl json fopen query c)
          ≡ wire c ++ (header ++ take size f.content))
        × (get_content_length header ≡ pos (length (take size f.content)))
  unfolding handle_download download_opened download_header
  handle_download-wire fopen query path f size c named opened sized allocated small =
      let data' = take size f.content in
      let header = download_header (length data') path in
      (
        header,
        rw (named, handle_download)
            (rw (opened, handle_download)
              (rw (sized, download_opened)
                (rw (not-lt→ltb max_download size small, allocated)
                  (wire-send ssl data' (send ssl header c)
                    ∙ ap (λ t. t ++ data') (wire-send ssl header c)
                    ∙ append_assoc (wire c) header data')))),
        get_content_length_lem download_front (download_end path) (length data') 1
            (is_absent-Absent content_length_name download_front _
              (download_front-is_absent _ path))
            (omega (arith, length-take size f.content)),
      )
