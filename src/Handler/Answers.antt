-- ===== src/Handler/Answers.antt =====
-- `send_http_response`, `send_json` and `send_error` of src/handler.c, and `handle_certinfo`'s and
-- `handle_update`'s hexadecimal digests.
use adb_termux_bridge.Base.{
  ℕ, ◌-◌, ◌≤◌, ◌≡◌, refl, sym, ap, ◌∙◌, ◌⊎◌, inl, inr, Bool, true, not, ◌&&◌, [], ◌∷◌, ◌++◌,
  append-nil, append_assoc, arith, ltb, ◌==◌, if◌then◌else◌, ltb-false→le, Bool-cases, length, take,
  pos, Bytes, codes, starts_with, print_base, long_max, Absent,
}
use adb_termux_bridge.Http.Headers.{
  content_length_name, number_line, get_content_length, get_content_length_lem,
}
use adb_termux_bridge.Json.{Cjson, text}
use adb_termux_bridge.Ssl.{Ssl, Conn, send, wire, wire-send}

-- `snprintf(buf, size, ...)`: what `buf` holds afterwards.
abbrev pub cut : ℕ → Bytes → Bytes
cut size s = take (size - 1) s

-- The text chosen in `send_json`.
unfoldable pub status_text : ℕ → Bytes
status_text status =
    if status == 200
    then codes "OK"
    else if status == 400
    then codes "Bad Request"
    else if status == 404
    then codes "Not Found"
    else codes "Internal Server Error"

abbrev pub status_line : ℕ → Bytes → Bytes
status_line status reason =
    codes "HTTP/1.1 " ++ (print_base 10 status ++ (codes " " ++ (reason ++ codes "\r\n")))

-- What stands in front of the Content-Length header.
abbrev pub opening : ℕ → Bytes → Bytes → Bytes
opening status reason content_type =
    status_line status reason ++ (codes "Content-Type: " ++ (content_type ++ codes "\r\n"))

-- The format string's text; it fits `buf[4096]` for every content type of the program.
unfoldable pub header_text : ℕ → Bytes → Bytes → ℕ → Bytes
header_text status reason content_type body_len =
    opening status reason content_type
    ++ (content_length_name
        ++ number_line 1 body_len
            (codes "Connection: close\r\n" ++ codes "Access-Control-Allow-Origin: *\r\n\r\n"))

empty_of_length : (s : Bytes) → length s ≤ 0 → s ≡ []
empty_of_length [] h = refl
empty_of_length (x ∷ s) h = absurd (omega arith)

module _ (ssl : Ssl) where
  open ssl use {Session}

  unfoldable pub send_http_response : ℕ → Bytes → Bytes → Bytes → Conn Session → Conn Session
  unfolding header_text
  send_http_response status reason content_type body c =
      let opened = send ssl (header_text status reason content_type (length body)) c in
      if ltb 0 (length body) then send ssl body opened else opened

  unfoldable pub send_json : ℕ → Bytes → Conn Session → Conn Session
  unfolding send_http_response status_text
  send_json status body c =
      send_http_response status (status_text status) (codes "application/json") body c

  module _ (json : Cjson) where
    open json use {print_object}

    unfoldable pub send_error : ℕ → Bytes → Conn Session → Conn Session
    unfolding send_json
    send_error status msg c = send_json status (print_object ((codes "error", text msg) ∷ [])) c

  pub wire-send_http_response :
      (status : ℕ) (reason content_type body : Bytes) (c : Conn Session)
      → wire (send_http_response status reason content_type body c)
        ≡ wire c ++ (header_text status reason content_type (length body) ++ body)
  unfolding send_http_response
  wire-send_http_response status reason content_type body c =
      let header = header_text status reason content_type (length body) in
      elim (Bool-cases (ltb 0 (length body))) [
        | inl some_body ↦ rw some_body (
            wire-send ssl body (send ssl header c)
            ∙ ap (λ t. t ++ body) (wire-send ssl header c)
            ∙ append_assoc (wire c) header body)
        | inr no_body ↦ rw no_body (
            wire-send ssl header c
            ∙ ap (λ t. wire c ++ t)
                (sym (append-nil header)
                  ∙ ap (λ t. header ++ t)
                      (sym (
                        empty_of_length body
                          (omega (arith, ltb-false→le 0 (length body) no_body))))))
      ]

-- The statuses that the program answers with.
abbrev pub IsStatus : ℕ → Type 0
IsStatus status =
    (status ≡ 200) ⊎ ((status ≡ 400) ⊎ ((status ≡ 404) ⊎ ((status ≡ 413) ⊎ (status ≡ 500))))

abbrev answer_end : Bytes
answer_end = codes "Connection: close\r\n" ++ codes "Access-Control-Allow-Origin: *\r\n\r\n"

-- `Absent` as a test.
abbrev pub is_absent : Bytes → Bytes → Bytes → Bool
is_absent needle [] rest = true
is_absent needle (c ∷ cs) rest =
    not (starts_with (c ∷ (cs ++ rest)) needle) && is_absent needle cs rest

pub is_absent-Absent :
    (needle front rest : Bytes) → is_absent needle front rest ≡ true → Absent needle front rest
is_absent-Absent needle [] rest h = tt
is_absent-Absent needle (c ∷ cs) rest h =
    (ground arith, is_absent-Absent needle cs rest (ground arith))

opening-is_absent :
    (status n : ℕ)
    → IsStatus status
    → is_absent content_length_name
        (opening status (status_text status) (codes "application/json"))
        (content_length_name ++ number_line 1 n answer_end)
      ≡ true
unfolding status_text print_base starts_with
opening-is_absent status n (inl e) = rw e refl
opening-is_absent status n (inr (inl e)) = rw e refl
opening-is_absent status n (inr (inr (inl e))) = rw e refl
opening-is_absent status n (inr (inr (inr (inl e)))) = rw e refl
opening-is_absent status n (inr (inr (inr (inr e)))) = rw e refl

module _ (ssl : Ssl) where
  open ssl use {Session}

  -- The Content-Length that `get_content_length` reads in an answer of `send_json` is the length of
  -- the body behind the header block, for each status that the program answers with.
  pub send_json-get_content_length :
      (status : ℕ) (body : Bytes) (c : Conn Session)
      → IsStatus status
      → length body ≤ long_max
      → (header : Bytes) × (wire (send_json ssl status body c) ≡ wire c ++ (header ++ body))
        × (get_content_length header ≡ pos (length body))
  unfolding send_json
  send_json-get_content_length status body c h small =
      let reason = status_text status in
      let json = codes "application/json" in
      (
        header_text status reason json (length body),
        wire-send_http_response ssl status reason json body c,
        unfold header_text in
            get_content_length_lem (opening status reason json) answer_end (length body) 1
              (is_absent-Absent content_length_name (opening status reason json) _
                (opening-is_absent status (length body) h))
              small,
      )
