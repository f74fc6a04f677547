-- ===== src/Handler/Pipe/Decoding.antt =====
-- The decoding of a command in the query of `handle_exec_pipe` of src/handler.c.
use adb_termux_bridge.Base.{
  ℕ, zero, suc, ◌+◌, ◌*◌, ◌≤◌, ◌<◌, ◌≡◌, refl, ap, ◌∙◌, ◌≢◌, Bool, false, some, List, [], ◌∷◌, ◌++◌,
  map, arith, lt→ltb, All, length, ℤ, Bytes, codes, starts_with, NoNul, c_str, c_str-NoNul,
  digit_value, read_digits, is_space, skip_isspace, clamp_long, skip_hex_prefix, strtol_signed,
  strtol, Without, cut_at-Without,
}
use adb_termux_bridge.Handler.Pipe.{
  no_params, segment, Params, call_pipe, pipe_call, call_pipe, read_params, hex_char, url_decode,
  pipe_headers, handle_exec_pipe,
}
use adb_termux_bridge.Json.{Cjson}
use adb_termux_bridge.Ssl.{Ssl, Conn, send}

-- A percent-encoded text, byte by byte: a byte that stands for itself, two hexadecimal digits, or
-- `+` for a space.
pub data Token : Type 0 where
  plain : ℕ → Token
  escape : ℕ → ℕ → Token
  plus : Token

abbrev pub token_text : Token → Bytes
token_text (plain c) = c ∷ []
token_text (escape x y) = b'%' ∷ x ∷ y ∷ []
token_text plus = b'+' ∷ []

abbrev pub token_byte : Token → ℕ
token_byte (plain c) = c
token_byte (escape x y) = digit_value x * 16 + digit_value y
token_byte plus = b' '

-- A byte that stands for itself is none of the three special ones; the digits are digits.
abbrev pub IsToken : Token → Type 0
IsToken (plain c) = (c ≢ b'%') × (c ≢ b'+') × (c ≢ b'&')
IsToken (escape x y) = (digit_value x < 16) × (digit_value y < 16)
IsToken plus = Unit

abbrev pub encoded : List Token → Bytes
encoded [] = []
encoded (t ∷ ts) = token_text t ++ encoded ts

digit_bounds : (x : ℕ) → digit_value x < 16 → (48 ≤ x) × (is_space x ≡ false)
unfolding digit_value is_space
digit_bounds x h = (ground arith, ground arith)

hex_char_lem :
    (x y : ℕ)
    → digit_value x < 16
    → digit_value y < 16
    → hex_char x y ≡ digit_value x * 16 + digit_value y
unfolding hex_char strtol skip_isspace strtol_signed skip_hex_prefix read_digits clamp_long c_str
hex_char_lem zero y hx hy = absurd (omega (arith, digit_bounds zero hx))
hex_char_lem (suc x) zero hx hy = absurd (omega (arith, digit_bounds zero hy))
hex_char_lem (suc x) (suc y) hx hy =
    ground (arith, digit_bounds (suc x) hx, digit_bounds (suc y) hy)

url_decode-plain :
    (room c : ℕ) (rest : Bytes)
    → c ≢ b'%'
    → c ≢ b'+'
    → url_decode (suc room) (c ∷ rest) ≡ c ∷ url_decode room rest
unfolding url_decode
url_decode-plain zero c [] h k = ground arith
url_decode-plain (suc room) c [] h k = ground arith
url_decode-plain room c (x ∷ []) h k = ground arith
url_decode-plain room c (x ∷ y ∷ rest) h k = ground arith

url_decode-plus :
    (room : ℕ) (rest : Bytes) → url_decode (suc room) (b'+' ∷ rest) ≡ b' ' ∷ url_decode room rest
unfolding url_decode
url_decode-plus zero [] = refl
url_decode-plus (suc room) [] = refl
url_decode-plus room (x ∷ []) = refl
url_decode-plus room (x ∷ y ∷ rest) = refl

-- Whatever way a text is encoded, decoding gives back its bytes, if they fit the buffer.
pub url_decode-encoded :
    (room : ℕ) (ts : List Token)
    → All IsToken ts
    → length ts ≤ room
    → url_decode room (encoded ts) ≡ map token_byte ts
unfolding url_decode
url_decode-encoded zero [] h le = refl
url_decode-encoded zero (t ∷ ts) h le = absurd (omega arith)
url_decode-encoded (suc room) [] h le = refl
url_decode-encoded (suc room) (plain c ∷ ts) h le =
    url_decode-plain room c (encoded ts) h.0.0 h.0.1
    ∙ ap (◌∷◌ c) (url_decode-encoded room ts h.1 (omega arith))
url_decode-encoded (suc room) (escape x y ∷ ts) h le =
    ap (λ k. k ∷ url_decode room (encoded ts)) (hex_char_lem x y h.0.0 h.0.1)
    ∙ ap (◌∷◌ (digit_value x * 16 + digit_value y)) (url_decode-encoded room ts h.1 (omega arith))
url_decode-encoded (suc room) (plus ∷ ts) h le =
    url_decode-plus room (encoded ts) ∙ ap (◌∷◌ b' ') (url_decode-encoded room ts h.1 (omega arith))

encoded-Without : (ts : List Token) → All IsToken ts → Without b'&' (encoded ts)
encoded-Without [] h = tt
encoded-Without (plain c ∷ ts) h = (ground arith, encoded-Without ts h.1)
encoded-Without (escape x y ∷ ts) h = (
  refl,
  (
    ground (arith, digit_bounds x h.0.0),
    (ground (arith, digit_bounds y h.0.1), encoded-Without ts h.1),
  ),
)
encoded-Without (plus ∷ ts) h = (refl, encoded-Without ts h.1)

encoded-length : (t : Token) (ts : List Token) → 0 < length (encoded (t ∷ ts))
encoded-length (plain c) ts = omega arith
encoded-length (escape x y) ts = omega arith
encoded-length plus ts = omega arith

segment-command :
    (s : Bytes)
    → 0 < length s
    → segment (codes "command=" ++ s) no_params ≡ record no_params { cmd = some s }
unfolding segment starts_with
segment-command s h = rw (lt→ltb 8 (length (codes "command=" ++ s)) (omega arith)) refl

read_params-last :
    (fuel c : ℕ) (cs : Bytes) (p : Params)
    → Without b'&' (c ∷ cs)
    → read_params (suc fuel) (c ∷ cs) p ≡ segment (c ∷ cs) p
unfolding read_params
read_params-last fuel c cs p h =
    let cut = cut_at-Without b'&' (c ∷ cs) h in rw (cut, read_params) (ap (λ r. segment r.0 p) cut)

read_params-command :
    (s : Bytes)
    → Without b'&' s
    → 0 < length s
    → (let q = codes "command=" ++ s in
        read_params (length q) q no_params ≡ record no_params { cmd = some s })
read_params-command s h some_text =
    read_params-last (length (codes "ommand=" ++ s)) b'c' (codes "ommand=" ++ s) no_params
      (refl, (refl, (refl, (refl, (refl, (refl, (refl, (refl, h))))))))
    ∙ segment-command s some_text

module _ (ssl : Ssl) (json : Cjson) where
  open ssl use {Session}

  -- A query that is `command=` and a percent-encoded command of one to 4095 bytes, none of them NUL,
  -- runs exactly that command, with no environment and in the event format, after the headers.
  pub handle_exec_pipe-command :
      (t : Token) (ts : List Token) (content_length : ℤ) (chunked : Bool) (c : Conn Session)
      → All IsToken (t ∷ ts)
      → NoNul (map token_byte (t ∷ ts))
      → length (t ∷ ts) ≤ 4095
      → handle_exec_pipe ssl json (codes "command=" ++ encoded (t ∷ ts)) content_length chunked c
        ≡ (
          send ssl (pipe_headers false) c,
          some (record {
            command = map token_byte (t ∷ ts);
            env = [];
            content_length = content_length;
            chunked = chunked;
            raw = false;
          }),
        )
  unfolding handle_exec_pipe call_pipe pipe_call
  handle_exec_pipe-command t ts content_length chunked c ok no_nul short =
      ap (λ p. call_pipe ssl json p content_length chunked c)
        (read_params-command (encoded (t ∷ ts)) (encoded-Without (t ∷ ts) ok) (encoded-length t ts))
      ∙ ap
          (λ cmd. (
            send ssl (pipe_headers false) c,
            some (record {
              command = cmd;
              env = [];
              content_length = content_length;
              chunked = chunked;
              raw = false;
            }),
          ))
          (ap c_str (url_decode-encoded 4095 (t ∷ ts) ok short)
            ∙ c_str-NoNul (map token_byte (t ∷ ts)) no_nul)
