-- ===== src/Http/Body.antt =====
-- `read_body` of src/server.c.
use adb_termux_bridge.Base.{
  ℕ, zero, suc, ◌-◌, ◌≤◌, ◌≡◌, ◌⊎◌, true, false, Option, none, some, [], ◌++◌, ltb, leb,
  if◌then◌else◌, length, ℤ, is_pos, pos_part, Bytes,
}
use adb_termux_bridge.Ssl.{Ssl, Stopped, done, Receives}

-- `content_length` after the two tests at the top, for a positive one.
unfoldable pub body_limit : ℕ → ℕ → ℕ
body_limit cap n = if leb cap n then cap - 1 else n

module _ (ssl : Ssl) where
  open ssl use {Session, ssl_read, read_bounds}

  -- The loop. Each round that goes on stores a byte, so `limit` rounds are enough.
  unfoldable pub body_loop : ℕ → ℕ → Bytes → Session → Bytes × Session
  body_loop zero limit buf s = (buf, s)
  body_loop (suc fuel) limit buf s = elim (ltb (length buf) limit) [
    | false ↦ (buf, s)
    | true ↦ elim (ssl_read s (limit - length buf)).0 [
      | done bs ↦ body_loop fuel limit (buf ++ bs) (ssl_read s (limit - length buf)).1
      | _ ↦ (buf, (ssl_read s (limit - length buf)).1)
    ]
  ]

  -- What `buf` holds as a string of the length `*len`; `none` if the function leaves `buf` as it was.
  unfoldable pub read_body : ℕ → ℤ → Session → Option Bytes × Session
  read_body cap content_length s =
      if is_pos content_length
      then (let limit = body_limit cap (pos_part content_length) in
          let o = body_loop limit limit [] s in (some o.0, o.1))
      else (none, s)

  -- A read of the session that was not positive.
  pub record CutOff : Type 0 where
    pub at : Session
    pub asked : ℕ
    pub stopped : Stopped (ssl_read at asked).0

  -- What the loop adds to the buffer.
  record Reads (limit : ℕ) (buf : Bytes) (s : Session) (o : Bytes × Session) : Type 0 where
    added : Bytes
    joined : o.0 ≡ buf ++ added
    received : Receives ssl o.1 s added
    bounded : length o.0 ≤ limit
    full : (length o.0 ≡ limit) ⊎ CutOff

  -- With no length, or one that is not positive, the buffer is left as it was: not even a NUL is
  -- stored.
  pub read_body_untouched :
      (cap : ℕ) (content_length : ℤ) (s : Session)
      → is_pos content_length ≡ false
      → read_body cap content_length s ≡ (none, s)
  unfolding read_body
  read_body_untouched cap content_length s h = rw h
