-- ===== src/Ssl.antt =====
-- The calls of OpenSSL's SSL_* functions that the program makes on a connection, as an interface.
-- The session is OpenSSL's own state; what it does inside is not modelled.
use adb_termux_bridge.Base.{
  ◌⊎◌, inl, inr, ℕ, zero, suc, ◌≤◌, ◌<◌, ◌≡◌, refl, ap, ◌∙◌, ◌⊎◌, inl, inr, List, [], ◌∷◌, ◌++◌,
  append-nil, arith, length, take, drop, concat, length-take, concat-append, Bytes,
}

-- What SSL_read and SSL_write return: a positive count, or what SSL_get_error says of a count that
-- is not positive.
pub data Outcome {ℓ} (A : Type ℓ) : Type ℓ where
  done : A → Outcome A
  want_read want_write failed : Outcome A

pub record Ssl : Type 1 where
  pub Session : Type 0
  -- `SSL_read(ssl, buf, n)` with the bytes that it stores
  pub ssl_read : Session → ℕ → Outcome Bytes × Session
  -- `SSL_write(ssl, data, len)` with the count that it returns
  pub ssl_write : Session → Bytes → Outcome ℕ × Session
  pub ssl_pending : Session → ℕ
  -- documented: a read that succeeds returns at least one byte and at most as many as asked for
  pub read_bounds :
      (s : Session) (n : ℕ) (bs : Bytes)
      → (ssl_read s n).0 ≡ done bs
      → (0 < length bs) × (length bs ≤ n)

-- A call whose count is not positive.
abbrev pub Stopped {ℓ} : {A : Type ℓ} → Outcome A → Type 0
Stopped (done a) = ⊥
Stopped _ = Unit

pub Outcome-cases {ℓ} : {A : Type ℓ} (o : Outcome A) → ((a : A) × (o ≡ done a)) ⊎ Stopped o
Outcome-cases (done a) = inl (a, refl)
Outcome-cases want_read = inr tt
Outcome-cases want_write = inr tt
Outcome-cases failed = inr tt

-- The bytes of a read, empty where the count is not positive.
abbrev pub read_bytes : Outcome Bytes → Bytes
read_bytes (done bs) = bs
read_bytes _ = []

-- A connection: the session, and the buffers that the program has handed to SSL_write, in order.
pub record Conn (Session : Type 0) : Type 0 where
  pub session : Session
  pub sent : List Bytes

pub read_bytes_of_Stopped : (o : Outcome Bytes) → Stopped o → read_bytes o ≡ []
read_bytes_of_Stopped (done bs) h = absurd h
read_bytes_of_Stopped want_read h = refl
read_bytes_of_Stopped want_write h = refl
read_bytes_of_Stopped failed h = refl

read_bytes_le :
    (n : ℕ) (o : Outcome Bytes)
    → ((bs : Bytes) → o ≡ done bs → length bs ≤ n)
    → length (read_bytes o) ≤ n
read_bytes_le n (done bs) h = h bs refl
read_bytes_le n want_read h = omega arith
read_bytes_le n want_write h = omega arith
read_bytes_le n failed h = omega arith

-- All bytes handed to the connection so far.
abbrev pub wire : {Session : Type 0} → Conn Session → Bytes
wire c = concat c.sent

module _ (ssl : Ssl) where
  open ssl use {Session, ssl_read, ssl_write, read_bounds}

  -- `SSL_write` where the program does not look at the result.
  unfoldable pub send : Bytes → Conn Session → Conn Session
  send data' c = record { session = (ssl_write c.session data').1; sent = c.sent ++ (data' ∷ []) }

  pub wire-send : (d : Bytes) (c : Conn Session) → wire (send d c) ≡ wire c ++ d
  unfolding send
  wire-send d c = concat-append c.sent (d ∷ []) ∙ ap (λ t. concat c.sent ++ t) (append-nil d)

  pub read_bytes_bound : (s : Session) (n : ℕ) → length (read_bytes (ssl_read s n).0) ≤ n
  read_bytes_bound s n = read_bytes_le n (ssl_read s n).0 (λ bs h. (read_bounds s n bs h).1)

  -- The session hands out `bytes` to reads of one byte each.
  abbrev pub Delivers : Session → Bytes → Session → Type 0
  Delivers s [] last = s ≡ last
  Delivers s (b ∷ bytes) last =
      ((ssl_read s 1).0 ≡ done (b ∷ [])) × Delivers (ssl_read s 1).1 bytes last

  -- Some reads, of any sizes, take the session from `s` to `last`; `bytes` is what they return, in
  -- order. A read that is not positive returns nothing.
  pub data Receives (last : Session) : Session → Bytes → Type 0 where
    stop : {s : Session} {bytes : Bytes} → s ≡ last → bytes ≡ [] → Receives last s bytes
    more :
        {s : Session} {bytes : Bytes} (n : ℕ) (rest : Bytes)
        → Receives last (ssl_read s n).1 rest
        → bytes ≡ read_bytes (ssl_read s n).0 ++ rest
        → Receives last s bytes

-- A scripted client for tests: it sends `input`, a read takes what it can get, and a write takes all.
abbrev pub script_read : Bytes → ℕ → Outcome Bytes × Bytes
script_read [] n = (failed, [])
script_read (b ∷ bs) zero = (failed, b ∷ bs)
script_read (b ∷ bs) (suc n) = (done (take (suc n) (b ∷ bs)), drop (suc n) (b ∷ bs))

pub script_read_bounds :
    (s : Bytes) (n : ℕ) (bs : Bytes)
    → (script_read s n).0 ≡ done bs
    → (0 < length bs) × (length bs ≤ n)
script_read_bounds [] n bs h = cc
script_read_bounds (x ∷ s) zero bs h = cc
script_read_bounds (x ∷ s) (suc n) bs h = ground (arith, length-take n s)

abbrev pub scripted : Ssl
scripted = record {
  Session = Bytes;
  ssl_read = script_read;
  ssl_write = λ s bs. (done (length bs), s);
  ssl_pending = λ s. 0;
  read_bounds = script_read_bounds;
}
