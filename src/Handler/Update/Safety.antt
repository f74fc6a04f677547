-- ===== src/Handler/Update/Safety.antt =====
-- What `handle_update` of src/handler.c does to the files.
use adb_termux_bridge.Base.{ℕ, ◌<◌, ◌≡◌, ◌⊎◌, Bool, true, some, ◌++◌, length, Bytes}
use adb_termux_bridge.Handler.Update.{
  Files, UpdateCalls, expected_sha, hex_text, same_ignoring_case, returned, restarted, Updated,
  Stored,
}
use adb_termux_bridge.Ssl.{Ssl, Receives}

module _ (ssl : Ssl) where
  open ssl use {Session, ssl_read, read_bounds}

  -- What the loop leaves behind.
  record Streams (total : ℕ) (bytes : Bytes) (s : Session) (o : Stored × Session) : Type 0 where
    added : Bytes
    joined : o.0.hashed ≡ bytes ++ added
    whole : ((o.0.file ≡ o.0.hashed) × Receives ssl o.1 s added) ⊎ (length o.0.hashed < total)

  -- The binary was replaced by a body from the session of the announced length whose SHA-256 is the
  -- one asked for, and is run.
  pub record Replaced (calls : UpdateCalls) (path query : Bytes) (total : ℕ) (s : Session)
      (out : Updated Session) : Type 0 where
    pub body : Bytes
    pub installed : out.files path ≡ some body
    pub whole : length body ≡ total
    pub checked : same_ignoring_case (hex_text (calls.sha256 body)) (expected_sha query) ≡ true
    pub received : (last : Session) × Receives ssl last s body
    pub runs : out.ending ≡ restarted path

  -- The binary is what it was, and the handler returns.
  pub record Untouched (path : Bytes) (files : Files) (out : Updated Session) : Type 0 where
    pub same : out.files path ≡ files path
    pub returns : (consumed : Bool) × (out.ending ≡ returned consumed)
