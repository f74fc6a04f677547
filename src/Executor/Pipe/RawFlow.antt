-- ===== src/Executor/Pipe/RawFlow.antt =====
-- What a client of `exec_run_pipe` in src/executor.c receives in raw mode.
use adb_termux_bridge.Base.{
  ℕ, ◌≤◌, ◌<◌, ◌≡◌, refl, sym, ap, ◌∙◌, subst, inl, inr, Bool, true, false, Option, none, some,
  List, [], ◌∷◌, ◌++◌, append-nil, arith, ltb, if◌then◌else◌, ltb-false→le, Bool-cases, All, length,
  ℤ, Bytes,
}
use adb_termux_bridge.Chunk.Laws.{last_chunk, wire-send_chunk_final}
use adb_termux_bridge.Executor.Output.{sse_buf_len}
use adb_termux_bridge.Executor.Pipe.{
  Answers, Loop, Next, go_on, leave, ssl_failed, start_loop, running, pending_output, round,
  pipe_loop, finish, exec_run_pipe,
}
use adb_termux_bridge.Ssl.{Ssl, Conn, send, wire, wire-send}
use adb_termux_bridge.Executor.Pipe.RawRound.{IsChunked, chunk_texts, Good, GoodNext, round-Good}

module _ (ssl : Ssl) (beyond : ℕ → Bytes) where
  open ssl use {Session, ssl_write}

  abbrev GoodEnd : Option (Loop Session × Bool) → Type 0
  GoodEnd none = Unit
  GoodEnd (some (t, false)) = Good ssl beyond t
  GoodEnd (some (t, true)) = Unit

  pipe_loop-Good :
      (answers : List Answers) (l : Loop Session)
      → beyond 0 ≡ []
      → Good ssl beyond l
      → GoodEnd (pipe_loop ssl beyond true answers l)
  unfolding pipe_loop
  pipe_loop-Good [] l none_behind k = go (running ssl beyond true l)
    where
      go : (b : Bool) → GoodEnd (if b then none else some (l, false))
      go true = tt
      go false = k
  pipe_loop-Good (a ∷ rest) l none_behind k =
      go (λ t h. pipe_loop-Good rest t none_behind h) (running ssl beyond true l)
    where
      next :
          ((t : Loop Session) → Good ssl beyond t → GoodEnd (pipe_loop ssl beyond true rest t))
          → (r : Next Session) → GoodNext ssl beyond r
          → GoodEnd (elim r as (λ _. Option (Loop Session × Bool)) [
            | go_on t ↦ pipe_loop ssl beyond true rest t
            | leave t ↦ some (t, false)
            | ssl_failed t ↦ some (t, true)
          ])
      next later (go_on t) h = later t h
      next later (leave t) h = h
      next later (ssl_failed t) h = tt

      go :
          ((t : Loop Session) → Good ssl beyond t → GoodEnd (pipe_loop ssl beyond true rest t))
          → (b : Bool)
          → GoodEnd (elim b as (λ _. Option (Loop Session × Bool)) [
            | false ↦ some (l, false)
            | true ↦ elim (round ssl beyond true a l) as (λ _. Option (Loop Session × Bool)) [
              | go_on t ↦ pipe_loop ssl beyond true rest t
              | leave t ↦ some (t, false)
              | ssl_failed t ↦ some (t, true)
            ]
          ])
      go later false = k
      go later true =
          next later (round ssl beyond true a l) (round-Good ssl beyond a l none_behind k)

  start_loop-Good :
      (chunked : Bool) (content_length : ℤ) (s : Session)
      → Good ssl beyond (start_loop ssl beyond true chunked content_length s)
  unfolding start_loop Good
  start_loop-Good chunked content_length s = record {
    pieces = [];
    filled = tt;
    joined = refl;
    counted = refl;
  }

  -- What `finish` puts on the wire in raw mode: all output, and the last chunk.
  wire-finish :
      (l : Loop Session)
      → beyond 0 ≡ []
      → Good ssl beyond l
      → wire (finish ssl beyond true (l, false)).0 ≡ (l.accepted ++ l.out.bytes) ++ last_chunk
  unfolding finish Good
  wire-finish l none_behind k =
      let at : Conn Session = record { session = l.session; sent = l.accepted ∷ [] } in
      let all : pending_output ssl beyond true l.out ≡ l.out.bytes =
        rw (k.counted, none_behind) (append-nil l.out.bytes) in
      let first : wire at ≡ l.accepted = append-nil l.accepted in
      elim (Bool-cases (ltb 0 (sse_buf_len l.out))) [
        | inl e ↦ rw e (
            wire-send_chunk_final ssl (send ssl (pending_output ssl beyond true l.out) at)
            ∙ ap (λ t. t ++ last_chunk)
                (wire-send ssl (pending_output ssl beyond true l.out) at
                  ∙ ap (λ t. t ++ pending_output ssl beyond true l.out) first
                  ∙ ap (λ t. l.accepted ++ t) all))
        | inr e ↦ rw e (
            wire-send_chunk_final ssl at
            ∙ ap (λ t. t ++ last_chunk)
                (first
                  ∙ sym (append-nil l.accepted)
                  ∙ ap (λ t. l.accepted ++ t)
                      (sym (
                        no_bytes l.out.bytes
                          (omega (arith, ltb-false→le 0 (sse_buf_len l.out) e))))))
      ]
    where
      no_bytes : (s : Bytes) → length s ≤ 0 → s ≡ []
      no_bytes [] h = refl
      no_bytes (x ∷ s) h = absurd (omega arith)

  -- In raw mode, whatever the child, the connection and the system calls do: if the loop ends without
  -- an error on the connection, the client has got whole chunks of data, none of them empty, and then
  -- the last chunk.
  pub exec_run_pipe-raw :
      (chunked : Bool) (content_length : ℤ) (answers : List Answers) (s : Session)
      (l : Loop Session)
      → beyond 0 ≡ []
      → pipe_loop ssl beyond true answers (start_loop ssl beyond true chunked content_length s)
        ≡ some (l, false)
      → (conn : Conn Session) × (code : ℤ) × (pieces : List Bytes) × (exec_run_pipe ssl beyond true
            true chunked content_length answers s
          ≡ some (conn, code))
        × All (λ p. 0 < length p) pieces
        × (wire conn ≡ chunk_texts pieces ++ last_chunk)
  unfolding exec_run_pipe
  exec_run_pipe-raw chunked content_length answers s l none_behind ended =
      let k : Good ssl beyond l = subst GoodEnd ended (
        pipe_loop-Good answers (start_loop ssl beyond true chunked content_length s) none_behind
          (start_loop-Good chunked content_length s)) in
      let o = finish ssl beyond true (l, false) in
      let parts = is_chunked k in
      (
        o.0,
        o.1,
        parts.pieces,
        rw (ended, exec_run_pipe) refl,
        parts.filled,
        wire-finish l none_behind k ∙ ap (λ t. t ++ last_chunk) parts.joined,
      )
    where
      is_chunked : Good ssl beyond l → IsChunked l.accepted l.out
      is_chunked k = unfold Good in k
