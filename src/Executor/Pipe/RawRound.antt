-- ===== src/Executor/Pipe/RawRound.antt =====
-- The output of `exec_run_pipe` in src/executor.c in raw mode, round by round.
use adb_termux_bridge.Base.{
  ℕ, ◌+◌, ◌<◌, ◌≡◌, refl, sym, ap, ◌∙◌, inl, inr, Bool, true, false, not, ◌&&◌, ◌||◌, Option, none,
  some, List, [], ◌∷◌, ◌++◌, map, append-nil, append_assoc, arith, ltb, leb, ◌==◌, if◌then◌else◌,
  Bool-cases, All, length, concat, take-append-drop, concat-append, All-append, Bytes,
}
use adb_termux_bridge.Chunk.{size_line}
use adb_termux_bridge.Chunk.Laws.{chunk_text}
use adb_termux_bridge.Executor.Output.{OutBuf, sse_buf_len, store_output, raw_output}
use adb_termux_bridge.Executor.Pipe.{
  Polled, poll_failed, interrupted, poll_ready, Wrote, wrote, again, broken, Answers, Loop, Next,
  go_on, leave, ssl_failed, polls_ssl, polls_stdin, read_block, pending_output, after_write,
  write_block, after_stdin, stdin_block, output_block, close_block, wait_block, second_half,
  after_poll, round,
}
use adb_termux_bridge.Executor.Capture.{Status}
use adb_termux_bridge.Ssl.{Ssl, Outcome, done, want_read, want_write, failed}

-- The chunks of pieces that are not empty.
abbrev pub chunk_texts : List Bytes → Bytes
chunk_texts ps = concat (map chunk_text ps)

-- All output so far, sent or in the buffer, is whole chunks, and the buffer counts what it holds.
pub record IsChunked (accepted : Bytes) (out : OutBuf) : Type 0 where
  pub pieces : List Bytes
  pub filled : All (λ p. 0 < length p) pieces
  pub joined : accepted ++ out.bytes ≡ chunk_texts pieces
  pub counted : out.missing ≡ 0

map-append : (f : Bytes → Bytes) (a b : List Bytes) → map f (a ++ b) ≡ map f a ++ map f b
map-append f [] b = refl
map-append f (x ∷ a) b = ap (◌∷◌ (f x)) (map-append f a b)

chunk_texts_snoc :
    (ps : List Bytes) (p : Bytes) → chunk_texts (ps ++ (p ∷ [])) ≡ chunk_texts ps ++ chunk_text p
chunk_texts_snoc ps p =
    ap concat (map-append chunk_text ps (p ∷ []))
    ∙ concat-append (map chunk_text ps) (chunk_text p ∷ [])
    ∙ ap (λ t. chunk_texts ps ++ t) (append-nil (chunk_text p))

raw_output-IsChunked :
    (is_err : Bool) (b : ℕ) (bs accepted : Bytes) (out : OutBuf)
    → IsChunked accepted out
    → IsChunked accepted (raw_output is_err (b ∷ bs) out)
unfolding raw_output
raw_output-IsChunked true b bs accepted out k = k
raw_output-IsChunked false b bs accepted out k =
    let n = length (b ∷ bs) in
    elim (Bool-cases (leb (sse_buf_len out + length (size_line n) + n + 2) 131072)) [
      | inr full ↦ rw full k
      | inl fits ↦ rw fits (record {
        pieces = k.pieces ++ ((b ∷ bs) ∷ []);
        filled = All-append (λ p. 0 < length p) k.pieces ((b ∷ bs) ∷ []) k.filled (omega arith, tt);
        joined =
            sym (append_assoc accepted out.bytes (chunk_text (b ∷ bs)))
            ∙ ap (λ t. t ++ chunk_text (b ∷ bs)) k.joined
            ∙ sym (chunk_texts_snoc k.pieces (b ∷ bs));
        counted = k.counted;
      })
    ]

module _ (ssl : Ssl) (beyond : ℕ → Bytes) where
  open ssl use {Session, ssl_write}

  -- The invariant of the loop in raw mode.
  unfoldable pub Good : Loop Session → Type 0
  Good l = IsChunked l.accepted l.out

  abbrev pub GoodNext : Next Session → Type 0
  GoodNext (go_on t) = Good t
  GoodNext (leave t) = Good t
  GoodNext (ssl_failed t) = Unit

  after_write-Good :
      (o : Outcome ℕ) (s : Session) (l : Loop Session)
      → beyond 0 ≡ []
      → Good l
      → GoodNext (after_write ssl beyond true o s l)
  unfolding after_write Good
  after_write-Good (done n) s l none_behind k =
      let all : pending_output ssl beyond true l.out ≡ l.out.bytes =
        rw (k.counted, none_behind) (append-nil l.out.bytes) in
      record {
        pieces = k.pieces;
        filled = k.filled;
        joined =
            append_assoc l.accepted _ _
            ∙ ap (λ t. l.accepted ++ t)
                (take-append-drop n (pending_output ssl beyond true l.out) ∙ all)
            ∙ k.joined;
        counted = refl;
      }
  after_write-Good want_write s l none_behind k = k
  after_write-Good want_read s l none_behind k = tt
  after_write-Good failed s l none_behind k = tt

  -- A choice between two states that are both good.
  if-Good : (b : Bool) (l t : Loop Session) → Good l → Good t → Good (if b then l else t)
  if-Good true l t h k = h
  if-Good false l t h k = k

  write_block-Good :
      (polled : Bool) (a : Answers) (l : Loop Session)
      → beyond 0 ≡ []
      → Good l
      → GoodNext (write_block ssl beyond true polled a l)
  unfolding write_block
  write_block-Good polled a l none_behind k =
      let w = ssl_write l.session (pending_output ssl beyond true l.out) in
      let sends = polled && (a.ssl_out && ltb 0 (sse_buf_len l.out)) in
      elim (Bool-cases sends) [
        | inl e ↦ rw e (after_write-Good w.0 w.1 l none_behind k)
        | inr e ↦ rw e k
      ]

  read_block-Good :
      (a : Answers) (l : Loop Session) → Good l → Good (read_block ssl beyond true a l)
  unfolding read_block Good
  read_block-Good a l k = if-Good _ _ l k k

  after_stdin-Good :
      (w : Wrote) (l : Loop Session) → Good l → Good (after_stdin ssl beyond true w l)
  unfolding after_stdin Good
  after_stdin-Good (wrote n) l k = k
  after_stdin-Good again l k = k
  after_stdin-Good broken l k = k

  output_block-Good :
      (is_err : Bool) (read : Option Bytes) (l : Loop Session)
      → Good l
      → Good (output_block ssl beyond true is_err read l)
  unfolding output_block store_output Good
  output_block-Good is_err none l k = k
  output_block-Good true (some []) l k = k
  output_block-Good false (some []) l k = k
  output_block-Good is_err (some (b ∷ bs)) l k = raw_output-IsChunked is_err b bs l.accepted l.out k

  wait_block-Good :
      (w : Option Status) (l : Loop Session) → Good l → Good (wait_block ssl beyond true w l)
  unfolding wait_block Good
  wait_block-Good none l k = k
  wait_block-Good (some status) l k = if-Good l.child_exited l _ k k

  second_half-Good :
      (polled : Bool) (a : Answers) (l : Loop Session)
      → Good l
      → Good (second_half ssl beyond true polled a l)
  unfolding second_half stdin_block close_block
  second_half-Good polled a l k =
      let fed = stdin_block ssl beyond true polled a l in
      let out = if l.stdout_done then fed else output_block ssl beyond true false a.stdout_in fed in
      let err = if l.stderr_done then out else output_block ssl beyond true true a.stderr_in out in
      let fed_k : Good fed =
        if-Good (polls_stdin ssl beyond true l && (polled && a.stdin_out)) _ l
          (after_stdin-Good a.write l k) k in
      let out_k : Good out =
        if-Good l.stdout_done fed _ fed_k (output_block-Good false a.stdout_in fed fed_k) in
      let err_k : Good err =
        if-Good l.stderr_done out _ out_k (output_block-Good true a.stderr_in out out_k) in
      wait_block-Good a.waited (close_block ssl beyond true err) (
        if-Good (err.reader.body_eof && (length err.reader.stdin_buf == 0 && not err.stdin_closed))
          _ err (unfold Good in err_k) err_k)

  after_poll-Good :
      (a : Answers) (l : Loop Session)
      → beyond 0 ≡ []
      → Good l
      → GoodNext (after_poll ssl beyond true a l)
  unfolding after_poll
  after_poll-Good a l none_behind k =
      go
        (write_block ssl beyond true (polls_ssl ssl beyond true l) a
          (read_block ssl beyond true a l))
        (write_block-Good (polls_ssl ssl beyond true l) a (read_block ssl beyond true a l)
          none_behind (read_block-Good a l k))
    where
      go :
          (r : Next Session)
          → GoodNext r
          → GoodNext (elim r as (λ _. Next Session) [
            | go_on t ↦ go_on (second_half ssl beyond true (polls_stdin ssl beyond true l) a t)
            | leave t ↦ leave t
            | ssl_failed t ↦ ssl_failed t
          ])
      go (go_on t) h = second_half-Good (polls_stdin ssl beyond true l) a t h
      go (leave t) h = h
      go (ssl_failed t) h = tt

  pub round-Good :
      (a : Answers) (l : Loop Session)
      → beyond 0 ≡ []
      → Good l
      → GoodNext (round ssl beyond true a l)
  unfolding round
  round-Good a l none_behind k =
      let polls =
        polls_ssl ssl beyond true l
        || (polls_stdin ssl beyond true l || (not l.stdout_done || not l.stderr_done)) in
      elim (Bool-cases polls) [
        | inr e ↦ rw e (wait_block-Good a.awaited l k)
        | inl e ↦ rw e (go a.poll)
      ]
    where
      go :
          (p : Polled)
          → GoodNext (elim p as (λ _. Next Session) [
            | poll_failed ↦ leave l
            | interrupted ↦ go_on l
            | poll_ready ↦ after_poll ssl beyond true a l
          ])
      go poll_failed = k
      go interrupted = k
      go poll_ready = after_poll-Good a l none_behind k
