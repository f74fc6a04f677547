-- ===== src/Executor/BodyReader/RoundTrip.antt =====
-- What src/handler.c sends in chunks, the body reader of src/executor.c takes apart again.
use adb_termux_bridge.Base.{
  ℕ, suc, ◌+◌, ◌-◌, ◌≤◌, ◌<◌, ◌≡◌, refl, sym, ap, ◌∙◌, true, false, List, [], ◌∷◌, ◌++◌, map,
  append-nil, append_assoc, arith, ltb, ◌==◌, if◌then◌else◌, lt→ltb, All, length, concat,
  length-append, All-append, ℤ, pos, Bytes, print_base, long_max, strtol, print_base-Without,
  length-print_base, strtol-print_base, Without,
}
use adb_termux_bridge.Ssl.{Ssl, Conn, wire}
use adb_termux_bridge.Chunk.{crlf, size_line, send_chunk, send_chunk_final}
use adb_termux_bridge.Chunk.Laws.{chunk_text, last_chunk, wire-send_chunk, wire-send_chunk_final}
use adb_termux_bridge.Executor.BodyReader.{
  br_header, br_data, br_trailer, br_final, br_done, Reader, new_reader, hdr_size, header_byte,
  trailer_byte, final_byte, data_bytes,
}
use adb_termux_bridge.Executor.BodyReader.Feed.{
  feed, feed_at, feed-append, feed-data, data_bytes_left,
}

-- The reader at the size line of a chunk, with nothing of it read.
record AtHeader (r : Reader) : Type 0 where
  is_chunked : r.chunked ≡ true
  at_header : r.state ≡ br_header
  no_header : r.hdr ≡ []

header_more :
    (c : ℕ) (r : Reader)
    → (c == b'\n') ≡ false
    → length r.hdr < hdr_size - 1
    → header_byte c r ≡ record r { hdr = r.hdr ++ (c ∷ []) }
unfolding header_byte
header_more c r h k = rw (h, lt→ltb (length r.hdr) (hdr_size - 1) k) refl

feed-header :
    (h rest : Bytes) (r : Reader)
    → Without b'\n' h
    → r.state ≡ br_header
    → length r.hdr + length h ≤ hdr_size - 1
    → feed (h ++ (b'\n' ∷ rest)) r ≡ feed rest (header_byte b'\n' (record r { hdr = r.hdr ++ h }))
feed-header [] rest r w s fits =
    feed_at br_header b'\n' rest r s
    ∙ ap (λ x. feed rest (header_byte b'\n' (record r { hdr = x }))) (sym (append-nil r.hdr))
feed-header (c ∷ h) rest r w s fits =
    let len = length-append r.hdr (c ∷ []) in
    feed_at br_header c (h ++ (b'\n' ∷ rest)) r s
    ∙ ap (feed (h ++ (b'\n' ∷ rest))) (header_more c r w.0 (omega arith))
    ∙ feed-header h rest (record r { hdr = r.hdr ++ (c ∷ []) }) w.1 s (omega (arith, len))
    ∙ ap (λ x. feed rest (header_byte b'\n' (record r { hdr = x }))) (append_assoc r.hdr (c ∷ []) h)

digits-Without : (n : ℕ) → Without b'\n' (print_base 16 n ++ (b'\r' ∷ []))
digits-Without n =
    All-append (λ c. (c == b'\n') ≡ false) (print_base 16 n) (b'\r' ∷ [])
      (print_base-Without 16 n b'\n' (omega arith) (omega arith) (omega arith)) (refl, tt)

size_line-fits : (n : ℕ) → n ≤ long_max → length (print_base 16 n ++ (b'\r' ∷ [])) ≤ 31
size_line-fits n h = omega (
  arith,
  length-append (print_base 16 n) (b'\r' ∷ []),
  length-print_base 16 n 15 (omega arith) (omega arith),
)

header_end :
    (n : ℕ) (r : Reader)
    → r.hdr ≡ print_base 16 n ++ (b'\r' ∷ [])
    → n ≤ long_max
    → header_byte b'\n' r
      ≡ record r { remaining = pos n; hdr = []; state = if n == 0 then br_final else br_data }
unfolding header_byte
header_end n r e small =
    let size : strtol 16 r.hdr ≡ pos n =
      ap (strtol 16) e
      ∙ strtol-print_base 16 n (b'\r' ∷ []) (omega arith) (omega arith) small (omega arith) in
    rw size refl

-- After the size line the size is known.
feed-size_line :
    (n : ℕ) (rest : Bytes) (r : Reader)
    → AtHeader r
    → n ≤ long_max
    → feed (size_line n ++ rest) r
      ≡ feed rest
          (record r { remaining = pos n; hdr = []; state = if n == 0 then br_final else br_data })
feed-size_line n rest r at small =
    let line = print_base 16 n ++ (b'\r' ∷ []) in
    let whole : size_line n ++ rest ≡ line ++ (b'\n' ∷ rest) =
      append_assoc (print_base 16 n) crlf rest
      ∙ sym (append_assoc (print_base 16 n) (b'\r' ∷ []) (b'\n' ∷ rest)) in
    let empty : r.hdr ++ line ≡ line = ap (λ h. h ++ line) at.no_header in
    ap (λ t. feed t r) whole
    ∙ feed-header line rest r (digits-Without n) at.at_header
        (omega (arith, size_line-fits n small, ap length at.no_header))
    ∙ ap (feed rest) (header_end n (record r { hdr = r.hdr ++ line }) empty small)

feed-crlf :
    (rest : Bytes) (r : Reader)
    → r.state ≡ br_trailer
    → feed (crlf ++ rest) r ≡ feed rest (record r { state = br_header })
unfolding feed trailer_byte
feed-crlf rest r s = ground arith

feed-final :
    (r : Reader) → r.state ≡ br_final → feed crlf r ≡ record r { state = br_done; body_eof = true }
unfolding feed final_byte
feed-final r s = ground arith

data_whole :
    (d : Bytes) (r : Reader)
    → r.chunked ≡ true
    → r.remaining ≡ pos (length d)
    → data_bytes d r
      ≡ record r { stdin_buf = r.stdin_buf ++ d; remaining = pos 0; state = br_trailer }
data_whole d r ch e = data_bytes_left d r 0 (e ∙ ap pos (omega arith)) ∙ rw ch refl

suc_ne_zero : (n : ℕ) → (suc n == 0) ≡ false
suc_ne_zero n = ground arith

-- One chunk with data in it moves its data to the child's buffer, and the reader is at the next
-- size line.
feed-chunk :
    (c : ℕ) (d rest : Bytes) (r : Reader)
    → AtHeader r
    → length (c ∷ d) ≤ long_max
    → feed (chunk_text (c ∷ d) ++ rest) r
      ≡ feed rest (record r {
        stdin_buf = r.stdin_buf ++ (c ∷ d);
        remaining = pos 0;
        hdr = [];
        state = br_header;
      })
feed-chunk c d rest r at small =
    let n = length (c ∷ d) in
    let known : Reader = record r { remaining = pos n; hdr = []; state = br_data } in
    let taken : Reader = record known {
      stdin_buf = r.stdin_buf ++ (c ∷ d);
      remaining = pos 0;
      state = br_trailer;
    } in
    ap (λ t. feed t r) (append_assoc (size_line n) ((c ∷ d) ++ crlf) rest)
    ∙ feed-size_line n (((c ∷ d) ++ crlf) ++ rest) r at small
    ∙ ap
        (λ b.
          feed (((c ∷ d) ++ crlf) ++ rest)
            (record r { remaining = pos n; hdr = []; state = if b then br_final else br_data }))
        (suc_ne_zero (length d))
    ∙ ap (λ t. feed t known) (append_assoc (c ∷ d) crlf rest)
    ∙ feed-append (c ∷ d) (crlf ++ rest) known
    ∙ ap (feed (crlf ++ rest)) (
        feed-data c d known 0 refl (ap pos (omega arith))
        ∙ data_whole (c ∷ d) known at.is_chunked refl)
    ∙ feed-crlf rest taken refl

-- Chunks of at least one byte, of sizes that a `long` can hold.
abbrev pub AreChunks : List Bytes → Type 0
AreChunks = All (λ d. (0 < length d) × (length d ≤ long_max))

AtHeader-again :
    (r : Reader) (b : Bytes) (z : ℤ)
    → AtHeader r
    → (record r { stdin_buf = b; remaining = z; hdr = []; state = br_header })
      ≡ record r { stdin_buf = b; remaining = z }
AtHeader-again r b z at = ground arith

feed-chunks :
    (ds : List Bytes) (rest : Bytes) (r : Reader)
    → AtHeader r
    → AreChunks ds
    → (z : ℤ) × (feed (concat (map chunk_text ds) ++ rest) r
        ≡ feed rest (record r { stdin_buf = r.stdin_buf ++ concat ds; remaining = z }))
feed-chunks [] rest r at h =
    (r.remaining, ap (λ b. feed rest (record r { stdin_buf = b })) (sym (append-nil r.stdin_buf)))
feed-chunks ([] ∷ ds) rest r at h = absurd (omega (arith, h.0.0))
feed-chunks ((c ∷ d) ∷ ds) rest r at h =
    let moved : Reader = record r {
      stdin_buf = r.stdin_buf ++ (c ∷ d);
      remaining = pos 0;
      hdr = [];
      state = br_header;
    } in
    let (z, later) =
      feed-chunks ds rest moved
        (record { is_chunked = at.is_chunked; at_header = refl; no_header = refl }) h.1 in
    (
      z,
      ap (λ t. feed t r) (append_assoc (chunk_text (c ∷ d)) (concat (map chunk_text ds)) rest)
          ∙ feed-chunk c d (concat (map chunk_text ds) ++ rest) r at h.0.1
          ∙ later
          ∙ ap (λ b. feed rest (record moved { stdin_buf = b; remaining = z }))
              (append_assoc r.stdin_buf (c ∷ d) (concat ds))
          ∙ ap (feed rest) (AtHeader-again r (r.stdin_buf ++ ((c ∷ d) ++ concat ds)) z at),
    )

feed-last_chunk :
    (r : Reader)
    → AtHeader r
    → feed last_chunk r ≡ record r { remaining = pos 0; hdr = []; state = br_done; body_eof = true }
unfolding print_base
feed-last_chunk r at =
    feed-size_line 0 crlf r at (omega arith)
    ∙ feed-final (record r { remaining = pos 0; hdr = []; state = br_final }) refl

-- The chunks that `send_chunk` sends for some data, one call for each piece.
abbrev pub send_chunks : (ssl : Ssl) → List Bytes → Conn ssl.Session → Conn ssl.Session
send_chunks ssl [] c = c
send_chunks ssl (d ∷ ds) c = send_chunks ssl ds (send_chunk ssl d c)

wire-send_chunks :
    (ssl : Ssl) (ds : List Bytes) (c : Conn ssl.Session)
    → wire (send_chunks ssl ds c) ≡ wire c ++ concat (map chunk_text ds)
wire-send_chunks ssl [] c = sym (append-nil (wire c))
wire-send_chunks ssl (d ∷ ds) c =
    wire-send_chunks ssl ds (send_chunk ssl d c)
    ∙ ap (λ t. t ++ concat (map chunk_text ds)) (wire-send_chunk ssl d c)
    ∙ append_assoc (wire c) (chunk_text d) (concat (map chunk_text ds))

-- What `send_chunk`, called for each piece of some data, and `send_chunk_final` put on a fresh
-- connection makes a chunked body: the reader hands exactly that data to the child, in order, and
-- then is done.
pub feed-send_chunks :
    (ssl : Ssl) (ds : List Bytes) (s : ssl.Session) (content_length : ℤ)
    → AreChunks ds
    → (let sent =
          wire (send_chunk_final ssl (send_chunks ssl ds (record { session = s; sent = [] }))) in
        let r = feed sent (new_reader true content_length) in
        (r.stdin_buf ≡ concat ds) × (r.state ≡ br_done) × (r.body_eof ≡ true))
unfolding new_reader
feed-send_chunks ssl ds s content_length h =
    let fresh : Conn ssl.Session = record { session = s; sent = [] } in
    let start = new_reader true content_length in
    let at : AtHeader start = record { is_chunked = refl; at_header = refl; no_header = refl } in
    let (z, read) = feed-chunks ds last_chunk start at h in
    let sent =
      wire-send_chunk_final ssl (send_chunks ssl ds fresh)
      ∙ ap (λ t. t ++ last_chunk) (wire-send_chunks ssl ds fresh) in
    let filled : Reader = record start { stdin_buf = concat ds; remaining = z } in
    let e =
      read
      ∙ feed-last_chunk filled (record { is_chunked = refl; at_header = refl; no_header = refl }) in
    rw (sent, e) (refl, refl, refl)

-- A body of a given length is done with its last byte, and not before.
pub feed-content_length :
    (c : ℕ) (d : Bytes)
    → (let r = feed (c ∷ d) (new_reader false (pos (length (c ∷ d)))) in
        (r.stdin_buf ≡ c ∷ d) × (r.state ≡ br_done) × (r.body_eof ≡ true))
unfolding new_reader
feed-content_length c d =
    let start = new_reader false (pos (length (c ∷ d))) in
    let e = positive c d in
    let r =
      feed-data c d start 0 (rw e refl) (ap pos (omega arith))
      ∙ data_bytes_left (c ∷ d) start 0 (ap pos (omega arith)) in
    rw r (refl, refl, refl)
  where
    positive : (c : ℕ) (d : Bytes) → ltb 0 (length (c ∷ d)) ≡ true
    positive c d = ground arith
