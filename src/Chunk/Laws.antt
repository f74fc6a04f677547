-- ===== src/Chunk/Laws.antt =====
-- What the frames of src/handler.c look like on the wire.
use adb_termux_bridge.Base.{
  ℕ, zero, suc, ◌≤◌, ◌<◌, min, ◌≡◌, refl, sym, ap, ◌∙◌, Bool, true, false, List, [], ◌∷◌, ◌++◌, map,
  append-nil, append_assoc, arith, leb, lt→ltb, All, length, take, drop, concat, length-append,
  length-take, length-drop, take-append-drop, take_all, Bytes, codes, NoNul, c_str,
}
use adb_termux_bridge.Ssl.{Ssl, Conn, send, wire, wire-send}
use adb_termux_bridge.Chunk.{
  crlf, size_line, stream_prefix, sse_buf_size, max_piece, event_text, send_chunk, send_chunk_final,
  stream_loop, stream_callback,
}

-- One chunk of the chunked transfer coding.
abbrev pub chunk_text : Bytes → Bytes
chunk_text data' = size_line (length data') ++ (data' ++ crlf)

abbrev pub last_chunk : Bytes
last_chunk = b'0' ∷ (crlf ++ crlf)

length-c_str : (s : Bytes) → length (c_str s) ≤ length s
unfolding c_str
length-c_str [] = omega arith
length-c_str (zero ∷ s) = omega arith
length-c_str (suc c ∷ s) = omega (arith, length-c_str s)

drop_all : (n : ℕ) (xs : Bytes) → length xs ≤ n → drop n xs ≡ []
drop_all zero [] h = refl
drop_all zero (x ∷ xs) h = absurd (omega arith)
drop_all (suc n) [] h = refl
drop_all (suc n) (x ∷ xs) h = drop_all n xs (omega arith)

c_str-append : (front back : Bytes) → NoNul front → c_str (front ++ (0 ∷ back)) ≡ front
unfolding c_str
c_str-append [] back h = refl
c_str-append (zero ∷ front) back h = absurd (h.0 refl)
c_str-append (suc c ∷ front) back h = ap (◌∷◌ (suc c)) (c_str-append front back h.1)

-- The text of an event fits the buffer that it is printed into.
event_fits :
    (is_stderr : Bool) (piece : Bytes)
    → length piece ≤ max_piece is_stderr
    → leb sse_buf_size (length (event_text is_stderr piece)) ≡ false
unfolding event_text stream_prefix max_piece
event_fits true piece h =
    ground (arith, length-append (c_str piece) (codes "\n\n"), length-c_str piece)
event_fits false piece h =
    ground (arith, length-append (c_str piece) (codes "\n\n"), length-c_str piece)

max_piece_pos : (is_stderr : Bool) → 0 < max_piece is_stderr
unfolding max_piece
max_piece_pos true = omega arith
max_piece_pos false = omega arith

-- The data cut into pieces, and one chunk with one event on the wire for each of them, in order.
pub record Framed (is_stderr : Bool) (data' before after : Bytes) : Type 0 where
  pub pieces : List Bytes
  pub joined : concat pieces ≡ data'
  pub sizes : All (λ p. (0 < length p) × (length p ≤ max_piece is_stderr)) pieces
  pub events : after ≡ before ++ concat (map (λ p. chunk_text (event_text is_stderr p)) pieces)

pub Framed-nil : (is_stderr : Bool) (before : Bytes) → Framed is_stderr [] before before
Framed-nil is_stderr before = record {
  pieces = [];
  joined = refl;
  sizes = tt;
  events = sym (append-nil before);
}

Framed-cons :
    (is_stderr : Bool) (size b : ℕ) (bs before middle after : Bytes)
    → (0 < length (take size (b ∷ bs))) × (length (take size (b ∷ bs)) ≤ max_piece is_stderr)
    → middle ≡ before ++ chunk_text (event_text is_stderr (take size (b ∷ bs)))
    → Framed is_stderr (drop size (b ∷ bs)) middle after
    → Framed is_stderr (b ∷ bs) before after
Framed-cons is_stderr size b bs before middle after sized e f = record {
  pieces = take size (b ∷ bs) ∷ f.pieces;
  joined = ap (λ t. take size (b ∷ bs) ++ t) f.joined ∙ take-append-drop size (b ∷ bs);
  sizes = (sized, f.sizes);
  events =
      f.events
      ∙ ap (λ t. t ++ concat (map (λ p. chunk_text (event_text is_stderr p)) f.pieces)) e
      ∙ append_assoc before (chunk_text (event_text is_stderr (take size (b ∷ bs)))) _;
}

module _ (ssl : Ssl) where
  open ssl use {Session}

  wire-frame :
      (size d : Bytes) (c : Conn Session)
      → wire (send ssl crlf (send ssl d (send ssl size c))) ≡ wire c ++ (size ++ (d ++ crlf))
  wire-frame size d c =
      wire-send ssl crlf (send ssl d (send ssl size c))
      ∙ ap (λ t. t ++ crlf) (wire-send ssl d (send ssl size c))
      ∙ ap (λ t. (t ++ d) ++ crlf) (wire-send ssl size c)
      ∙ append_assoc (wire c ++ size) d crlf
      ∙ append_assoc (wire c) size (d ++ crlf)

  -- Three writes put one chunk on the wire, also where the data is empty.
  pub wire-send_chunk :
      (d : Bytes) (c : Conn Session) → wire (send_chunk ssl d c) ≡ wire c ++ chunk_text d
  unfolding send_chunk
  wire-send_chunk [] c =
      let size = size_line 0 in
      wire-send ssl crlf (send ssl size c)
      ∙ ap (λ t. t ++ crlf) (wire-send ssl size c)
      ∙ append_assoc (wire c) size crlf
  wire-send_chunk (x ∷ d) c =
      rw (lt→ltb 0 (suc (length d)) (omega arith))
        (wire-frame (size_line (length (x ∷ d))) (x ∷ d) c)

  pub wire-send_chunk_final :
      (c : Conn Session) → wire (send_chunk_final ssl c) ≡ wire c ++ last_chunk
  unfolding send_chunk_final
  wire-send_chunk_final c = wire-send ssl last_chunk c

  stream_loop-Framed :
      (fuel : ℕ) (is_stderr : Bool) (rest : Bytes) (c : Conn Session)
      → length rest ≤ fuel
      → Framed is_stderr rest (wire c) (wire (stream_loop ssl fuel is_stderr rest c))
  unfolding stream_loop
  stream_loop-Framed zero is_stderr [] c h = Framed-nil is_stderr (wire c)
  stream_loop-Framed zero is_stderr (b ∷ bs) c h = absurd (omega arith)
  stream_loop-Framed (suc fuel) is_stderr [] c h = Framed-nil is_stderr (wire c)
  stream_loop-Framed (suc fuel) is_stderr (b ∷ bs) c h =
      let size = min (length (b ∷ bs)) (max_piece is_stderr) in
      let piece = take size (b ∷ bs) in
      let text = event_text is_stderr piece in
      let len = length-take size (b ∷ bs) in
      let framed = send ssl crlf (send ssl text (send ssl (size_line (length text)) c)) in
      let go_on : leb sse_buf_size (length text) ≡ false =
        event_fits is_stderr piece (omega (arith, len)) in
      let sized : (0 < length piece) × (length piece ≤ max_piece is_stderr) =
        omega (arith, len, max_piece_pos is_stderr) in
      rw (go_on, stream_loop)
        (Framed-cons is_stderr size b bs (wire c) (wire framed) _ sized
          (wire-frame (size_line (length text)) text c)
          (stream_loop-Framed fuel is_stderr (drop size (b ∷ bs)) framed
            (omega (arith, length-drop size (b ∷ bs), max_piece_pos is_stderr))))

  -- Whatever the callback is given is cut into pieces that fit the buffer, nothing is left out or
  -- broken off, and each piece goes out as one event in one chunk; the command goes on.
  pub stream_callback_frames :
      (data' : Bytes) (is_stderr : Bool) (c : Conn Session)
      → Framed is_stderr data' (wire c) (wire (stream_callback ssl data' is_stderr c).0)
        × ((stream_callback ssl data' is_stderr c).1 ≡ 0)
  unfolding stream_callback
  stream_callback_frames data' is_stderr c =
      (stream_loop-Framed (length data') is_stderr data' c (omega arith), refl)

  stream_loop_nil :
      (fuel : ℕ) (is_stderr : Bool) (c : Conn Session) → stream_loop ssl fuel is_stderr [] c ≡ c
  unfolding stream_loop
  stream_loop_nil zero is_stderr c = refl
  stream_loop_nil (suc fuel) is_stderr c = refl

  -- A read that fits one piece goes out as one event whose text is what stands before its first NUL.
  stream_loop_one :
      (fuel : ℕ) (is_stderr : Bool) (b : ℕ) (bs : Bytes) (c : Conn Session)
      → length (b ∷ bs) ≤ max_piece is_stderr
      → wire (stream_loop ssl (suc fuel) is_stderr (b ∷ bs) c)
        ≡ wire c ++ chunk_text (event_text is_stderr (b ∷ bs))
  unfolding stream_loop
  stream_loop_one fuel is_stderr b bs c h =
      let size = min (length (b ∷ bs)) (max_piece is_stderr) in
      let whole : take size (b ∷ bs) ≡ b ∷ bs = take_all size (b ∷ bs) (omega arith) in
      let none_left : drop size (b ∷ bs) ≡ [] = drop_all size (b ∷ bs) (omega arith) in
      let text = event_text is_stderr (b ∷ bs) in
      let len = length-take size (b ∷ bs) in
      rw (event_fits is_stderr (take size (b ∷ bs)) (omega (arith, len)), stream_loop)
        (rw (none_left, stream_loop_nil fuel is_stderr _, whole)
          (wire-frame (size_line (length text)) text c))

  -- What stands behind a NUL in the output of the command is lost: the client gets the event of the
  -- bytes before it alone.
  pub stream_callback_nul :
      (front back : Bytes) (is_stderr : Bool) (c : Conn Session)
      → NoNul front
      → length (front ++ (0 ∷ back)) ≤ max_piece is_stderr
      → wire (stream_callback ssl (front ++ (0 ∷ back)) is_stderr c).0
        ≡ wire c
          ++ chunk_text (codes "data: " ++ (stream_prefix is_stderr ++ (front ++ codes "\n\n")))
  unfolding stream_callback event_text
  stream_callback_nul [] back is_stderr c h fits =
      stream_loop_one (length back) is_stderr 0 back c fits ∙ rw (c_str-append [] back h)
  stream_callback_nul (b ∷ front) back is_stderr c h fits =
      stream_loop_one (length (front ++ (0 ∷ back))) is_stderr b (front ++ (0 ∷ back)) c fits
      ∙ rw (c_str-append (b ∷ front) back h)
