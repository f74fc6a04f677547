-- ===== src/Tests/Frames.antt =====
-- Concrete runs of the chunked frames and of the body reader.
use adb_termux_bridge.Base.{
  ◌≡◌, refl, true, false, [], ◌∷◌, ◌++◌, arith, negsuc, Bytes, codes, c_str, print_base,
}
use adb_termux_bridge.Chunk.{
  send_chunk, send_chunk_final, stream_callback, stream_prefix, max_piece, event_text,
}
use adb_termux_bridge.Chunk.Laws.{chunk_text, stream_callback_nul}
use adb_termux_bridge.Executor.BodyReader.{br_done, new_reader}
use adb_termux_bridge.Executor.BodyReader.Feed.{feed}
use adb_termux_bridge.Executor.BodyReader.RoundTrip.{send_chunks, feed-send_chunks}
use adb_termux_bridge.Ssl.{Conn, scripted, wire, send}

abbrev fresh : Conn Bytes
fresh = record { session = []; sent = [] }

chunk_run : wire (send_chunk scripted (codes "hello") fresh) ≡ codes "5\r\nhello\r\n"
unfolding send_chunk send print_base
chunk_run = refl

stream_run :
    wire (stream_callback scripted (codes "hi") true fresh).0
    ≡ codes "13\r\ndata: [STDERR] hi\n\n\r\n"
unfolding stream_callback send print_base event_text c_str max_piece
stream_run = refl

stream_callback_nul_example :
    wire (stream_callback scripted (codes "a" ++ (0 ∷ codes "b")) false fresh).0
    ≡ wire fresh
      ++ chunk_text (codes "data: " ++ (stream_prefix false ++ (codes "a" ++ codes "\n\n")))
unfolding max_piece
stream_callback_nul_example =
    stream_callback_nul scripted (codes "a") (codes "b") false fresh (ground arith) (omega arith)

feed-send_chunks_example :
    (let sent =
        wire
          (send_chunk_final scripted (send_chunks scripted (codes "ab" ∷ codes "c" ∷ []) fresh)) in
      let r = feed sent (new_reader true (negsuc 0)) in
      (r.stdin_buf ≡ codes "abc") × (r.state ≡ br_done) × (r.body_eof ≡ true))
feed-send_chunks_example =
    feed-send_chunks scripted (codes "ab" ∷ codes "c" ∷ []) [] (negsuc 0) (omega arith)
