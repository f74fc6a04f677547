-- ===== src/Executor/Stream/Events.antt =====
-- What a client of `/api/exec/stream` (src/handler.c, src/executor.c) receives.
use adb_termux_bridge.Base.{
  ◌≡◌, Bool, true, false, Option, none, some, List, [], ◌∷◌, ℤ, negsuc, Bytes,
}
use adb_termux_bridge.Chunk.{stream_callback}
use adb_termux_bridge.Chunk.Laws.{Framed}
use adb_termux_bridge.Executor.Stream.{
  wait_failed, reaped, Round, poll_failed, polled, pass_on, exit_status,
}
use adb_termux_bridge.Ssl.{Ssl, Conn, wire}

-- What the rounds read, with the stream's flag, until one of them ends the loop; and the code with
-- which it ends.
abbrev pub outputs : List Round → List (Bool × Bytes)
outputs [] = []
outputs (poll_failed ∷ rounds) = []
outputs (polled [] [] (reaped status) ∷ rounds) = []
outputs (polled [] [] wait_failed ∷ rounds) = []
outputs (polled out err waited ∷ rounds) = (false, out) ∷ (true, err) ∷ outputs rounds

abbrev pub stream_ending : List Round → Option ℤ
stream_ending [] = none
stream_ending (poll_failed ∷ rounds) = some (negsuc 0)
stream_ending (polled [] [] (reaped status) ∷ rounds) = some (exit_status status)
stream_ending (polled [] [] wait_failed ∷ rounds) = some (negsuc 0)
stream_ending (polled out err waited ∷ rounds) = stream_ending rounds

-- From the wire `before` to the wire `after` each output is cut into pieces, in order, and each piece
-- is one event in one chunk.
abbrev pub Events : List (Bool × Bytes) → Bytes → Bytes → Type 0
Events [] before after = before ≡ after
Events ((is_err, text) ∷ outs) before after =
    (middle : Bytes) × Framed is_err text before middle × Events outs middle after

module _ (ssl : Ssl) where
  open ssl use {Session}

  -- The connection after both pipes of a round.
  both : Bytes → Bytes → Conn Session → Conn Session
  both out err c =
      (pass_on (stream_callback ssl) err true (pass_on (stream_callback ssl) out false c).0).0

  Reports : List Round → Conn Session → Conn Session × Option ℤ → Type 0
  Reports rounds c o = Events (outputs rounds) (wire c) (wire o.0) × (o.1 ≡ stream_ending rounds)
