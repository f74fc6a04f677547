-- ===== src/Tests/Handlers.antt =====
-- Concrete runs of the endpoints of src/handler.c.
use adb_termux_bridge.Base.{
  ℕ, zero, suc, ◌≡◌, refl, false, none, some, [], ◌∷◌, ◌++◌, map, arith, pos, Bytes, codes,
  bytes_eq, starts_with, digit_char, digit_value, print_base,
}
use adb_termux_bridge.Forward.{Calls}
use adb_termux_bridge.Handler.Info.{fingerprint, human, split_uptime}
use adb_termux_bridge.Handler.Pipe.{pipe_headers, handle_exec_pipe}
use adb_termux_bridge.Handler.Pipe.Decoding.{
  plain, escape, plus, token_byte, encoded, handle_exec_pipe-command,
}
use adb_termux_bridge.Handler.Update.{UpdateCalls, Files, handle_update}
use adb_termux_bridge.Handler.Upload.{FileCalls, query_path}
use adb_termux_bridge.Json.{plain_json}
use adb_termux_bridge.Ssl.{Conn, scripted, send}

abbrev idle : Conn Bytes
idle = record { session = []; sent = [] }

abbrev posting : Conn Bytes
posting = record { session = codes "abcdef"; sent = [] }

abbrev disk : FileCalls
disk = record { fopen_error = λ path. none; disk_room = 100 }

upload_path_run : query_path (codes "path=/tmp/x") ≡ some (codes "/tmp/x")
unfolding query_path starts_with
upload_path_run = refl

-- A digest of 32 bytes that does not depend on the body.
abbrev zeros : ℕ → Bytes
zeros zero = []
zeros (suc n) = 0 ∷ zeros n

abbrev own_binary : Bytes
own_binary = codes "/bin/bridge"

abbrev update_calls : UpdateCalls
update_calls = record {
  own_path = some own_binary;
  fopen_error = λ path. none;
  disk_room = 100;
  rename_error = none;
  sha256 = λ body. zeros 32;
}

abbrev sha_query : Bytes
sha_query = codes "sha256=0000000000000000000000000000000000000000000000000000000000000000"

abbrev before : Files
before path = some (codes "old")

update_run :
    (handle_update scripted plain_json update_calls sha_query (pos 3) posting before).files
      own_binary
    ≡ some (codes "abc")
unfolding handle_update starts_with bytes_eq digit_char
update_run = refl

handle_exec_pipe-command_example :
    handle_exec_pipe scripted plain_json
      (codes "command=" ++ encoded (plain b'l' ∷ escape b'7' b'3' ∷ plus ∷ []))
      (pos 4)
      false
      posting
    ≡ (
      send scripted (pipe_headers false) posting,
      some (record {
        command = map token_byte (plain b'l' ∷ escape b'7' b'3' ∷ plus ∷ []);
        env = [];
        content_length = pos 4;
        chunked = false;
        raw = false;
      }),
    )
unfolding digit_value
handle_exec_pipe-command_example =
    handle_exec_pipe-command scripted plain_json (plain b'l') (escape b'7' b'3' ∷ plus ∷ []) (pos 4)
      false posting
      (
        ((λ h. ground arith), (λ h. ground arith), (λ h. ground arith)),
        ((omega arith, omega arith), (tt, tt)),
      )
      ((λ h. ground arith), ((λ h. ground arith), ((λ h. ground arith), tt))) (omega arith)

fingerprint_run : fingerprint (1 ∷ 171 ∷ []) ≡ codes "SHA256:01:ab"
unfolding fingerprint digit_char
fingerprint_run = refl

human_run : human (split_uptime 90061) ≡ codes "1d 1h 1m 1s"
unfolding human split_uptime print_base
human_run = refl

abbrev refusing : Calls
refusing = record {
  socket = none;
  inet_pton = λ host. none;
  bind = λ addr port. false;
  listen = false;
  calloc = false;
}
