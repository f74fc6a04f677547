-- ===== src/Tests/Connections.antt =====
-- Concrete runs of `handle_client` and `handle_request`.
use adb_termux_bridge.Base.{
  ℕ, ◌+◌, ◌≡◌, refl, true, false, none, some, List, [], ◌∷◌, pos, Bytes, codes, bytes_eq,
  starts_with, strstr, c_str, digit_value, read_digits, skip_isspace, clamp_long, skip_hex_prefix,
  strtol,
}
use adb_termux_bridge.Http.Reading.{read_until_crnlcrnl, ends_headers}
use adb_termux_bridge.Http.RequestLine.{Layout, parse_request_line}
use adb_termux_bridge.Server.Client.{Handlers, handle_client}
use adb_termux_bridge.Server.Client.Laws.{Released, handle_client-Released}
use adb_termux_bridge.CommandLine.{run_main, serve}
use adb_termux_bridge.Server.Start.{ProcEntry, sigterm, sigkill, kill_previous_instance}
use adb_termux_bridge.Ssl.{Conn, scripted}

-- Handlers that count their calls.
abbrev counting : Handlers Bytes ℕ
counting = record {
  handle_upload = λ query len n c. (n + 1, c);
  handle_update = λ query len n c. (n + 1, c, none);
  handle_exec_pipe = λ query len chunked n c. (n + 1, some c);
  handle_request = λ method path query body n c. (n + 1, some (c, false));
}

abbrev below : Layout
below = record { mcap = 16; pcap = 1024; qcap = 1024; line_at = 70000; path_at = 4096 }

abbrev asking : Conn Bytes
asking = record { session = codes "GET /x HTTP/1.1\r\n\r\n"; sent = [] }

served_run : (handle_client scripted ℕ counting below true true 0 asking).0 ≡ 1
unfolding handle_client bytes_eq starts_with strstr read_until_crnlcrnl ends_headers
    parse_request_line
served_run = refl

handle_client-Released_example :
    Released scripted ℕ counting below
      (handle_client scripted ℕ counting below true true 0 asking).1
handle_client-Released_example = handle_client-Released scripted ℕ counting below true true 0 asking

-- An older instance that does not end, and this process.
abbrev older : ProcEntry
older = record {
  d_name = codes "41";
  cmdline = some (codes "./termux-adb-bridge");
  terminates = true;
  survives = true;
}

abbrev processes : List ProcEntry
processes =
    older ∷ record older { d_name = codes "42" } ∷ record older { d_name = codes "self" } ∷ []

kill_run :
    kill_previous_instance (pos 42) (some processes) ≡ sigterm (pos 41) ∷ sigkill (pos 41) ∷ []
unfolding kill_previous_instance skip_isspace digit_value strtol clamp_long read_digits
    skip_hex_prefix strstr c_str starts_with
kill_run = refl

main_run :
    run_main (some (codes "/h")) (codes "--daemon" ∷ codes "--port" ∷ codes "80" ∷ [])
    ≡ serve true (codes "/h/.termux-adb-bridge/certs") (codes "127.0.0.1") (pos 80)
unfolding run_main bytes_eq strtol skip_isspace clamp_long read_digits skip_hex_prefix digit_value
main_run = refl
