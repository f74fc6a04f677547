-- ===== src/Tests/Programs.antt =====
-- Concrete runs of the program as a whole: requests over handler.c and the list of forwards.
use adb_termux_bridge.Base.{true, false, none, [], ◌∷◌, pos, Bytes, codes}
use adb_termux_bridge.Forward.{new_forward}
use adb_termux_bridge.Http.RequestLine.{Layout}
use adb_termux_bridge.Server.Program.{Program, System}
use adb_termux_bridge.Server.Program.Removal.{delete_request}
use adb_termux_bridge.Ssl.{Conn}

abbrev system : System
system = record {
  now = 100;
  forward_calls = record {
    socket = none;
    inet_pton = λ host. none;
    bind = λ addr port. false;
    listen = false;
    calloc = false;
  };
  stale = λ text. text;
  exec_calls = record {
    run_started = λ command env. false;
    run_rounds = λ command env. [];
    stream_started = λ command env. false;
    stream_rounds = λ command env. [];
  };
  file_calls = record { fopen_error = λ path. none; disk_room = 100 };
  update_calls = record {
    own_path = none;
    fopen_error = λ path. none;
    disk_room = 0;
    rename_error = none;
    sha256 = λ body. [];
  };
  readable = λ path. true;
  malloc = λ size. true;
  pipe_started = λ call. false;
  pipe_answers = λ call. [];
  beyond = λ n. [];
  unwritten = [];
}

-- A program with one forward, under the id 1.
abbrev program : Program
program = record {
  registry = record {
    forwards = new_forward 1 7 (codes "@adb") (codes "127.0.0.1") (pos 5037) false ∷ [];
    next_id = 2;
    sockets = record { fd = 7; addr = 2130706433; port = 5037 } ∷ [];
    threads = 1 ∷ [];
  };
  files = λ path. none;
  cert_dir = codes "/certs";
  start_time = 10;
  argv = none;
  listen_fd = pos 3;
  ca_cert = none;
  server_cert = none;
}

abbrev arrays : Layout
arrays = record { mcap = 16; pcap = 1024; qcap = 1024; line_at = 70000; path_at = 4096 }

abbrev deleting : Conn Bytes
deleting = record { session = delete_request 1 (codes "HTTP/1.1\r\n\r\n"); sent = [] }

abbrev posting : Conn Bytes
posting = record { session = codes "abcdef"; sent = [] }

abbrev asking : Conn Bytes
asking = record { session = []; sent = [] }
