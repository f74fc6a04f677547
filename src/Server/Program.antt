-- ===== src/Server/Program.antt =====
-- `handle_request` of src/handler.c with the handlers that it calls, and the handlers as
-- `handle_client` of src/server.c calls them, on the state of the whole program.
pub mod Removal
pub mod Storage
use adb_termux_bridge.Base.{
  ℕ, Bool, true, false, Option, none, some, List, ◌++◌, if◌then◌else◌, length, take, ℤ, pos, Bytes,
  c_str,
}
use adb_termux_bridge.Executor.Pipe.{Answers, exec_run_pipe}
use adb_termux_bridge.Forward.{Registry, Calls}
use adb_termux_bridge.Handler.Exec.{ExecCalls, handle_exec, handle_exec_stream}
use adb_termux_bridge.Handler.Forwards.{
  handle_tcpforward_get, handle_tcpforward_post, handle_tcpforward_delete,
}
use adb_termux_bridge.Handler.Info.{
  Opened, Cert, handle_download, handle_health, handle_uptime, handle_certinfo,
}
use adb_termux_bridge.Handler.Pipe.{PipeCall, handle_exec_pipe}
use adb_termux_bridge.Handler.Update.{
  Files, put, UpdateCalls, Ending, returned, restarted, handle_update,
}
use adb_termux_bridge.Handler.Upload.{FileCalls, handle_upload}
use adb_termux_bridge.Json.{Cjson}
use adb_termux_bridge.Server.Client.{Handlers}
use adb_termux_bridge.Server.Route.{
  Endpoint, health, certinfo, uptime, exec, exec_stream, download, tcpforward_get, tcpforward_post,
  tcpforward_delete, handle_request,
}
use adb_termux_bridge.Ssl.{Ssl, Conn}

-- What the connections share: the list of forwards of forward.c, the files that requests read and
-- write, and the static variables of handler.c.
pub record Program : Type 0 where
  pub registry : Registry
  pub files : Files
  pub cert_dir : Bytes
  pub start_time : ℕ
  pub argv : Option (List Bytes)
  pub listen_fd : ℤ
  pub ca_cert : Option Cert
  pub server_cert : Option Cert

-- The directory is cut to its array of 1024 bytes; the second argument is the time.
unfoldable pub handler_set_cert_dir : Bytes → ℕ → Program → Program
handler_set_cert_dir dir now w = record w { cert_dir = take 1023 dir; start_time = now }

unfoldable pub handler_set_certs : Option Cert → Option Cert → Program → Program
handler_set_certs ca server w = record w { ca_cert = ca; server_cert = server }

unfoldable pub handler_set_argv : List Bytes → Program → Program
handler_set_argv argv w = record w { argv = some argv }

unfoldable pub handler_set_listen_fd : ℤ → Program → Program
handler_set_listen_fd fd w = record w { listen_fd = fd }

-- What the system answers while one request is handled.
pub record System : Type 0 where
  pub now : ℕ
  pub forward_calls : Calls
  -- what the memory of a freed text holds
  pub stale : Bytes → Bytes
  pub exec_calls : ExecCalls
  pub file_calls : FileCalls
  pub update_calls : UpdateCalls
  -- whether `fopen(path, "rb")` may read a file that is there, and `malloc` of a size
  pub readable : Bytes → Bool
  pub malloc : ℕ → Bool
  -- `exec_run_pipe`: whether the pipes and the child could be made, and the rounds
  pub pipe_started : PipeCall → Bool
  pub pipe_answers : PipeCall → List Answers
  pub beyond : ℕ → Bytes
  -- the string in an array `body` that was never written
  pub unwritten : Bytes

module _ (ssl : Ssl) (json : Cjson) (system : System) where
  open ssl use {Session}

  -- `fopen` for a download: `ftell` at the end of a file is its size.
  unfoldable pub opened : Program → Bytes → Option Opened
  opened w path = elim (w.files path) [
    | none ↦ none
    | some content ↦
        if system.readable path
        then some (record {
          fsize = pos (length content);
          malloc = system.malloc (length content);
          content = content;
        })
        else none
  ]

  -- The argument `body` as the C string that the handlers parse.
  unfoldable pub body_text : Option Bytes → Bytes
  body_text none = system.unwritten
  body_text (some body) = c_str body

  -- What a handler that runs a command leaves: `none` while the command runs.
  abbrev returned_from : Conn Session × Bool → Option (Conn Session)
  returned_from (c, true) = some c
  returned_from (c, false) = none

  -- The call that `handle_request` makes for an endpoint.
  unfoldable pub call_endpoint :
      Endpoint → Bytes → Bytes → Program → Conn Session → Program × Option (Conn Session)
  unfolding opened
  call_endpoint health query body w c = (w, some (handle_health ssl json system.now w.start_time c))
  call_endpoint certinfo query body w c =
      (w, some (handle_certinfo ssl json w.ca_cert w.server_cert c))
  call_endpoint uptime query body w c = (w, some (handle_uptime ssl json system.now w.start_time c))
  call_endpoint exec query body w c =
      (w, returned_from (handle_exec ssl json system.exec_calls body c))
  call_endpoint exec_stream query body w c =
      (w, returned_from (handle_exec_stream ssl json system.exec_calls body c))
  call_endpoint download query body w c = (w, some (handle_download ssl json (opened w) query c))
  call_endpoint tcpforward_get query body w c = (w, some (handle_tcpforward_get ssl w.registry c))
  call_endpoint tcpforward_post query body w c =
      let o = handle_tcpforward_post ssl json system.stale system.forward_calls body w.registry c in
      (record w { registry = o.0 }, some o.1)
  call_endpoint tcpforward_delete query body w c =
      let o = handle_tcpforward_delete ssl query w.registry c in
      (record w { registry = o.0 }, some o.1)

  -- The result 1 of a handler that has returned.
  abbrev handled : Option (Conn Session) → Option (Conn Session × Bool)
  handled none = none
  handled (some c) = some (c, true)

  unfoldable pub run_request :
      Bytes
      → Bytes
      → Bytes
      → Option Bytes
      → Program
      → Conn Session
      → Program × Option (Conn Session × Bool)
  unfolding handle_request call_endpoint body_text
  run_request method path query body w c = elim (handle_request method path) [
    | none ↦ (w, some (c, false))
    | some e ↦ let o = call_endpoint e query (body_text body) w c in (o.0, handled o.1)
  ]

  -- The file that an upload has written.
  unfoldable pub run_upload : Bytes → ℤ → Program → Conn Session → Program × Conn Session
  unfolding handle_upload put
  run_upload query content_length w c =
      let o = handle_upload ssl json system.file_calls query content_length c in
      elim o.1 [
        | none ↦ (w, o.0)
        | some file ↦ (record w { files = put file.0 (some file.1) w.files }, o.0)
      ]

  abbrev ending_result : Ending → Option Bool
  ending_result (returned b) = some b
  ending_result (restarted path) = none

  unfoldable pub run_update :
      Bytes → ℤ → Program → Conn Session → Program × Conn Session × Option Bool
  unfolding handle_update
  run_update query content_length w c =
      let o = handle_update ssl json system.update_calls query content_length c w.files in
      (record w { files = o.files }, o.conn, ending_result o.ending)

  -- `exec_run_pipe` behind the headers that `handle_exec_pipe` has sent.
  unfoldable pub run_pipe : PipeCall → Conn Session → Option (Conn Session)
  unfolding exec_run_pipe
  run_pipe call c =
      elim (exec_run_pipe ssl system.beyond call.raw (system.pipe_started call) call.chunked
        call.content_length (system.pipe_answers call) c.session) [
          | none ↦ none
          | some o ↦ some (record { session = o.0.session; sent = c.sent ++ o.0.sent })
        ]

  unfoldable pub run_exec_pipe :
      Bytes → ℤ → Bool → Program → Conn Session → Program × Option (Conn Session)
  unfolding handle_exec_pipe run_pipe
  run_exec_pipe query content_length chunked w c =
      let o = handle_exec_pipe ssl json query content_length chunked c in
      elim o.1 [ none ↦ (w, some o.0) | some call ↦ (w, run_pipe call o.0) ]

  -- handler.c as server.c sees it.
  abbrev pub program_handlers : Handlers Session Program
  program_handlers = record {
    handle_upload = run_upload;
    handle_update = run_update;
    handle_exec_pipe = run_exec_pipe;
    handle_request = run_request;
  }
