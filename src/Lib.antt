-- ===== src/Lib.antt =====
-- adb-termux-bridge: a TLS server that runs shell commands, moves files and forwards TCP ports for
-- clients with a certificate. This library models its C code, part by part, and proves what the parts
-- promise.
--
-- The parts, and where they are modelled:
-- - Base: numbers, lists, integers, C strings, and numbers as text (printf, strtol). A `char *` is the
--   list of its bytes without the NUL; an `int` or a `long` is an integer of Base/Int, with strtol's
--   clamping written out in Base/Digits.
-- - Buffer: `snprintf` at a running offset into an array of a fixed size.
-- - Ssl: the calls of OpenSSL that move bytes, as an interface with the documented bounds of a read. A
--   connection keeps the list of all buffers given to SSL_write.
-- - Forward (src/forward.c): the list of TCP forwards. `forward_add`, `forward_remove`,
--   `forward_list_json` and `forward_shutdown_all` have their names; the list's mutex makes each of
--   them one step. The system calls of `forward_add` are an argument, a record of their answers. The
--   loop of `relay_thread` and `connect_unix` are in Forward/Relay; `accept_thread`, the end of
--   `relay_thread` and the operations on the list, as events in any order, in Forward/Threads.
-- - Http (src/server.c): reading a request. `parse_request_line` in Http/RequestLine,
--   `get_content_length` and `is_chunked` in Http/Headers, `read_until_crnlcrnl` in Http/Reading,
--   `read_body` in Http/Body.
-- - Chunk (src/handler.c): `send_chunk`, `send_chunk_final`, `send_chunked_headers` and
--   `stream_callback`.
-- - Json: the calls of cJSON that the handlers make, as an interface.
-- - Executor (src/executor.c): `exec_run` in Executor/Capture, `exec_run_stream` in Executor/Stream,
--   with what src/handler.c sends around it, and `exec_run_pipe` in Executor/Pipe, with its request body
--   reader in Executor/BodyReader and the framing of its output in Executor/Output. What select, poll,
--   read, write and waitpid answer in each round of a loop is an argument, a list of rounds.
-- - Handler (src/handler.c): the answers in Handler/Answers, then an endpoint or a few in each file:
--   `handle_upload`, `handle_update`, `handle_exec` and `handle_exec_stream` (Handler/Exec),
--   `handle_exec_pipe` (Handler/Pipe), `handle_tcpforward_*` (Handler/Forwards), `handle_download`,
--   `handle_uptime`, `handle_health` and `handle_certinfo` (Handler/Info). Files, the clock and
--   certificates are arguments.
-- - Server: `handle_request` of src/handler.c in Server/Route, `handle_client` of src/server.c in
--   Server/Client, over the handlers as a record, `kill_previous_instance` and `server_start` in
--   Server/Start. Server/Program fills that record with the functions of Handler, on the state that
--   the connections share, and has `handler_set_*`; what the system answers to the handlers of one
--   request is a record of functions.
-- - Tls (src/tls.c): the files and the objects of OpenSSL that are not freed yet. `mkdir_p` and
--   `tls_build_paths` in Tls/Paths, PEM files and `make_cert` in Tls/Files, `tls_generate_certs` in
--   Tls/Generate, `tls_create_server_ctx` in Tls/Context, `tls_print_*` in Tls/Show,
--   `tls_embed_c_header` in Tls/Embed, `tls_save_to_fingerprint_dir` in Tls/Copy, and the texts in
--   hexadecimal in Tls/Hex. OpenSSL and the file system are two records of functions, which may answer
--   every call differently.
-- - CommandLine (src/main.c): the options and the choice of what `main` does, and from there to the
--   exit status in CommandLine/Run, with `server_start` as an argument.
-- - Tests: runs on concrete inputs.
--
-- How they interact: `handle_client` reads a request with Http and hands it to a handler; the handlers
-- answer over Ssl, in chunks with Chunk; `exec_run_pipe` reads the request's body with
-- Executor/BodyReader, which understands what Chunk writes; Handler/Forwards works on the list of
-- Forward, and Handler/Exec runs the loops of Executor. `main` makes the context of the server from the
-- files that it wrote in another run.
--
-- Fuel and bounds: the loop of `read_until_crnlcrnl` recurs on the room left in its buffer, those of
-- `read_body`, `handle_upload` and `handle_update` on the number of bytes wanted, and those of
-- `stream_callback`, `handle_exec_pipe` and the SSE framing on the length of their data; each round
-- uses up at least one, and the theorems are about the functions with that fuel. The loops of
-- src/executor.c recur on the list of their rounds and have no result if the rounds are used up. The
-- copy of a file takes one round more than it has bytes at most.
-- `g_next_id` is an `int` that is not modelled past its range, and numbers in JSON are exact.
--
-- Not modelled: src/cJSON.c and cJSON.h, a copy of another project's library; OpenSSL; the
-- signal handler of `main`, and the SECURE_BUILD variant; what a child process does. A thread of
-- src/forward.c is one event from one use of its node to the next; what it does after a use of a
-- freed node is not followed.
pub mod Base
pub mod Buffer
pub mod Chunk
pub mod CommandLine
pub mod Executor
pub mod Forward
pub mod Handler
pub mod Http
pub mod Json
pub mod Server
pub mod Ssl
pub mod Tests
pub mod Tls
