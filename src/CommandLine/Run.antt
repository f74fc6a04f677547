-- ===== src/CommandLine/Run.antt =====
-- From the options to the exit status in `main` of src/main.c, without SECURE_BUILD.
use adb_termux_bridge.Base.{
  ℕ, Bool, true, false, none, some, ◌++◌, take, ℤ, negsuc, Bytes, codes, print_int,
}
use adb_termux_bridge.CommandLine.{
  Action, print_usage, unknown_option, conflicting_flags, generate_certs, print_cert, print_ca,
  print_fingerprint, print_pubkey, save_to_fingerprint_dir, embed_c_header, serve,
}
use adb_termux_bridge.Tls.{
  Certificate, Openssl, System, Object, M, pure, ◌>>=◌, ◌>>◌, print_err, print_out, free,
}
use adb_termux_bridge.Tls.Paths.{tls_build_paths}
use adb_termux_bridge.Tls.Context.{Context, Created, tls_create_server_ctx}
use adb_termux_bridge.Tls.Generate.{tls_generate_certs}
use adb_termux_bridge.Tls.Show.{
  tls_print_cert, tls_print_ca, tls_print_fingerprint, tls_print_pubkey_hex,
}
use adb_termux_bridge.Tls.Embed.{tls_embed_c_header}
use adb_termux_bridge.Tls.Copy.{tls_save_to_fingerprint_dir}

-- `print_usage`
unfoldable pub usage : Bytes → Bytes
usage program =
    codes "Usage: "
    ++ (program
        ++ (codes " [options]\n"
            ++ (codes "Options:\n"
                ++ (codes "  --daemon               Run as daemon (fork to background)\n"
                    ++ (codes "  --init-certs           Generate TLS certificates and exit\n"
                        ++ (codes "  --cert-dir <dir>       Certificate directory\n"
                            ++ (codes
                                  "                         (default: ~/.termux-adb-bridge/certs)\n"
                                ++ (codes
                                      "  --address <addr>       Bind address (default: 127.0.0.1)\n"
                                    ++ (codes
                                          "  --port <port>          Bind port (default: 10099)\n"
                                        ++ (codes
                                              "  --cert                 Print server certificate (PEM) to stdout\n"
                                            ++ (codes
                                                  "  --ca                   Print CA certificate (PEM) to stdout\n"
                                                ++ (codes
                                                      "  --fingerprint          Print SHA256 fingerprint of server cert\n"
                                                    ++ (codes
                                                          "  --modulus              Print ED25519 public key hex\n"
                                                        ++ (codes
                                                            "  --save-certs            Save PEM certs to <cert-dir>/<fingerprint>/\n"
                                                            ++ (codes "  --embed-c-header <file>\n"
                                                            ++ (codes
                                                            "                         Generate C header with embedded DER certs\n"
                                                            ++ (codes
                                                            "  --help                 Show this help\n")))))))))))))))))

-- `return ok ? 0 : 1`
unfoldable pub status_of : Bool → ℕ
status_of true = 0
status_of false = 1

unfoldable pub generated_lines : Bytes → Bytes
generated_lines dir =
    codes "Certificates generated successfully in: "
    ++ (dir
        ++ (codes "\n  ca.crt      - CA certificate (trust anchor)\n"
            ++ (codes "  ca.key      - CA private key\n"
                ++ (codes "  server.crt  - Server certificate\n"
                    ++ (codes "  server.key  - Server private key\n"
                        ++ (codes "  client.crt  - Client certificate (for desktop)\n"
                            ++ codes "  client.key  - Client private key (for desktop)\n"))))))

-- `return r`: the status of -1 is 255.
unfoldable pub after_generate : Bytes → Bool → M ℕ
unfolding generated_lines
after_generate dir true = print_out (generated_lines dir) >> pure 0
after_generate dir false = pure 255

-- A process whose standard streams are /dev/null.
abbrev pub muted : {A : Type 0} → M A → M A
muted m w = let r = m w in (r.0, record r.1 { out = w.out; err = w.err })

-- `fork`: an error, a child with its number, or the child itself.
pub data Fork : Type 0 where
  fork_failed in_child : Fork
  forked : ℤ → Fork

-- The server in use: `g_server`, and the strings that the handlers were given.
pub record Setup (ssl : Openssl) : Type 0 where
  pub ssl_ctx : Object (Context ssl)
  pub address : Bytes
  pub port : ℤ
  pub cert_dir : Bytes
  pub ca_cert : Object (Certificate ssl.Public)
  pub server_cert : Object (Certificate ssl.Public)
  pub listen_fd : ℤ

-- `run` is `server_start` until it returns, with `forward_shutdown_all`: Server.Start and Forward. The
-- status is 0 whatever `server_start` returns.
module _ (ssl : Openssl) (sys : System) (run : Setup ssl → M (Unit {0})) where
  open ssl use {Key, Public}

  announce : Bool → Bytes → Bytes → ℤ → M (Unit {0})
  announce true dir address port = pure tt
  announce false dir address port = print_out (
      codes "Starting server on "
      ++ (address
          ++ (codes ":" ++ (print_int port ++ (codes "\nCertificates: " ++ (dir ++ codes "\n"))))))

  setup :
      Bytes
      → Bytes
      → ℤ
      → Object (Context ssl) × Object (Certificate Public) × Object (Certificate Public)
      → Setup ssl
  setup dir address port r = record {
    ssl_ctx = r.0;
    address = take 63 address;
    port = port;
    cert_dir = dir;
    ca_cert = r.1;
    server_cert = r.2;
    listen_fd = negsuc 0;
  }

  after_create : Bool → Bytes → Bytes → ℤ → Created ssl sys → M ℕ
  after_create daemon_mode dir address port none =
      print_err (codes "Failed to create SSL context\n") >> pure 1
  after_create daemon_mode dir address port (some r) = do
    announce daemon_mode dir address port
    run (setup dir address port r)
    free r.0.id
    free r.1.id
    free r.2.id
    pure 0

  -- From `tls_init`, which cannot fail, on.
  serve_with : Bool → Bytes → Bytes → ℤ → M ℕ
  unfolding announce setup after_create
  serve_with daemon_mode dir address port =
      tls_create_server_ctx ssl sys (tls_build_paths dir)
      >>= after_create daemon_mode dir address port

  start_daemon : Fork → Bytes → Bytes → ℤ → M ℕ
  unfolding serve_with
  start_daemon fork_failed dir address port = print_err (codes "fork: " ++ sys.error_text) >> pure 1
  start_daemon (forked pid) dir address port =
      print_out (codes "Daemon started with PID " ++ (print_int pid ++ codes "\n")) >> pure 0
  start_daemon in_child dir address port = muted (serve_with true dir address port)

  unfoldable pub perform : Fork → Bytes → Action → M ℕ
  unfolding usage status_of after_generate start_daemon serve_with
  perform fork program print_usage = print_err (usage program) >> pure 0
  perform fork program (unknown_option arg) =
      print_err (codes "Unknown option: " ++ (arg ++ (codes "\n" ++ usage program))) >> pure 1
  perform fork program conflicting_flags = print_err (codes "Error: conflicting flags\n") >> pure 1
  perform fork program (generate_certs dir) = tls_generate_certs ssl sys dir >>= after_generate dir
  perform fork program (print_cert dir) = do ok ← tls_print_cert ssl sys dir; pure (status_of ok)
  perform fork program (print_ca dir) = do ok ← tls_print_ca ssl sys dir; pure (status_of ok)
  perform fork program (print_fingerprint dir) = do
    ok ← tls_print_fingerprint ssl sys dir
    pure (status_of ok)
  perform fork program (print_pubkey dir) = do
    ok ← tls_print_pubkey_hex ssl sys dir
    pure (status_of ok)
  perform fork program (save_to_fingerprint_dir dir) = do
    ok ← tls_save_to_fingerprint_dir ssl sys dir
    pure (status_of ok)
  perform fork program (embed_c_header dir path) = do
    ok ← tls_embed_c_header ssl sys dir path
    pure (status_of ok)
  perform fork program (serve true dir address port) = start_daemon fork dir address port
  perform fork program (serve false dir address port) = serve_with false dir address port
