-- ===== src/Tls/Generate/Written.antt =====
-- The six files that `tls_generate_certs` of src/tls.c writes.
use adb_termux_bridge.Base.{
  ℕ, ◌≡◌, refl, ap, ◌∙◌, Bool, true, false, ◌&&◌, Option, some, ◌++◌, arith, if◌then◌else◌, Bytes,
  codes, bytes_eq,
}
use adb_termux_bridge.Tls.{
  Certificate, Openssl, System, File, World, Object, pure, ◌>>=◌, ◌>>◌, print_out, free, touch,
  find_file,
}
use adb_termux_bridge.Tls.Paths.{path_in}
use adb_termux_bridge.Tls.Files.{write_pem_key, write_pem_cert, write_file, after_pem, chmod}
use adb_termux_bridge.Tls.Writes.{touch-disk, free-disk, written, write_file_lem, chmod-written}
use adb_termux_bridge.Tls.Generate.{report, write_all, finish}

-- A call that leaves a text with a mode at `path`, and every other file as it was.
pub record Wrote (path text : Bytes) (mode : ℕ) (w : World) (r : Bool × World) : Type 0 where
  pub ok : r.0 ≡ true
  pub files :
      (q : Bytes)
      → find_file q r.1.disk ≡ (
          if bytes_eq q path
          then some (record { text = text; mode = mode })
          else find_file q w.disk)

pub announce-disk :
    (ok : Bool) (text : Bytes) (w : World)
    → ((if ok then print_out text else pure tt) w).1.disk ≡ w.disk
unfolding print_out
announce-disk true text w = refl
announce-disk false text w = refl

all_true :
    (a b c d e f : Bool)
    → a ≡ true
    → b ≡ true
    → c ≡ true
    → d ≡ true
    → e ≡ true
    → f ≡ true
    → a && (b && (c && (d && (e && f)))) ≡ true
all_true a b c d e f ha hb hc hd he hf = ground arith

module _ (ssl : Openssl) where
  open ssl use {Key, Public}

  unfoldable pub key_file : Object Key → Option File
  key_file k = some (record { text = ssl.pem_of_key k.value; mode = 384 })

  unfoldable pub cert_file : Object (Certificate Public) → Option File
  cert_file c = some (record { text = ssl.pem_of_cert c.value; mode = 420 })

  -- The lookup of a file after the six writes.
  unfoldable pub found :
      Bytes
      → Object Key
      → Object (Certificate Public)
      → Object Key
      → Object (Certificate Public)
      → Object Key
      → Object (Certificate Public)
      → Bytes
      → Option File
      → Option File
  unfolding key_file cert_file
  found dir ca_key ca_cert srv_key srv_cert cli_key cli_cert q before =
      if bytes_eq q (path_in dir (codes "client.crt"))
      then cert_file cli_cert
      else if bytes_eq q (path_in dir (codes "client.key"))
      then key_file cli_key
      else if bytes_eq q (path_in dir (codes "server.crt"))
      then cert_file srv_cert
      else if bytes_eq q (path_in dir (codes "server.key"))
      then key_file srv_key
      else if bytes_eq q (path_in dir (codes "ca.crt"))
      then cert_file ca_cert
      else if bytes_eq q (path_in dir (codes "ca.key"))
      then key_file ca_key
      else before

module _ (ssl : Openssl) (sys : System) (writes : (n : ℕ) (p : Bytes) → sys.can_write n p ≡ true)
    (arrive : (n : ℕ) (t : Bytes) → sys.arrives n t ≡ (t, true)) where
  open ssl use {Key, Public}

  pem-Wrote :
      (path text : Bytes) (mode id : ℕ) (w : World)
      → Wrote path text mode w (
          (touch id
              >> write_file sys path text
              >>= after_pem ssl sys path mode
              >>= report ssl sys path)
            w)
  unfolding after_pem report
  pem-Wrote path text mode id w =
      let u = (touch id w).1 in
      let same : (q : Bytes)
          → find_file q (chmod path mode (written sys path text u)).1.disk ≡ (
              if bytes_eq q path
              then some (record { text = text; mode = mode })
              else find_file q w.disk) =
        λ q.
          chmod-written sys path text mode u q
          ∙ ap
              (λ d.
                if bytes_eq q path
                then some (record { text = text; mode = mode })
                else find_file q d)
              (touch-disk id w) in
      rw (write_file_lem sys writes arrive path text u) (record { ok = refl; files = same })

  write_pem_key-Wrote :
      (path : Bytes) (k : Object Key) (w : World)
      → Wrote path
          (ssl.pem_of_key k.value)
          384
          w
          ((write_pem_key ssl sys path k >>= report ssl sys path) w)
  unfolding write_pem_key
  write_pem_key-Wrote path k w = pem-Wrote path (ssl.pem_of_key k.value) 384 k.id w

  write_pem_cert-Wrote :
      (path : Bytes) (c : Object (Certificate Public)) (w : World)
      → Wrote path
          (ssl.pem_of_cert c.value)
          420
          w
          ((write_pem_cert ssl sys path c >>= report ssl sys path) w)
  unfolding write_pem_cert
  write_pem_cert-Wrote path c w = pem-Wrote path (ssl.pem_of_cert c.value) 420 c.id w

  write_all-found :
      (dir : Bytes) (ca_key : Object Key) (ca_cert : Object (Certificate Public))
      (srv_key : Object Key) (srv_cert : Object (Certificate Public)) (cli_key : Object Key)
      (cli_cert : Object (Certificate Public)) (w : World) (q : Bytes)
      → (let r = write_all ssl sys dir ca_key ca_cert srv_key srv_cert cli_key cli_cert w in
          (r.0 ≡ true)
          × (find_file q r.1.disk
              ≡ found ssl dir ca_key ca_cert srv_key srv_cert cli_key cli_cert q
                  (find_file q w.disk)))
  unfolding write_all found key_file cert_file
  write_all-found dir ca_key ca_cert srv_key srv_cert cli_key cli_cert w q =
      let p1 = path_in dir (codes "ca.key") in
      let e1 = write_pem_key-Wrote p1 ca_key w in
      let w1 = ((write_pem_key ssl sys p1 ca_key >>= report ssl sys p1) w).1 in
      let p2 = path_in dir (codes "ca.crt") in
      let e2 = write_pem_cert-Wrote p2 ca_cert w1 in
      let w2 = ((write_pem_cert ssl sys p2 ca_cert >>= report ssl sys p2) w1).1 in
      let p3 = path_in dir (codes "server.key") in
      let e3 = write_pem_key-Wrote p3 srv_key w2 in
      let w3 = ((write_pem_key ssl sys p3 srv_key >>= report ssl sys p3) w2).1 in
      let p4 = path_in dir (codes "server.crt") in
      let e4 = write_pem_cert-Wrote p4 srv_cert w3 in
      let w4 = ((write_pem_cert ssl sys p4 srv_cert >>= report ssl sys p4) w3).1 in
      let p5 = path_in dir (codes "client.key") in
      let e5 = write_pem_key-Wrote p5 cli_key w4 in
      let w5 = ((write_pem_key ssl sys p5 cli_key >>= report ssl sys p5) w4).1 in
      let p6 = path_in dir (codes "client.crt") in
      let e6 = write_pem_cert-Wrote p6 cli_cert w5 in
      (
        all_true _ _ _ _ _ _ e1.ok e2.ok e3.ok e4.ok e5.ok e6.ok,
        e6.files q
            ∙ ap (λ t. if bytes_eq q p6 then cert_file ssl cli_cert else t)
                (e5.files q
                  ∙ ap (λ t. if bytes_eq q p5 then key_file ssl cli_key else t)
                      (e4.files q
                        ∙ ap (λ t. if bytes_eq q p4 then cert_file ssl srv_cert else t)
                            (e3.files q
                              ∙ ap (λ t. if bytes_eq q p3 then key_file ssl srv_key else t)
                                  (e2.files q
                                    ∙ ap (λ t. if bytes_eq q p2 then cert_file ssl ca_cert else t)
                                        (e1.files q))))),
      )

  -- The six frees and the message change no file.
  pub finish-found :
      (dir : Bytes) (ca_key : Object Key) (ca_cert : Object (Certificate Public))
      (srv_key : Object Key) (srv_cert : Object (Certificate Public)) (cli_key : Object Key)
      (cli_cert : Object (Certificate Public)) (w : World) (q : Bytes)
      → (let r = finish ssl sys dir ca_key ca_cert srv_key srv_cert cli_key cli_cert w in
          (r.0 ≡ true)
          × (find_file q r.1.disk
              ≡ found ssl dir ca_key ca_cert srv_key srv_cert cli_key cli_cert q
                  (find_file q w.disk)))
  unfolding finish
  finish-found dir ca_key ca_cert srv_key srv_cert cli_key cli_cert w q =
      let r = write_all ssl sys dir ca_key ca_cert srv_key srv_cert cli_key cli_cert w in
      let wrote = write_all-found dir ca_key ca_cert srv_key srv_cert cli_key cli_cert w q in
      let w1 = (free ca_key.id r.1).1 in
      let w2 = (free ca_cert.id w1).1 in
      let w3 = (free srv_key.id w2).1 in
      let w4 = (free srv_cert.id w3).1 in
      let w5 = (free cli_key.id w4).1 in
      let w6 = (free cli_cert.id w5).1 in
      let disks =
        announce-disk r.0 (codes "Certificates generated in " ++ (dir ++ codes "\n")) w6
        ∙ free-disk cli_cert.id w5
        ∙ free-disk cli_key.id w4
        ∙ free-disk srv_cert.id w3
        ∙ free-disk srv_key.id w2
        ∙ free-disk ca_cert.id w1
        ∙ free-disk ca_key.id r.1 in
      (wrote.0, ap (find_file q) disks ∙ wrote.1)
