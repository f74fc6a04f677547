-- ===== src/Tls/Trust.antt =====
-- From `tls_generate_certs` to `tls_create_server_ctx` of src/tls.c: the files that the one writes are
-- those that the other reads.
use adb_termux_bridge.Base.{
  ℕ, ◌≤◌, ◌≡◌, refl, sym, ◌∙◌, subst, true, false, ◌&&◌, Option, none, some, [], ◌∷◌, arith, length,
  Bytes, codes, bytes_eq, bytes_eq_refl,
}
use adb_termux_bridge.Tls.{Certificate, Openssl, System, File, World, Object, find_file}
use adb_termux_bridge.Tls.Paths.{path_in, path_in-bytes_eq, mkdir_p, tls_build_paths}
use adb_termux_bridge.Tls.Files.{
  filled_in, generate_ed25519_key, made, made-live, made-keeps, generate_ed25519_key-some,
  make_cert-some,
}
use adb_termux_bridge.Tls.Context.{
  Context, configured, tls_create_server_ctx, tls_create_server_ctx_lem,
}
use adb_termux_bridge.Tls.Generate.Written.{found, key_file, cert_file, finish-found}
use adb_termux_bridge.Tls.Generate.{
  finish, tls_generate_certs, with_ca_key, with_ca_cert, with_srv_key, with_srv_cert, with_cli_key,
  with_cli_cert,
}

-- Two names of files for which there is room are two files.
other :
    (dir a b : Bytes)
    → length dir ≤ 1012
    → length a ≤ 10
    → length b ≤ 10
    → bytes_eq a b ≡ false
    → bytes_eq (path_in dir a) (path_in dir b) ≡ false
other dir a b h k l e = path_in-bytes_eq dir a b (omega arith) (omega arith) ∙ e

module _ (ssl : Openssl) where
  open ssl use {Key, Public}

  -- The files of the server, its authority and the client are each the ones written last at their
  -- paths.
  found-names :
      (dir : Bytes) (a c e : Object Key) (b d f : Object (Certificate Public))
      (before : Option File)
      → length dir ≤ 1012
      → (found ssl dir a b c d e f (path_in dir (codes "server.crt")) before ≡ cert_file ssl d)
        × (found ssl dir a b c d e f (path_in dir (codes "server.key")) before ≡ key_file ssl c)
        × (found ssl dir a b c d e f (path_in dir (codes "ca.crt")) before ≡ cert_file ssl b)
        × (found ssl dir a b c d e f (path_in dir (codes "client.crt")) before ≡ cert_file ssl f)
  unfolding found
  found-names dir a c e b d f before h =
      let cli_crt = codes "client.crt" in
      let cli_key = codes "client.key" in
      let srv_crt = codes "server.crt" in
      let srv_key = codes "server.key" in
      let ca_crt = codes "ca.crt" in
      (
        rw (
          other dir srv_crt cli_crt h (omega arith) (omega arith) (unfold bytes_eq in refl),
          other dir srv_crt cli_key h (omega arith) (omega arith) (unfold bytes_eq in refl),
          bytes_eq_refl (path_in dir srv_crt),
        ),
        rw (
          other dir srv_key cli_crt h (omega arith) (omega arith) (unfold bytes_eq in refl),
          other dir srv_key cli_key h (omega arith) (omega arith) (unfold bytes_eq in refl),
          other dir srv_key srv_crt h (omega arith) (omega arith) (unfold bytes_eq in refl),
          bytes_eq_refl (path_in dir srv_key),
        ),
        rw (
          other dir ca_crt cli_crt h (omega arith) (omega arith) (unfold bytes_eq in refl),
          other dir ca_crt cli_key h (omega arith) (omega arith) (unfold bytes_eq in refl),
          other dir ca_crt srv_crt h (omega arith) (omega arith) (unfold bytes_eq in refl),
          other dir ca_crt srv_key h (omega arith) (omega arith) (unfold bytes_eq in refl),
          bytes_eq_refl (path_in dir ca_crt),
        ),
        rw (bytes_eq_refl (path_in dir cli_crt)),
      )

module _ (ssl : Openssl) (sys : System) where
  open ssl use {Key, Public}

  -- `x` names the authority as its issuer and bears its signature.
  abbrev pub IssuedBy : Certificate Public → Certificate Public → Type 0
  IssuedBy ca x = (x.signer ≡ ca.key) × (x.issuer ≡ ca.subject)

  -- A context that presents a certificate issued by the authority that it trusts, with the private key
  -- of that certificate, and that asks its clients for one.
  pub record Serves (ctx : Context ssl) (ca : Certificate Public) : Type 0 where
    pub authority_only : ctx.trusted ≡ ca ∷ []
    pub marked : ca.is_ca ≡ true
    pub issued : IssuedBy ca ctx.certificate
    pub matches : ctx.certificate.key ≡ ssl.public_half ctx.private_key
    pub asks : ctx.verify_peer && ctx.fail_if_no_peer_cert ≡ true

  -- What `tls_generate_certs` wrote is what the server starts with, and a client that presents the
  -- certificate written for it presents one that the server's authority issued.
  pub Works : Bytes → World → Type 0
  Works dir v =
      (r : Object (Context ssl) × Object (Certificate Public) × Object (Certificate Public))
      × (x : Certificate Public) × (f : File) × ((tls_create_server_ctx ssl sys
            (tls_build_paths dir) v).0
          ≡ some r)
      × Serves r.0.value r.1.value
      × (find_file (tls_build_paths dir).client_cert v.disk ≡ some f)
      × (ssl.pem_to_cert f.text ≡ some x)
      × IssuedBy r.1.value x

module _ (ssl : Openssl) (sys : System) (key : ℕ → ssl.Key)
    (keys : (n : ℕ) → ssl.keygen n ≡ some (key n)) (certs : (n : ℕ) → ssl.x509_new n ≡ true) where
  open ssl use {Key, Public}

  key_at : World → Object Key
  key_at w = record { id = w.next; value = key w.calls }

  authority : World → Object (Certificate Public)
  authority w = record {
    id = (made w).next;
    value = filled_in ssl sys (key w.calls) none none (codes "Bridge CA") true 1;
  }

  -- The certificate for the key that was made at `v`, with an authority made at `w`.
  signed : World → World → Bytes → ℕ → Object (Certificate Public)
  signed w v cn serial = record {
    id = (made v).next;
    value = filled_in ssl sys (key v.calls) (some (key_at w)) (some (authority w)) cn false serial;
  }

  -- All six objects are made, and the files are written.
  generate-finish :
      (dir : Bytes) (w : World)
      → (let r = generate_ed25519_key ssl sys w in with_ca_key ssl sys dir r.0 r.1) ≡ (
          let v = made (made w) in
          let u = made (made v) in
          finish ssl sys dir
            (key_at w)
            (authority w)
            (key_at v)
            (signed w v (codes "127.0.0.1") 2)
            (key_at u)
            (signed w u (codes "client") 3)
            (made (made u)))
  unfolding with_ca_key with_ca_cert with_srv_key with_srv_cert with_cli_key with_cli_cert key_at
      authority signed
  generate-finish dir w =
      let v = made (made w) in
      let u = made (made v) in
      let ca_live2 = made-keeps w.next (made w) (made-live w) in
      let ca_live3 = made-keeps w.next v ca_live2 in
      let ca_live5 = made-keeps w.next u (made-keeps w.next (made v) ca_live3) in
      let cert_live3 = made-keeps (made w).next v (made-live (made w)) in
      let cert_live5 = made-keeps (made w).next u (made-keeps (made w).next (made v) cert_live3) in
      rw (
        generate_ed25519_key-some ssl sys (key w.calls) w (keys _),
        make_cert-some ssl sys (key_at w) none none (codes "Bridge CA") true 1 (made w) (certs _)
            (made-live w) tt tt,
        generate_ed25519_key-some ssl sys (key v.calls) v (keys _),
        make_cert-some ssl sys (key_at v) (some (key_at w)) (some (authority w)) (codes "127.0.0.1")
            false 2 (made v) (certs _) (made-live v) ca_live3 cert_live3,
        generate_ed25519_key-some ssl sys (key u.calls) u (keys _),
        make_cert-some ssl sys (key_at u) (some (key_at w)) (some (authority w)) (codes "client")
            false 3 (made u) (certs _) (made-live u) ca_live5 cert_live5,
      )

  module _ (writes : (n : ℕ) (p : Bytes) → sys.can_write n p ≡ true)
      (arrive : (n : ℕ) (t : Bytes) → sys.arrives n t ≡ (t, true))
      (reads : (n : ℕ) (p : Bytes) → sys.can_read n p ≡ true)
      (contexts : (n : ℕ) → ssl.ssl_ctx_new n ≡ true)
      (cert_trip : (x : Certificate Public) → ssl.pem_to_cert (ssl.pem_of_cert x) ≡ some x)
      (key_trip : (k : Key) → ssl.pem_to_key (ssl.pem_of_key k) ≡ some k)
      (takes_cert : (x : Certificate Public) → ssl.accepts_cert x ≡ true)
      (takes_key : (x : Certificate Public) (k : Key)
        → x.key ≡ ssl.public_half k
        → ssl.accepts_key x k ≡ true) where
    Works-found :
        (dir : Bytes) (v : World) (key : Object Key) (ca srv cli : Object (Certificate Public))
        → find_file (path_in dir (codes "server.crt")) v.disk ≡ cert_file ssl srv
        → find_file (path_in dir (codes "server.key")) v.disk ≡ key_file ssl key
        → find_file (path_in dir (codes "ca.crt")) v.disk ≡ cert_file ssl ca
        → find_file (path_in dir (codes "client.crt")) v.disk ≡ cert_file ssl cli
        → srv.value.key ≡ ssl.public_half key.value
        → ca.value.is_ca ≡ true
        → IssuedBy ssl sys ca.value srv.value
        → IssuedBy ssl sys ca.value cli.value
        → Works ssl sys dir v
    unfolding Works tls_build_paths cert_file key_file
    Works-found dir v key ca srv cli fs fk fa fc own marked by_ca client_by_ca =
        let paths = tls_build_paths dir in
        let (r, created, ctx, trusted, _) =
          tls_create_server_ctx_lem ssl sys paths v _ _ _ srv.value key.value ca.value contexts
            reads fs fk fa (cert_trip _) (key_trip _) (cert_trip _) (takes_cert _)
            (takes_key _ _ own) in
        let serves : Serves ssl sys (configured ssl sys srv.value key.value ca.value) ca.value =
          unfold configured in
          record {
            authority_only = refl;
            marked = marked;
            issued = by_ca;
            matches = own;
            asks = refl;
          } in
        (
          r,
          cli.value,
          record { text = ssl.pem_of_cert cli.value; mode = 420 },
          created,
          subst (λ t. Serves ssl sys t r.1.value) (sym ctx)
              (subst (λ t. Serves ssl sys (configured ssl sys srv.value key.value ca.value) t)
                (sym trusted) serves),
          fc,
          cert_trip cli.value,
          subst (λ t. IssuedBy ssl sys t cli.value) (sym trusted) client_by_ca,
        )

    finish-Works :
        (dir : Bytes) (w v u : World)
        → length dir ≤ 1012
        → (let o =
              finish ssl sys dir
                (key_at w)
                (authority w)
                (key_at v)
                (signed w v (codes "127.0.0.1") 2)
                (key_at u)
                (signed w u (codes "client") 3)
                (made (made u)) in
            (o.0 ≡ true) × Works ssl sys dir o.1)
    unfolding Works
    finish-Works dir w v u h =
        let srv = signed w v (codes "127.0.0.1") 2 in
        let cli = signed w u (codes "client") 3 in
        let after = made (made u) in
        let o = finish ssl sys dir (key_at w) (authority w) (key_at v) srv (key_at u) cli after in
        let at : (q : Bytes)
            → find_file q o.1.disk
              ≡ found ssl dir (key_at w) (authority w) (key_at v) srv (key_at u) cli q
                  (find_file q after.disk) =
          λ q.
            (finish-found ssl sys writes arrive dir (key_at w) (authority w) (key_at v) srv
              (key_at u) cli after q).1 in
        let names = λ (before : Option File).
          found-names ssl dir (key_at w) (key_at v) (key_at u) (authority w) srv cli before h in
        (
          (finish-found ssl sys writes arrive dir (key_at w) (authority w) (key_at v) srv (key_at u)
              cli after []).0,
          Works-found dir o.1 (key_at v) (authority w) srv cli (at _ ∙ (names _).0)
              (at _ ∙ (names _).1) (at _ ∙ (names _).2) (at _ ∙ (names _).3)
              (unfold signed key_at filled_in in refl) (unfold authority filled_in in refl)
              (unfold signed authority key_at filled_in in (refl, refl))
              (unfold signed authority key_at filled_in in (refl, refl)),
        )

    -- Where nothing fails and the directory's name leaves room for the names of the files: the
    -- function returns 0, and the server can be started from the six files. Its context then trusts
    -- the new authority alone, presents a certificate that this authority issued, with its private
    -- key, and asks its clients for a certificate; and the one written for the client was issued by
    -- the same authority.
    pub tls_generate_certs-served :
        (dir : Bytes) (w : World)
        → length dir ≤ 1012
        → ((tls_generate_certs ssl sys dir w).0 ≡ true)
          × Works ssl sys dir (tls_generate_certs ssl sys dir w).1
    unfolding tls_generate_certs
    tls_generate_certs-served dir w h =
        let w0 = (mkdir_p sys dir w).1 in
        let v = made (made w0) in
        let u = made (made v) in
        subst (λ t. (t.0 ≡ true) × Works ssl sys dir t.1) (sym (generate-finish dir w0))
          (finish-Works dir w0 v u h)
