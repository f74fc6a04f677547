-- ===== src/Tls/Context.antt =====
-- `tls_create_server_ctx` of src/tls.c: the context of the server, with every object given back on
-- every path that fails. Without SECURE_BUILD.
use adb_termux_bridge.Base.{
  ℕ, ◌+◌, ◌≡◌, refl, ◌∙◌, subst, inl, inr, Bool, true, false, not, Option, none, some, List, [],
  ◌∷◌, ◌++◌, arith, if◌then◌else◌, Bool-cases, Bytes, codes,
}
use adb_termux_bridge.Tls.{
  Certificate, Openssl, System, File, World, Object, M, pure, ◌>>=◌, ◌>>◌, ask, print_err, is_live,
  free, touch, alloc, Produced, free_first, free_second, touch_lem, find_file,
}
use adb_termux_bridge.Tls.Paths.{CertPaths}
use adb_termux_bridge.Tls.Files.{
  pem_file_to_x509, pem_file_to_pkey, pem_file_to_x509-Produced, made, pem_file_to_x509-some,
  pem_file_to_pkey-some, pem_file_to_pkey-Produced,
}

-- What the function sets in an `SSL_CTX`.
pub record Context (ssl : Openssl) : Type 0 where
  pub certificate : Certificate ssl.Public
  pub private_key : ssl.Key
  pub trusted : List (Certificate ssl.Public)
  pub min_version : ℕ
  pub max_version : ℕ
  pub verify_peer : Bool
  pub fail_if_no_peer_cert : Bool
  pub verify_depth : ℕ

module _ (ssl : Openssl) (sys : System) where
  open ssl use {Key, Public}

  -- The context, with `*out_ca` and `*out_cert`.
  abbrev pub Created : Type 0
  Created =
      Option (Object (Context ssl) × Object (Certificate Public) × Object (Certificate Public))

  unfoldable pub configured : Certificate Public → Key → Certificate Public → Context ssl
  configured cert key ca = record {
    certificate = cert;
    private_key = key;
    trusted = ca ∷ [];
    min_version = 0x303;
    max_version = 0x304;
    verify_peer = true;
    fail_if_no_peer_cert = true;
    verify_depth = 1;
  }

  -- The label `fail`.
  give_up :
      Bytes → ℕ → Object (Certificate Public) → Object Key → Object (Certificate Public) → M Created
  give_up text ctx cert key ca = do
    print_err text
    free key.id
    free cert.id
    free ca.id
    free ctx
    pure none

  -- From `SSL_CTX_use_certificate` on.
  settle : ℕ → Object (Certificate Public) → Object Key → Object (Certificate Public) → M Created
  settle ctx cert key ca =
      if not (ssl.accepts_cert cert.value)
      then give_up (codes "Failed to set server cert\n") ctx cert key ca
      else if not (ssl.accepts_key cert.value key.value)
      then give_up (codes "Failed to set server key\n") ctx cert key ca
      else do
        touch ctx
        touch ca.id
        free key.id
        pure
            (some (record { id = ctx; value = configured cert.value key.value ca.value }, ca, cert))

  with_ca :
      ℕ
      → Object (Certificate Public)
      → Object Key
      → Option (Object (Certificate Public))
      → M Created
  with_ca ctx cert key none = do
    print_err (codes "Failed to load CA cert\n")
    free key.id
    free cert.id
    free ctx
    pure none
  with_ca ctx cert key (some ca) = settle ctx cert key ca

  with_key : CertPaths → ℕ → Object (Certificate Public) → Option (Object Key) → M Created
  with_key paths ctx cert none = do
    print_err (codes "Failed to load server key\n")
    free cert.id
    free ctx
    pure none
  with_key paths ctx cert (some key) =
      pem_file_to_x509 ssl sys paths.ca_cert >>= with_ca ctx cert key

  with_cert : CertPaths → ℕ → Option (Object (Certificate Public)) → M Created
  with_cert paths ctx none = do
    print_err (codes "Failed to load server cert\n")
    free ctx
    pure none
  with_cert paths ctx (some cert) =
      pem_file_to_pkey ssl sys paths.server_key >>= with_key paths ctx cert

  with_ctx : CertPaths → Bool → M Created
  with_ctx paths false = print_err (codes "SSL_CTX_new failed\n") >> pure none
  with_ctx paths true = do
    ctx ← alloc
    cert ← pem_file_to_x509 ssl sys paths.server_cert
    with_cert paths ctx cert

  unfoldable pub tls_create_server_ctx : CertPaths → M Created
  unfolding ask give_up configured settle with_ca with_key with_cert with_ctx
  tls_create_server_ctx paths = ask ssl.ssl_ctx_new >>= with_ctx paths

  -- Against the objects `live` of the caller: no fault, nothing left behind by a failure, and after a
  -- success the context and the two certificates that the caller is given.
  abbrev pub Balanced : List ℕ → ℕ → Created × World → Type 0
  Balanced live faults (none, v) = (v.faults ≡ faults) × (v.live ≡ live)
  Balanced live faults (some r, v) =
      (v.faults ≡ faults) × (v.live ≡ r.1.id ∷ r.2.id ∷ r.0.id ∷ live)

  -- The numbers of four objects made one after the other, the last first.
  abbrev four_from : ℕ → List ℕ → List ℕ
  four_from n live = (n + 3) ∷ (n + 2) ∷ (n + 1) ∷ n ∷ live

  give_up-Balanced :
      (text : Bytes) (n : ℕ) (live : List ℕ) (cert : Object (Certificate Public)) (key : Object Key)
      (ca : Object (Certificate Public)) (w : World)
      → cert.id ≡ n + 1
      → key.id ≡ n + 2
      → ca.id ≡ n + 3
      → w.live ≡ four_from n live
      → Balanced live w.faults (give_up text n cert key ca w)
  unfolding give_up print_err
  give_up-Balanced text n live cert key ca w c k a l =
      let v = record w { err = w.err ++ text } in
      let one = free_second (n + 2) (n + 3) _ v l (ground arith) in
      let two = free_second (n + 1) (n + 3) _ (free (n + 2) v).1 one.0 (ground arith) in
      let three = free_first (n + 3) _ (free (n + 1) (free (n + 2) v).1).1 two.0 in
      let four = free_first n _ (free (n + 3) (free (n + 1) (free (n + 2) v).1).1).1 three.0 in
      rw (c, k, a) (four.1 ∙ three.1 ∙ two.1 ∙ one.1, four.0)

  settle-Balanced :
      (n : ℕ) (live : List ℕ) (cert : Object (Certificate Public)) (key : Object Key)
      (ca : Object (Certificate Public)) (w : World)
      → cert.id ≡ n + 1
      → key.id ≡ n + 2
      → ca.id ≡ n + 3
      → w.live ≡ four_from n live
      → Balanced live w.faults (settle n cert key ca w)
  unfolding settle
  settle-Balanced n live cert key ca w c k a l = elim (Bool-cases (ssl.accepts_cert cert.value)) [
    | inr bad ↦ rw bad (give_up-Balanced _ n live cert key ca w c k a l)
    | inl good ↦ elim (Bool-cases (ssl.accepts_key cert.value key.value)) [
      | inr bad ↦ rw (good, bad) (give_up-Balanced _ n live cert key ca w c k a l)
      | inl fits ↦
          let one = touch_lem n w (unfold is_live in ground arith) in
          let two = touch_lem ca.id w (unfold is_live in ground arith) in
          let three = free_second (n + 2) (n + 3) _ w l (ground arith) in
          rw (good, fits, one, two, k, a, c) (three.1, three.0)
    ]
  ]

  with_ca-Balanced :
      (n : ℕ) (live : List ℕ) (cert : Object (Certificate Public)) (key : Object Key) (w : World)
      (r : Option (Object (Certificate Public)) × World)
      → cert.id ≡ n + 1
      → key.id ≡ n + 2
      → w.next ≡ n + 3
      → w.live ≡ (n + 2) ∷ (n + 1) ∷ n ∷ live
      → Produced w r
      → Balanced live w.faults (with_ca n cert key r.0 r.1)
  unfolding with_ca print_err
  with_ca-Balanced n live cert key w (none, v) c k x l o =
      let u = record v { err = v.err ++ codes "Failed to load CA cert\n" } in
      let one = free_first (n + 2) _ u (o.1 ∙ l) in
      let two = free_first (n + 1) _ (free (n + 2) u).1 one.0 in
      let three = free_first n _ (free (n + 1) (free (n + 2) u).1).1 two.0 in
      rw (c, k) (three.1 ∙ two.1 ∙ one.1 ∙ o.2, three.0)
  with_ca-Balanced n live cert key w (some ca, v) c k x l o =
      let e = settle-Balanced n live cert key ca v c k (o.0 ∙ x) (ground arith) in
      subst (λ t. Balanced live t (settle n cert key ca v)) o.3 e

  with_key-Balanced :
      (paths : CertPaths) (n : ℕ) (live : List ℕ) (cert : Object (Certificate Public)) (w : World)
      (r : Option (Object Key) × World)
      → cert.id ≡ n + 1
      → w.next ≡ n + 2
      → w.live ≡ (n + 1) ∷ n ∷ live
      → Produced w r
      → Balanced live w.faults (with_key paths n cert r.0 r.1)
  unfolding with_key print_err
  with_key-Balanced paths n live cert w (none, v) c x l o =
      let u = record v { err = v.err ++ codes "Failed to load server key\n" } in
      let one = free_first (n + 1) _ u (o.1 ∙ l) in
      let two = free_first n _ (free (n + 1) u).1 one.0 in rw c (two.1 ∙ one.1 ∙ o.2, two.0)
  with_key-Balanced paths n live cert w (some key, v) c x l o =
      let opened = pem_file_to_x509-Produced ssl sys paths.ca_cert v in
      let e =
        with_ca-Balanced n live cert key v (pem_file_to_x509 ssl sys paths.ca_cert v) c (o.0 ∙ x)
          (ground arith) (ground arith) opened in
      subst
        (λ t. Balanced live t (
          with_ca n cert key (pem_file_to_x509 ssl sys paths.ca_cert v).0
            (pem_file_to_x509 ssl sys paths.ca_cert v).1))
        o.3 e

  with_cert-Balanced :
      (paths : CertPaths) (n : ℕ) (live : List ℕ) (w : World)
      (r : Option (Object (Certificate Public)) × World)
      → w.next ≡ n + 1
      → w.live ≡ n ∷ live
      → Produced w r
      → Balanced live w.faults (with_cert paths n r.0 r.1)
  unfolding with_cert print_err
  with_cert-Balanced paths n live w (none, v) x l o =
      let u = record v { err = v.err ++ codes "Failed to load server cert\n" } in
      let one = free_first n _ u (o.1 ∙ l) in (one.1 ∙ o.2, one.0)
  with_cert-Balanced paths n live w (some cert, v) x l o =
      let opened = pem_file_to_pkey-Produced ssl sys paths.server_key v in
      let e =
        with_key-Balanced paths n live cert v (pem_file_to_pkey ssl sys paths.server_key v)
          (o.0 ∙ x) (ground arith) (ground arith) opened in
      subst
        (λ t. Balanced live t (
          with_key paths n cert (pem_file_to_pkey ssl sys paths.server_key v).0
            (pem_file_to_pkey ssl sys paths.server_key v).1))
        o.3 e

  with_ctx-Balanced :
      (paths : CertPaths) (b : Bool) (w : World) → Balanced w.live w.faults (with_ctx paths b w)
  unfolding with_ctx print_err alloc
  with_ctx-Balanced paths false w = (refl, refl)
  with_ctx-Balanced paths true w =
      let v = record w { next = w.next + 1; live = w.next ∷ w.live } in
      with_cert-Balanced paths w.next w.live v (pem_file_to_x509 ssl sys paths.server_cert v) refl
        refl (pem_file_to_x509-Produced ssl sys paths.server_cert v)

  -- Whatever can be opened, read, allocated or accepted: the function frees nothing twice and uses
  -- nothing after a free, leaves no object behind when it fails, and when it succeeds leaves exactly
  -- the context and the two certificates that it gives the caller.
  pub tls_create_server_ctx-Balanced :
      (paths : CertPaths) (w : World) → Balanced w.live w.faults (tls_create_server_ctx paths w)
  unfolding tls_create_server_ctx
  tls_create_server_ctx-Balanced paths w =
      unfold ask in
      with_ctx-Balanced paths (ssl.ssl_ctx_new w.calls) (record w { calls = w.calls + 1 })

  -- The three files are there and can be read, and OpenSSL takes what they hold: the context is made
  -- of exactly that, and asks every client for a certificate of the authority.
  pub tls_create_server_ctx_lem :
      (paths : CertPaths) (w : World) (f g h : File) (cert : Certificate Public) (key : Key)
      (ca : Certificate Public)
      → ((n : ℕ) → ssl.ssl_ctx_new n ≡ true)
      → ((n : ℕ) (p : Bytes) → sys.can_read n p ≡ true)
      → find_file paths.server_cert w.disk ≡ some f
      → find_file paths.server_key w.disk ≡ some g
      → find_file paths.ca_cert w.disk ≡ some h
      → ssl.pem_to_cert f.text ≡ some cert
      → ssl.pem_to_key g.text ≡ some key
      → ssl.pem_to_cert h.text ≡ some ca
      → ssl.accepts_cert cert ≡ true
      → ssl.accepts_key cert key ≡ true
      → (r : Object (Context ssl) × Object (Certificate Public) × Object (Certificate Public))
        × ((tls_create_server_ctx paths w).0 ≡ some r)
        × (r.0.value ≡ configured cert key ca)
        × (r.1.value ≡ ca)
        × (r.2.value ≡ cert)
  unfolding tls_create_server_ctx with_ctx with_cert with_key with_ca settle ask alloc
  tls_create_server_ctx_lem paths w f g h cert key ca new reads ff fg fh pf pg ph ac ak =
      let v : World = record w { calls = w.calls + 1; next = w.next + 1; live = w.next ∷ w.live } in
      let u = made v in
      let fg2 : find_file paths.server_key u.disk ≡ some g = unfold made in fg in
      let fh2 : find_file paths.ca_cert (made u).disk ≡ some h = unfold made in fh in
      let c : Object (Certificate Public) = record { id = v.next; value = cert } in
      let a : Object (Certificate Public) = record { id = (made u).next; value = ca } in
      (
        (record { id = w.next; value = configured cert key ca }, a, c),
        rw (
          new w.calls,
          pem_file_to_x509-some ssl sys paths.server_cert f cert v (reads _ _) ff pf,
          pem_file_to_pkey-some ssl sys paths.server_key g key u (reads _ _) fg2 pg,
          pem_file_to_x509-some ssl sys paths.ca_cert h ca (made u) (reads _ _) fh2 ph,
          ac,
          ak,
        ),
        refl,
        refl,
        refl,
      )
