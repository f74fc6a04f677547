-- ===== src/Tls/Generate/Leaks.antt =====
-- What `tls_generate_certs` of src/tls.c leaves behind.
use adb_termux_bridge.Base.{
  ℕ, ◌+◌, ◌≡◌, refl, ap, ◌∙◌, subst, ◌⊎◌, inl, inr, Bool, true, false, Option, none, some, List,
  ◌∷◌, ◌++◌, arith, Bytes, codes,
}
use adb_termux_bridge.Tls.{
  Certificate, Openssl, System, World, Object, pure, ◌>>◌, print_err, Produced, free_first,
}
use adb_termux_bridge.Tls.Paths.{mkdir_p, mkdir_p-only}
use adb_termux_bridge.Tls.Files.{
  generate_ed25519_key, make_cert, generate_ed25519_key-Produced, make_cert-Produced, made,
  made-live, generate_ed25519_key-none, generate_ed25519_key-some, make_cert-some,
}
use adb_termux_bridge.Tls.Generate.{
  with_cli_cert, with_cli_key, with_srv_cert, with_srv_key, with_ca_cert, with_ca_key,
  tls_generate_certs,
}
use adb_termux_bridge.Tls.Generate.Release.{from, held, finish-Freed}

module _ (ssl : Openssl) (sys : System) where
  open ssl use {Key, Public}

  -- Of the objects from `n` on, the first `k` were never given back, and then -1 is returned.
  abbrev pub Left : ℕ → List ℕ → ℕ → Bool × World → Type 0
  Left n live faults r =
      (k : ℕ) × (r.1.live ≡ from n k live) × (r.1.faults ≡ faults) × ((k ≡ 0) ⊎ (r.0 ≡ false))

  stopped :
      (n k : ℕ) (live : List ℕ) (faults : ℕ) (text : Bytes) (v : World)
      → v.live ≡ from n k live
      → v.faults ≡ faults
      → Left n live faults ((print_err text >> pure false) v)
  unfolding print_err
  stopped n k live faults text v l f = (k, l, f, inr refl)

  module _ (dir : Bytes) (n : ℕ) (live : List ℕ) where
    with_cli_cert-Left :
        (ca_key srv_key cli_key : Object Key) (ca_cert srv_cert : Object (Certificate Public))
        (w : World) (r : Option (Object (Certificate Public)) × World)
        → ca_key.id ≡ n + 0
        → ca_cert.id ≡ n + 1
        → srv_key.id ≡ n + 2
        → srv_cert.id ≡ n + 3
        → cli_key.id ≡ n + 4
        → w.next ≡ n + 5
        → w.live ≡ from n 5 live
        → Produced w r
        → Left n live w.faults
            (with_cli_cert ssl sys dir ca_key ca_cert srv_key srv_cert cli_key r.0 r.1)
    unfolding with_cli_cert
    with_cli_cert-Left ca_key srv_key cli_key ca_cert srv_cert w (none, v) a b c d e x l o =
        stopped n 5 live w.faults _ v (o.1 ∙ l) o.2
    with_cli_cert-Left ca_key srv_key cli_key ca_cert srv_cert w (some y, v) a b c d e x l o =
        let f =
          finish-Freed ssl sys n live dir ca_key srv_key cli_key ca_cert srv_cert y a b c d e
            (o.0 ∙ x) v (ground arith) in
        (0, f.0, f.1 ∙ o.3, inl refl)

    with_cli_key-Left :
        (ca_key srv_key : Object Key) (ca_cert srv_cert : Object (Certificate Public)) (w : World)
        (r : Option (Object Key) × World)
        → ca_key.id ≡ n + 0
        → ca_cert.id ≡ n + 1
        → srv_key.id ≡ n + 2
        → srv_cert.id ≡ n + 3
        → w.next ≡ n + 4
        → w.live ≡ from n 4 live
        → Produced w r
        → Left n live w.faults (with_cli_key ssl sys dir ca_key ca_cert srv_key srv_cert r.0 r.1)
    unfolding with_cli_key
    with_cli_key-Left ca_key srv_key ca_cert srv_cert w (none, v) a b c d x l o =
        stopped n 4 live w.faults _ v (o.1 ∙ l) o.2
    with_cli_key-Left ca_key srv_key ca_cert srv_cert w (some y, v) a b c d x l o =
        let made = make_cert ssl sys y (some ca_key) (some ca_cert) (codes "client") false 3 v in
        let now : v.live ≡ from n 5 live = ground arith in
        let opened =
          make_cert-Produced ssl sys y (some ca_key) (some ca_cert) (codes "client") false 3 v
            (held n 4 5 y.id live v (o.0 ∙ x) (omega arith) now)
            (held n 0 5 ca_key.id live v a (omega arith) now)
            (held n 1 5 ca_cert.id live v b (omega arith) now) in
        subst
          (λ t.
            Left n live t
              (with_cli_cert ssl sys dir ca_key ca_cert srv_key srv_cert y made.0 made.1))
          o.3
          (with_cli_cert-Left ca_key srv_key y ca_cert srv_cert v made a b c d (o.0 ∙ x)
            (ground arith) now opened)

    with_srv_cert-Left :
        (ca_key srv_key : Object Key) (ca_cert : Object (Certificate Public)) (w : World)
        (r : Option (Object (Certificate Public)) × World)
        → ca_key.id ≡ n + 0
        → ca_cert.id ≡ n + 1
        → srv_key.id ≡ n + 2
        → w.next ≡ n + 3
        → w.live ≡ from n 3 live
        → Produced w r
        → Left n live w.faults (with_srv_cert ssl sys dir ca_key ca_cert srv_key r.0 r.1)
    unfolding with_srv_cert
    with_srv_cert-Left ca_key srv_key ca_cert w (none, v) a b c x l o =
        stopped n 3 live w.faults _ v (o.1 ∙ l) o.2
    with_srv_cert-Left ca_key srv_key ca_cert w (some y, v) a b c x l o =
        let made = generate_ed25519_key ssl sys v in
        subst (λ t. Left n live t (with_cli_key ssl sys dir ca_key ca_cert srv_key y made.0 made.1))
          o.3
          (with_cli_key-Left ca_key srv_key ca_cert y v made a b c (o.0 ∙ x) (ground arith)
            (ground arith) (generate_ed25519_key-Produced ssl sys v))

    with_srv_key-Left :
        (ca_key : Object Key) (ca_cert : Object (Certificate Public)) (w : World)
        (r : Option (Object Key) × World)
        → ca_key.id ≡ n + 0
        → ca_cert.id ≡ n + 1
        → w.next ≡ n + 2
        → w.live ≡ from n 2 live
        → Produced w r
        → Left n live w.faults (with_srv_key ssl sys dir ca_key ca_cert r.0 r.1)
    unfolding with_srv_key
    with_srv_key-Left ca_key ca_cert w (none, v) a b x l o =
        stopped n 2 live w.faults _ v (o.1 ∙ l) o.2
    with_srv_key-Left ca_key ca_cert w (some y, v) a b x l o =
        let made = make_cert ssl sys y (some ca_key) (some ca_cert) (codes "127.0.0.1") false 2 v in
        let now : v.live ≡ from n 3 live = ground arith in
        let opened =
          make_cert-Produced ssl sys y (some ca_key) (some ca_cert) (codes "127.0.0.1") false 2 v
            (held n 2 3 y.id live v (o.0 ∙ x) (omega arith) now)
            (held n 0 3 ca_key.id live v a (omega arith) now)
            (held n 1 3 ca_cert.id live v b (omega arith) now) in
        subst (λ t. Left n live t (with_srv_cert ssl sys dir ca_key ca_cert y made.0 made.1)) o.3
          (with_srv_cert-Left ca_key y ca_cert v made a b (o.0 ∙ x) (ground arith) now opened)

    with_ca_cert-Left :
        (ca_key : Object Key) (w : World) (r : Option (Object (Certificate Public)) × World)
        → ca_key.id ≡ n + 0
        → w.next ≡ n + 1
        → w.live ≡ from n 1 live
        → Produced w r
        → Left n live w.faults (with_ca_cert ssl sys dir ca_key r.0 r.1)
    unfolding with_ca_cert print_err
    with_ca_cert-Left ca_key w (none, v) a x l o =
        let u = record v { err = v.err ++ codes "Failed to create CA cert\n" } in
        let gone = free_first (n + 0) live u (o.1 ∙ l) in rw a (0, gone.0, gone.1 ∙ o.2, inr refl)
    with_ca_cert-Left ca_key w (some y, v) a x l o =
        let made = generate_ed25519_key ssl sys v in
        subst (λ t. Left n live t (with_srv_key ssl sys dir ca_key y made.0 made.1)) o.3
          (with_srv_key-Left ca_key y v made a (o.0 ∙ x) (ground arith) (ground arith)
            (generate_ed25519_key-Produced ssl sys v))

    with_ca_key-Left :
        (w : World) (r : Option (Object Key) × World)
        → w.next ≡ n + 0
        → w.live ≡ live
        → Produced w r
        → Left n live w.faults (with_ca_key ssl sys dir r.0 r.1)
    unfolding with_ca_key
    with_ca_key-Left w (none, v) x l o = stopped n 0 live w.faults _ v (o.1 ∙ l) o.2
    with_ca_key-Left w (some y, v) x l o =
        let made = make_cert ssl sys y none none (codes "Bridge CA") true 1 v in
        let now : v.live ≡ from n 1 live = ground arith in
        let opened =
          make_cert-Produced ssl sys y none none (codes "Bridge CA") true 1 v
            (held n 0 1 y.id live v (o.0 ∙ x) (omega arith) now) tt tt in
        subst (λ t. Left n live t (with_ca_cert ssl sys dir y made.0 made.1)) o.3
          (with_ca_cert-Left y v made (o.0 ∙ x) (ground arith) now opened)

  -- On every path, whatever fails, no object is used or freed after it was freed; and all are given
  -- back, or -1 is returned and those that remain are the first `k` that the function made.
  pub tls_generate_certs-Left :
      (dir : Bytes) (w : World) → Left w.next w.live w.faults (tls_generate_certs ssl sys dir w)
  unfolding tls_generate_certs
  tls_generate_certs-Left dir w =
      let v = (mkdir_p sys dir w).1 in
      let e = mkdir_p-only sys dir w in
      subst (λ t. Left w.next w.live t (tls_generate_certs ssl sys dir w)) (ap (λ t. t.faults) e)
        (with_ca_key-Left dir w.next w.live v (generate_ed25519_key ssl sys v)
          (ap (λ t. t.next) e ∙ omega arith) (ap (λ t. t.live) e)
          (generate_ed25519_key-Produced ssl sys v))

  leak :
      (dir : Bytes) (w : World) (k : Key)
      → ssl.keygen w.calls ≡ some k
      → ssl.x509_new (w.calls + 1) ≡ true
      → ssl.keygen (w.calls + 1 + 1) ≡ none
      → (let r = generate_ed25519_key ssl sys w in
          let s = with_ca_key ssl sys dir r.0 r.1 in
          (s.0 ≡ false) × (s.1.live ≡ (w.next + 1) ∷ w.next ∷ w.live))
  unfolding with_ca_key with_ca_cert with_srv_key
  leak dir w k a b c =
      let key : Object Key = record { id = w.next; value = k } in
      let new : ssl.x509_new (made w).calls ≡ true = unfold made in b in
      let no_key : ssl.keygen (made (made w)).calls ≡ none = unfold made in c in
      rw
        (
          generate_ed25519_key-some ssl sys k w a,
          make_cert-some ssl sys key none none (codes "Bridge CA") true 1 (made w) new (made-live w)
              tt tt,
          generate_ed25519_key-none ssl sys (made (made w)) no_key,
        )
        (unfold made print_err in (refl, refl))

  -- If the key of the authority and its certificate are made, and then the key of the server cannot be
  -- generated, -1 is returned and the two objects are never given back.
  pub tls_generate_certs-leak :
      (dir : Bytes) (w : World) (k : Key)
      → ssl.keygen w.calls ≡ some k
      → ssl.x509_new (w.calls + 1) ≡ true
      → ssl.keygen (w.calls + 1 + 1) ≡ none
      → ((tls_generate_certs ssl sys dir w).0 ≡ false)
        × ((tls_generate_certs ssl sys dir w).1.live ≡ (w.next + 1) ∷ w.next ∷ w.live)
  unfolding tls_generate_certs
  tls_generate_certs-leak dir w k a b c =
      let v = (mkdir_p sys dir w).1 in
      let e = mkdir_p-only sys dir w in
      let calls : v.calls ≡ w.calls = ap (λ t. t.calls) e in
      let next : v.next ≡ w.next = ap (λ t. t.next) e in
      let live : v.live ≡ w.live = ap (λ t. t.live) e in
      let r =
        leak dir v k (ap ssl.keygen calls ∙ a) (ap (λ (t : ℕ). ssl.x509_new (t + 1)) calls ∙ b)
          (ap (λ (t : ℕ). ssl.keygen (t + 1 + 1)) calls ∙ c) in
      (
        r.0,
        r.1 ∙ ap (λ (t : ℕ). (t + 1) ∷ t ∷ v.live) next ∙ ap (λ t. (w.next + 1) ∷ w.next ∷ t) live,
      )
