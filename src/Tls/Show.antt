-- ===== src/Tls/Show.antt =====
-- What src/tls.c prints of a certificate: `tls_print_cert`, `tls_print_ca`, `tls_print_fingerprint` and
-- `tls_print_pubkey_hex`, without SECURE_BUILD.
use adb_termux_bridge.Base.{
  ◌≡◌, refl, ◌∙◌, Bool, true, false, Option, none, some, [], ◌∷◌, ◌++◌, arith, if◌then◌else◌, Bytes,
  codes,
}
use adb_termux_bridge.Tls.{
  Certificate, Openssl, System, World, Object, M, pure, ◌>>=◌, ◌>>◌, print_out, is_live, free,
  touch, touch_lem, new_object, Produced, free_first, new_object-Produced,
}
use adb_termux_bridge.Tls.Files.{pem_file_to_x509, pem_file_to_x509-Produced}
use adb_termux_bridge.Tls.Paths.{path_in}
use adb_termux_bridge.Tls.Hex.{fingerprint_line, hex_digits}

module _ (ssl : Openssl) (sys : System) where
  open ssl use {Key, Public}

  -- `PEM_write_X509(out, x)`, `X509_free(x)`
  print_pem : Option (Object (Certificate Public)) → M Bool
  print_pem none = pure false
  print_pem (some x) = do touch x.id; print_out (ssl.pem_of_cert x.value); free x.id; pure true

  unfoldable pub tls_print_cert : Bytes → M Bool
  unfolding print_pem
  tls_print_cert dir = pem_file_to_x509 ssl sys (path_in dir (codes "server.crt")) >>= print_pem

  unfoldable pub tls_print_ca : Bytes → M Bool
  unfolding print_pem
  tls_print_ca dir = pem_file_to_x509 ssl sys (path_in dir (codes "ca.crt")) >>= print_pem

  print_digest : Option (Object (Certificate Public)) → M Bool
  print_digest none = pure false
  print_digest (some x) = do
    touch x.id
    print_out (fingerprint_line (ssl.sha256 x.value))
    free x.id
    pure true

  unfoldable pub tls_print_fingerprint : Bytes → M Bool
  unfolding print_digest
  tls_print_fingerprint dir =
      pem_file_to_x509 ssl sys (path_in dir (codes "server.crt")) >>= print_digest

  pubkey_of : Certificate Public → Option Public
  pubkey_of x = if ssl.x509_get_pubkey x then some x.key else none

  -- From `EVP_PKEY_get_raw_public_key` on, with what it gives.
  with_raw : Object (Certificate Public) → Object Public → Option Bytes → M Bool
  with_raw x pkey none = do free pkey.id; free x.id; pure false
  with_raw x pkey (some pub_key) = do
    print_out (hex_digits pub_key ++ (b'\n' ∷ []))
    free pkey.id
    free x.id
    pure true

  with_pubkey : Object (Certificate Public) → Option (Object Public) → M Bool
  unfolding with_raw
  with_pubkey x none = free x.id >> pure false
  with_pubkey x (some pkey) = touch pkey.id >> with_raw x pkey (ssl.raw_public_key pkey.value)

  with_x509 : Option (Object (Certificate Public)) → M Bool
  unfolding with_pubkey pubkey_of
  with_x509 none = pure false
  with_x509 (some x) = new_object (pubkey_of x.value) >>= with_pubkey x

  unfoldable pub tls_print_pubkey_hex : Bytes → M Bool
  unfolding with_x509
  tls_print_pubkey_hex dir =
      pem_file_to_x509 ssl sys (path_in dir (codes "server.crt")) >>= with_x509

  -- All objects are given back, and none is misused.
  abbrev Clean : World → Bool × World → Type 0
  Clean w r = (r.1.live ≡ w.live) × (r.1.faults ≡ w.faults)

  -- A text is printed between the use of a certificate and its free.
  shown-Clean :
      (text : Bytes) (x : Object (Certificate Public)) (w v : World)
      → Produced w (some x, v)
      → Clean w ((touch x.id >> print_out text >> free x.id >> pure true) v)
  unfolding print_out
  shown-Clean text x w v o =
      let live : v.live ≡ x.id ∷ w.live = ground arith in
      let used = touch_lem x.id v (rw live (unfold is_live in ground arith)) in
      let gone = free_first x.id w.live (print_out text v).1 live in rw used (gone.0, gone.1 ∙ o.3)

  print_pem-Clean :
      (w : World) (r : Option (Object (Certificate Public)) × World)
      → Produced w r
      → Clean w (print_pem r.0 r.1)
  unfolding print_pem
  print_pem-Clean w (none, v) o = (o.1, o.2)
  print_pem-Clean w (some x, v) o = shown-Clean _ x w v o

  print_digest-Clean :
      (w : World) (r : Option (Object (Certificate Public)) × World)
      → Produced w r
      → Clean w (print_digest r.0 r.1)
  unfolding print_digest
  print_digest-Clean w (none, v) o = (o.1, o.2)
  print_digest-Clean w (some x, v) o = shown-Clean _ x w v o

  with_raw-Clean :
      (x : Object (Certificate Public)) (pkey : Object Public) (raw : Option Bytes) (w v : World)
      → v.live ≡ pkey.id ∷ x.id ∷ w.live
      → v.faults ≡ w.faults
      → Clean w (with_raw x pkey raw v)
  unfolding with_raw print_out
  with_raw-Clean x pkey none w v l f =
      let one = free_first pkey.id (x.id ∷ w.live) v l in
      let two = free_first x.id w.live (free pkey.id v).1 one.0 in (two.0, two.1 ∙ one.1 ∙ f)
  with_raw-Clean x pkey (some key) w v l f =
      let u = (print_out (hex_digits key ++ (b'\n' ∷ [])) v).1 in
      let one = free_first pkey.id (x.id ∷ w.live) u l in
      let two = free_first x.id w.live (free pkey.id u).1 one.0 in (two.0, two.1 ∙ one.1 ∙ f)

  with_pubkey-Clean :
      (x : Object (Certificate Public)) (w v : World) (r : Option (Object Public) × World)
      → Produced w (some x, v)
      → Produced v r
      → Clean w (with_pubkey x r.0 r.1)
  unfolding with_pubkey
  with_pubkey-Clean x w v (none, u) o p =
      let gone = free_first x.id w.live u (ground arith) in (gone.0, gone.1 ∙ p.2 ∙ o.3)
  with_pubkey-Clean x w v (some pkey, u) o p =
      let live : u.live ≡ pkey.id ∷ x.id ∷ w.live = ground arith in
      let used = touch_lem pkey.id u (rw live (unfold is_live in ground arith)) in
      rw used (with_raw-Clean x pkey (ssl.raw_public_key pkey.value) w u live (p.3 ∙ o.3))

  with_x509-Clean :
      (w : World) (r : Option (Object (Certificate Public)) × World)
      → Produced w r
      → Clean w (with_x509 r.0 r.1)
  unfolding with_x509
  with_x509-Clean w (none, v) o = (o.1, o.2)
  with_x509-Clean w (some x, v) o =
      with_pubkey-Clean x w v (new_object (pubkey_of x.value) v) o
        (new_object-Produced (pubkey_of x.value) v v refl refl refl)

  -- The four functions give back every object and misuse none, whether the file is there, is a
  -- certificate, and has a key of 32 bytes, or not.
  pub tls_print-Clean :
      (dir : Bytes) (w : World)
      → Clean w (tls_print_cert dir w)
        × Clean w (tls_print_ca dir w)
        × Clean w (tls_print_fingerprint dir w)
        × Clean w (tls_print_pubkey_hex dir w)
  unfolding tls_print_cert tls_print_ca tls_print_fingerprint tls_print_pubkey_hex
  tls_print-Clean dir w =
      let opened = λ (path : Bytes). pem_file_to_x509-Produced ssl sys path w in
      (
        print_pem-Clean w _ (opened _),
        print_pem-Clean w _ (opened _),
        print_digest-Clean w _ (opened _),
        with_x509-Clean w _ (opened _),
      )
