-- ===== src/Tls/Files.antt =====
-- The streams that src/tls.c opens, the certificates and keys in PEM files, and `make_cert`.
use adb_termux_bridge.Base.{
  ℕ, ◌+◌, ◌*◌, ◌≡◌, refl, inl, inr, Bool, true, false, Option, none, some, ◌∷◌, ◌++◌, arith,
  if◌then◌else◌, Bool-cases, Bytes, codes,
}
use adb_termux_bridge.Tls.{
  Name, Certificate, Openssl, System, File, World, Object, M, pure, ◌>>=◌, ◌>>◌, ask, print_err,
  new_object, is_live, touch, touch_some, Produced, new_object-Produced, alloc, LiveIn, touch_lem,
  touch_some_lem, find_file, put_file,
}

-- `fopen(path, "r")` and all that is read from the stream before it is closed.
unfoldable pub read_file : System → Bytes → M (Option Bytes)
unfolding ask find_file
read_file sys path w =
    let found = find_file path w.disk in
    (
      if sys.can_read w.calls path then elim found [ none ↦ none | some f ↦ some f.text ] else none,
      record w { calls = w.calls + 1 },
    )

-- The mode of the file at `path` when it is opened for writing: a new file's, or what it had.
unfoldable pub opened_mode : System → Option File → ℕ
opened_mode sys none = sys.created_mode
opened_mode sys (some f) = f.mode

-- `fopen(path, "w")`, one text, `fclose`: `none` if it was not opened, else whether the text arrived.
unfoldable pub write_file : System → Bytes → Bytes → M (Option Bool)
unfolding opened_mode find_file put_file
write_file sys path text w =
    let sent = sys.arrives w.calls text in
    let f : File = record { text = sent.0; mode = opened_mode sys (find_file path w.disk) } in
    if sys.can_write w.calls path
    then (some sent.1, record w { calls = w.calls + 1; disk = put_file path f w.disk })
    else (none, record w { calls = w.calls + 1 })

-- `chmod` of a file that is there.
unfoldable pub chmod : Bytes → ℕ → M (Unit {0})
unfolding find_file put_file
chmod path mode w = (
  tt,
  elim (find_file path w.disk) [
    | none ↦ w
    | some f ↦ record w { disk = put_file path (record f { mode = mode }) w.disk }
  ],
)

-- After one call that made an object.
unfoldable pub made : World → World
made w = record w { calls = w.calls + 1; next = w.next + 1; live = w.next ∷ w.live }

pub made-live : (w : World) → is_live w.next (made w).live ≡ true
unfolding made is_live
made-live w = ground arith

pub made-keeps : (id : ℕ) (w : World) → is_live id w.live ≡ true → is_live id (made w).live ≡ true
unfolding made is_live
made-keeps id w h = ground arith

module _ (ssl : Openssl) (sys : System) where
  open ssl use {Key, Public}

  -- `perror`; or `if (r <= 0) ERR_print_errors_fp(stderr)`, `fclose` and `chmod`. The result is
  -- whether `r > 0`.
  unfoldable pub after_pem : Bytes → ℕ → Option Bool → M Bool
  unfolding print_err chmod
  after_pem path mode none = print_err (path ++ (codes ": " ++ sys.error_text)) >> pure false
  after_pem path mode (some true) = chmod path mode >> pure true
  after_pem path mode (some false) = print_err sys.error_text >> chmod path mode >> pure false

  unfoldable pub read_cert : Option Bytes → Option (Certificate Public)
  read_cert none = none
  read_cert (some text) = ssl.pem_to_cert text

  unfoldable pub read_key : Option Bytes → Option Key
  read_key none = none
  read_key (some text) = ssl.pem_to_key text

  unfoldable pub pem_file_to_x509 : Bytes → M (Option (Object (Certificate Public)))
  unfolding read_file read_cert new_object
  pem_file_to_x509 path = do text ← read_file sys path; new_object (read_cert text)

  unfoldable pub pem_file_to_pkey : Bytes → M (Option (Object Key))
  unfolding read_file read_key new_object
  pem_file_to_pkey path = do text ← read_file sys path; new_object (read_key text)

  -- `write_pem` of a certificate or a key; the result is whether `r > 0`.
  unfoldable pub write_pem_cert : Bytes → Object (Certificate Public) → M Bool
  write_pem_cert path x = do
    touch x.id
    r ← write_file sys path (ssl.pem_of_cert x.value)
    after_pem path 420 r

  unfoldable pub write_pem_key : Bytes → Object Key → M Bool
  write_pem_key path k = do
    touch k.id
    r ← write_file sys path (ssl.pem_of_key k.value)
    after_pem path 384 r

  unfoldable pub generate_ed25519_key : M (Option (Object Key))
  unfolding ask new_object
  generate_ed25519_key = do k ← ask ssl.keygen; new_object k

  -- The calls of `make_cert` on the new certificate. Its signature is by the issuer's key or by its
  -- own, and its issuer is the one given or itself.
  unfoldable pub filled_in :
      Key
      → Option (Object Key)
      → Option (Object (Certificate Public))
      → Bytes
      → Bool
      → ℕ
      → Certificate Public
  filled_in key ca_key ca cn is_ca serial =
      let name : Name = record { organization = codes "Termux ADB Bridge"; common_name = cn } in
      record {
        serial = serial;
        seconds = 3650 * 86400;
        subject = name;
        issuer = elim ca [ some c ↦ c.value.subject | none ↦ name ];
        key = ssl.public_half key;
        is_ca = is_ca;
        signer = elim ca_key [ some k ↦ ssl.public_half k.value | none ↦ ssl.public_half key ];
      }

  unfoldable pub make_cert :
      Object Key
      → Option (Object Key)
      → Option (Object (Certificate Public))
      → Bytes
      → Bool
      → ℕ
      → M (Option (Object (Certificate Public)))
  make_cert key ca_key ca cn is_ca serial = do
    made ← ask ssl.x509_new
    elim made [
      | false ↦ pure none
      | true ↦ do
        touch key.id
        touch_some ca
        touch_some ca_key
        new_object (some (filled_in key.value ca_key ca cn is_ca serial))
    ]

  pub pem_file_to_x509-Produced : (path : Bytes) (w : World) → Produced w (pem_file_to_x509 path w)
  unfolding pem_file_to_x509
  pem_file_to_x509-Produced path w = new_object-Produced _ w _ refl refl refl

  pub pem_file_to_pkey-Produced : (path : Bytes) (w : World) → Produced w (pem_file_to_pkey path w)
  unfolding pem_file_to_pkey
  pem_file_to_pkey-Produced path w = new_object-Produced _ w _ refl refl refl

  pub generate_ed25519_key-Produced : (w : World) → Produced w (generate_ed25519_key w)
  unfolding generate_ed25519_key
  generate_ed25519_key-Produced w = new_object-Produced _ w _ refl refl refl

  pub make_cert-Produced :
      (key : Object Key) (ca_key : Option (Object Key)) (ca : Option (Object (Certificate Public)))
      (cn : Bytes) (is_ca : Bool) (serial : ℕ) (w : World)
      → is_live key.id w.live ≡ true
      → LiveIn w.live ca_key
      → LiveIn w.live ca
      → Produced w (make_cert key ca_key ca cn is_ca serial w)
  unfolding make_cert ask
  make_cert-Produced key ca_key ca cn is_ca serial w h k c =
      let v = record w { calls = w.calls + 1 } in
      let x = filled_in key.value ca_key ca cn is_ca serial in
      elim (Bool-cases (ssl.x509_new w.calls)) [
        | inr failed ↦ rw failed (refl, refl, refl)
        | inl made ↦
            rw (made, touch_lem key.id v h, touch_some_lem ca v c, touch_some_lem ca_key v k)
              (new_object-Produced (some x) w v refl refl refl)
      ]

  pub generate_ed25519_key-some :
      (k : Key) (w : World)
      → ssl.keygen w.calls ≡ some k
      → generate_ed25519_key w ≡ (some (record { id = w.next; value = k }), made w)
  unfolding generate_ed25519_key made
  generate_ed25519_key-some k w h = rw (h, new_object)

  pub generate_ed25519_key-none :
      (w : World)
      → ssl.keygen w.calls ≡ none
      → generate_ed25519_key w ≡ (none, record w { calls = w.calls + 1 })
  unfolding generate_ed25519_key ask
  generate_ed25519_key-none w h = rw (h, new_object)

  pub make_cert-some :
      (key : Object Key) (ca_key : Option (Object Key)) (ca : Option (Object (Certificate Public)))
      (cn : Bytes) (is_ca : Bool) (serial : ℕ) (w : World)
      → ssl.x509_new w.calls ≡ true
      → is_live key.id w.live ≡ true
      → LiveIn w.live ca_key
      → LiveIn w.live ca
      → make_cert key ca_key ca cn is_ca serial w ≡ (
        some (record { id = w.next; value = filled_in key.value ca_key ca cn is_ca serial }),
        made w,
      )
  unfolding make_cert ask made
  make_cert-some key ca_key ca cn is_ca serial w new h k c =
      let v = record w { calls = w.calls + 1 } in
      rw (new, touch_lem key.id v h, touch_some_lem ca v c, touch_some_lem ca_key v k)
        (unfold new_object alloc in refl)

  pub pem_file_to_x509-some :
      (path : Bytes) (f : File) (x : Certificate Public) (w : World)
      → sys.can_read w.calls path ≡ true
      → find_file path w.disk ≡ some f
      → ssl.pem_to_cert f.text ≡ some x
      → pem_file_to_x509 path w ≡ (some (record { id = w.next; value = x }), made w)
  unfolding pem_file_to_x509 made
  pem_file_to_x509-some path f x w r h e = rw (r, h, e, new_object)

  pub pem_file_to_pkey-some :
      (path : Bytes) (f : File) (k : Key) (w : World)
      → sys.can_read w.calls path ≡ true
      → find_file path w.disk ≡ some f
      → ssl.pem_to_key f.text ≡ some k
      → pem_file_to_pkey path w ≡ (some (record { id = w.next; value = k }), made w)
  unfolding pem_file_to_pkey made
  pem_file_to_pkey-some path f k w r h e = rw (r, h, e, new_object)
