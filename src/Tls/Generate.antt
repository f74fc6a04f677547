-- ===== src/Tls/Generate.antt =====
-- `tls_generate_certs` of src/tls.c.
pub mod Release
pub mod Leaks
pub mod Written
use adb_termux_bridge.Base.{
  ℕ, zero, suc, ◌+◌, ◌-◌, ◌*◌, ◌/◌, ◌%◌, ◌^◌, ◌≤◌, ◌<◌, min, ◌≡◌, refl, sym, ap, ◌∙◌, subst, ◌≢◌,
  ◌↔◌, ◌⊎◌, inl, inr, Bool, true, false, not, ◌&&◌, ◌||◌, Option, none, some, List, [], ◌∷◌, ◌++◌,
  map, append-nil, append_assoc, arith, ltb, leb, ◌==◌, if◌then◌else◌, ltb→lt, lt→ltb, not-lt→ltb,
  ltb-false→le, ==_iff, ==_refl, Bool-cases, Option-cases, All, length, take, drop, concat,
  length-append, length-take, length-drop, take-append-drop, take_all, concat-append, All-append,
  All-take, All-drop, ℤ, pos, negsuc, neg, is_pos, is_neg, pos_part, int_eq, int_eq→eq, int_eq_refl,
  Bytes, codes, bytes_eq, bytes_eq_iff, bytes_eq_refl, starts_with, starts_with-append, strstr,
  skip_spaces, NoNul, c_str, c_str-NoNul, digit_char, digit_value, digit_value-digit_char,
  print_base, read_digits, is_space, skip_isspace, long_max, clamp_long, skip_hex_prefix,
  strtol_signed, strtol, print_int, EndsNumber, minus, All-imp, print_base-Without,
  length-print_base, strtol-print_base, print_base-cons, Absent, strstr-append, Without, cut_at,
  cut_at-Without,
}
use adb_termux_bridge.Tls.{
  Name, Certificate, Openssl, System, File, World, Object, M, pure, ◌>>=◌, ◌>>◌, ask, print_out,
  print_err, new_object, is_live, without, free, touch, find_file, put_file,
}
use adb_termux_bridge.Tls.Paths.{path_in, mkdir_p}
use adb_termux_bridge.Tls.Files.{generate_ed25519_key, make_cert, write_pem_key, write_pem_cert}

module _ (ssl : Openssl) (sys : System) where
  open ssl use {Key, Public}

  abbrev pub CertObject : Type 0
  CertObject = Object (Certificate Public)

  -- `if (write_pem(…) <= 0) { fprintf(…); ok = 0; }`
  unfoldable pub report : Bytes → Bool → M Bool
  report path true = pure true
  report path false = print_err (codes "Failed to write " ++ (path ++ codes "\n")) >> pure false

  -- The six files, in the order in which they are written; the result is `ok`.
  unfoldable pub write_all :
      Bytes → Object Key → CertObject → Object Key → CertObject → Object Key → CertObject → M Bool
  write_all dir ca_key ca_cert srv_key srv_cert cli_key cli_cert = do
    let ca_key_path = path_in dir (codes "ca.key")
    let ca_cert_path = path_in dir (codes "ca.crt")
    let srv_key_path = path_in dir (codes "server.key")
    let srv_cert_path = path_in dir (codes "server.crt")
    let cli_key_path = path_in dir (codes "client.key")
    let cli_cert_path = path_in dir (codes "client.crt")
    a ← write_pem_key ssl sys ca_key_path ca_key >>= report ca_key_path
    b ← write_pem_cert ssl sys ca_cert_path ca_cert >>= report ca_cert_path
    c ← write_pem_key ssl sys srv_key_path srv_key >>= report srv_key_path
    d ← write_pem_cert ssl sys srv_cert_path srv_cert >>= report srv_cert_path
    e ← write_pem_key ssl sys cli_key_path cli_key >>= report cli_key_path
    f ← write_pem_cert ssl sys cli_cert_path cli_cert >>= report cli_cert_path
    pure (a && (b && (c && (d && (e && f)))))

  -- From the writing on. The result is whether 0 is returned.
  unfoldable pub finish :
      Bytes → Object Key → CertObject → Object Key → CertObject → Object Key → CertObject → M Bool
  finish dir ca_key ca_cert srv_key srv_cert cli_key cli_cert = do
    ok ← write_all dir ca_key ca_cert srv_key srv_cert cli_key cli_cert
    free ca_key.id
    free ca_cert.id
    free srv_key.id
    free srv_cert.id
    free cli_key.id
    free cli_cert.id
    if ok then print_out (codes "Certificates generated in " ++ (dir ++ codes "\n")) else pure tt
    pure ok

  unfoldable pub with_cli_cert :
      Bytes
      → Object Key
      → CertObject
      → Object Key
      → CertObject
      → Object Key
      → Option CertObject
      → M Bool
  with_cli_cert dir ca_key ca_cert srv_key srv_cert cli_key none =
      print_err (codes "Failed to create client cert\n") >> pure false
  with_cli_cert dir ca_key ca_cert srv_key srv_cert cli_key (some cli_cert) =
      finish dir ca_key ca_cert srv_key srv_cert cli_key cli_cert

  unfoldable pub with_cli_key :
      Bytes → Object Key → CertObject → Object Key → CertObject → Option (Object Key) → M Bool
  with_cli_key dir ca_key ca_cert srv_key srv_cert none =
      print_err (codes "Failed to generate client key\n") >> pure false
  with_cli_key dir ca_key ca_cert srv_key srv_cert (some cli_key) =
      make_cert ssl sys cli_key (some ca_key) (some ca_cert) (codes "client") false 3
      >>= with_cli_cert dir ca_key ca_cert srv_key srv_cert cli_key

  unfoldable pub with_srv_cert :
      Bytes → Object Key → CertObject → Object Key → Option CertObject → M Bool
  with_srv_cert dir ca_key ca_cert srv_key none =
      print_err (codes "Failed to create server cert\n") >> pure false
  with_srv_cert dir ca_key ca_cert srv_key (some srv_cert) =
      generate_ed25519_key ssl sys >>= with_cli_key dir ca_key ca_cert srv_key srv_cert

  unfoldable pub with_srv_key : Bytes → Object Key → CertObject → Option (Object Key) → M Bool
  with_srv_key dir ca_key ca_cert none =
      print_err (codes "Failed to generate server key\n") >> pure false
  with_srv_key dir ca_key ca_cert (some srv_key) =
      make_cert ssl sys srv_key (some ca_key) (some ca_cert) (codes "127.0.0.1") false 2
      >>= with_srv_cert dir ca_key ca_cert srv_key

  unfoldable pub with_ca_cert : Bytes → Object Key → Option CertObject → M Bool
  with_ca_cert dir ca_key none = do
    print_err (codes "Failed to create CA cert\n")
    free ca_key.id
    pure false
  with_ca_cert dir ca_key (some ca_cert) =
      generate_ed25519_key ssl sys >>= with_srv_key dir ca_key ca_cert

  unfoldable pub with_ca_key : Bytes → Option (Object Key) → M Bool
  with_ca_key dir none = print_err (codes "Failed to generate CA key\n") >> pure false
  with_ca_key dir (some ca_key) =
      make_cert ssl sys ca_key none none (codes "Bridge CA") true 1 >>= with_ca_cert dir ca_key

  unfoldable pub tls_generate_certs : Bytes → M Bool
  unfolding with_ca_key with_ca_cert with_srv_key with_srv_cert with_cli_key with_cli_cert finish
      write_all report
  tls_generate_certs dir = do
    mkdir_p sys dir
    ca_key ← generate_ed25519_key ssl sys
    with_ca_key dir ca_key
