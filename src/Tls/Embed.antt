-- ===== src/Tls/Embed.antt =====
-- `tls_embed_c_header` of src/tls.c.
pub mod Laws
use adb_termux_bridge.Base.{
  ℕ, zero, suc, ◌+◌, ◌-◌, ◌*◌, ◌/◌, ◌%◌, ◌^◌, ◌≤◌, ◌<◌, min, ◌≡◌, refl, sym, ap, ◌∙◌, subst, ◌≢◌,
  ◌↔◌, ◌⊎◌, inl, inr, Bool, true, false, not, ◌&&◌, ◌||◌, Option, none, some, List, [], ◌∷◌, ◌++◌,
  map, append-nil, append_assoc, arith, ltb, leb, ◌==◌, if◌then◌else◌, ltb→lt, lt→ltb, not-lt→ltb,
  ltb-false→le, ==_iff, ==_refl, Bool-cases, Option-cases, All, length, take, drop, concat,
  length-append, length-take, length-drop, take-append-drop, take_all, concat-append, All-append,
  All-take, All-drop, ℤ, pos, negsuc, neg, is_pos, is_neg, pos_part, int_eq, int_eq→eq, int_eq_refl,
  Bytes, codes, bytes_eq, bytes_eq_iff, bytes_eq_refl, starts_with, starts_with-append, strstr,
  skip_spaces, NoNul, c_str, c_str-NoNul, digit_char, digit_value, digit_value-digit_char,
  print_base, read_digits, is_space, skip_isspace, long_max, clamp_long, skip_hex_prefix,
  strtol_signed, strtol, print_int, EndsNumber, minus, All-imp, print_base-Without,
  length-print_base, strtol-print_base, print_base-cons, Absent, strstr-append, Without, cut_at,
  cut_at-Without,
}
use adb_termux_bridge.Tls.{
  Certificate, Openssl, System, World, Object, M, pure, ◌>>=◌, ◌>>◌, print_err, print_out, is_live,
  without, free, touch, Produced,
}
use adb_termux_bridge.Tls.Files.{
  pem_file_to_x509, pem_file_to_pkey, pem_file_to_x509-Produced, pem_file_to_pkey-Produced,
  write_file,
}
use adb_termux_bridge.Tls.Paths.{path_in}
use adb_termux_bridge.Tls.Hex.{write_der_as_c}

-- `files[i]`, `names[i]` and `is_key[i]`
pub record Entry : Type 0 where
  pub file : Bytes
  pub name : Bytes
  pub is_key : Bool

abbrev pub header_entries : List Entry
header_entries =
    record { file = codes "ca.crt"; name = codes "ca_crt"; is_key = false }
    ∷ record { file = codes "ca.key"; name = codes "ca_key"; is_key = true }
    ∷ record { file = codes "server.crt"; name = codes "server_crt"; is_key = false }
    ∷ record { file = codes "server.key"; name = codes "server_key"; is_key = true }
    ∷ []

-- `certs[i]` or `keys[i]`, of which one is set: its number, and its encoding by `i2d_…`.
pub record Loaded : Type 0 where
  pub entry : Entry
  pub id : ℕ
  pub der : Option Bytes

-- The text up to the first object that cannot be encoded, and the file of that object.
unfoldable pub encode : List Loaded → Bytes × Option Bytes
encode [] = ([], none)
encode (x ∷ xs) =
    let rest = encode xs in
    elim x.der [
      | none ↦ ([], some x.entry.file)
      | some der ↦ (write_der_as_c x.entry.name der ++ rest.0, rest.1)
    ]

abbrev pub guard_open : Bytes
guard_open =
    codes "/* Generated by tls_embed_c_header "
    ++ (0xe2
        ∷ 0x80
        ∷ 0x94
        ∷ codes " do not edit */\n#ifndef CERTS_DATA_H\n#define CERTS_DATA_H\n\n")

abbrev pub guard_close : Bytes
guard_close = codes "#endif /* CERTS_DATA_H */\n"

-- What is in the file when it is closed.
unfoldable pub header_text : List Loaded → Bytes
unfolding encode
header_text xs =
    guard_open ++ ((encode xs).0 ++ elim (encode xs).1 [ none ↦ guard_close | some _ ↦ [] ])

unfoldable pub free_all : List Loaded → M (Unit {0})
free_all [] = pure tt
free_all (x ∷ xs) = free x.id >> free_all xs

module _ (ssl : Openssl) (sys : System) where
  open ssl use {Key, Public}

  unfoldable pub loaded_cert : Entry → Option (Object (Certificate Public)) → Option Loaded
  loaded_cert e none = none
  loaded_cert e (some x) = some (record { entry = e; id = x.id; der = ssl.der_of_cert x.value })

  unfoldable pub loaded_key : Entry → Option (Object Key) → Option Loaded
  loaded_key e none = none
  loaded_key e (some k) = some (record { entry = e; id = k.id; der = ssl.der_of_key k.value })

  -- A round of the first loop.
  unfoldable pub load_one : Bytes → Entry → M (Option Loaded)
  unfolding loaded_cert loaded_key
  load_one dir e = elim e.is_key [
    | true ↦ do k ← pem_file_to_pkey ssl sys (path_in dir e.file); pure (loaded_key e k)
    | false ↦ do x ← pem_file_to_x509 ssl sys (path_in dir e.file); pure (loaded_cert e x)
  ]

  -- The first loop; a failure returns at once.
  unfoldable pub load_all : Bytes → List Entry → M (Option (List Loaded))
  unfolding load_one
  load_all dir [] = pure (some [])
  load_all dir (e ∷ es) = do
    o ← load_one dir e
    elim o [
      | none ↦ do
        print_err (codes "Failed to load " ++ (path_in dir e.file ++ codes "\n"))
        pure none
      | some x ↦ do
        rest ← load_all dir es
        pure (elim rest [ none ↦ none | some xs ↦ some (x ∷ xs) ])
    ]

  -- Behind `fclose`; nothing is freed if an encoding failed.
  unfoldable pub closed : Bytes → List Loaded → Option Bytes → M Bool
  unfolding free_all
  closed path xs none = do
    free_all xs
    print_out (codes "Embedded header written to " ++ (path ++ codes "\n"))
    pure true
  closed path xs (some file) =
      print_err (codes "Failed to DER-encode " ++ (file ++ codes "\n")) >> pure false

  unfoldable pub written_out : Bytes → List Loaded → Option Bool → M Bool
  unfolding closed encode
  written_out path xs none = print_err (path ++ (codes ": " ++ sys.error_text)) >> pure false
  written_out path xs (some _) = closed path xs (encode xs).1

  unfoldable pub embed_loaded : Bytes → Option (List Loaded) → M Bool
  unfolding written_out header_text
  embed_loaded path none = pure false
  embed_loaded path (some xs) = write_file sys path (header_text xs) >>= written_out path xs

  unfoldable pub tls_embed_c_header : Bytes → Bytes → M Bool
  unfolding load_all embed_loaded
  tls_embed_c_header dir path = load_all dir header_entries >>= embed_loaded path
