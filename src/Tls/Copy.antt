-- ===== src/Tls/Copy.antt =====
-- `tls_save_to_fingerprint_dir` of src/tls.c, without SECURE_BUILD.
pub mod Laws
use adb_termux_bridge.Base.{
  ℕ, zero, suc, ◌+◌, ◌-◌, ◌*◌, ◌/◌, ◌%◌, ◌^◌, ◌≤◌, ◌<◌, min, ◌≡◌, refl, sym, ap, ◌∙◌, subst, ◌≢◌,
  ◌↔◌, ◌⊎◌, inl, inr, Bool, true, false, not, ◌&&◌, ◌||◌, Option, none, some, List, [], ◌∷◌, ◌++◌,
  map, append-nil, append_assoc, arith, ltb, leb, ◌==◌, if◌then◌else◌, ltb→lt, lt→ltb, not-lt→ltb,
  ltb-false→le, ==_iff, ==_refl, Bool-cases, Option-cases, All, length, take, drop, concat,
  length-append, length-take, length-drop, take-append-drop, take_all, concat-append, All-append,
  All-take, All-drop, ℤ, pos, negsuc, neg, is_pos, is_neg, pos_part, int_eq, int_eq→eq, int_eq_refl,
  Bytes, codes, bytes_eq, bytes_eq_iff, bytes_eq_refl, starts_with, starts_with-append, strstr,
  skip_spaces, NoNul, c_str, c_str-NoNul, digit_char, digit_value, digit_value-digit_char,
  print_base, read_digits, is_space, skip_isspace, long_max, clamp_long, skip_hex_prefix,
  strtol_signed, strtol, print_int, EndsNumber, minus, All-imp, print_base-Without,
  length-print_base, strtol-print_base, print_base-cons, Absent, strstr-append, Without, cut_at,
  cut_at-Without,
}
use adb_termux_bridge.Tls.{
  Certificate, Openssl, System, File, World, Object, M, pure, ◌>>=◌, ◌>>◌, print_err, print_out,
  is_live, free, touch, touch_lem, find_file, put_file, find_file-put_file, new_object, Produced,
  free_first, free_second, new_object-Produced, Freed,
}
use adb_termux_bridge.Tls.Files.{
  pem_file_to_x509, pem_file_to_pkey, pem_file_to_x509-Produced, pem_file_to_pkey-Produced,
  read_file, write_file, chmod, opened_mode, made, pem_file_to_x509-some,
}
use adb_termux_bridge.Tls.Writes.{written, write_file_lem, chmod-written}
use adb_termux_bridge.Tls.Paths.{
  path_in, path_in-bytes_eq, path_in-apart, mkdir_p, mkdir_p-only, known,
}
use adb_termux_bridge.Tls.Hex.{hex_digits}

abbrev pub files : List Bytes
files =
    codes "ca.crt"
    ∷ codes "ca.key"
    ∷ codes "server.crt"
    ∷ codes "server.key"
    ∷ codes "client.crt"
    ∷ codes "client.key"
    ∷ []

-- `while ((n = fread(buf, 1, 8192, fin)) > 0) fwrite(buf, 1, n, fout);` with fuel for the rounds.
unfoldable pub copy_rounds : ℕ → Bytes → Bytes
copy_rounds zero text = []
copy_rounds (suc rounds) [] = []
copy_rounds (suc rounds) (c ∷ cs) = take 8192 (c ∷ cs) ++ copy_rounds rounds (drop 8192 (c ∷ cs))

-- Every round but the last takes at least a byte, so that one for each byte is enough.
unfoldable pub copied : Bytes → Bytes
unfolding copy_rounds
copied text = copy_rounds (suc (length text)) text

-- `strstr(file, ".key") ? 0600 : 0644`
unfoldable pub mode_of : Bytes → ℕ
mode_of file = elim (strstr file (codes ".key")) [ none ↦ 420 | some _ ↦ 384 ]

-- `chmod`, if the copy was opened.
unfoldable pub close_copy : Bytes → ℕ → Option Bool → M (Unit {0})
close_copy dst mode none = pure tt
close_copy dst mode (some _) = chmod dst mode

module _ (sys : System) where
  -- With both files open. If they are one file, opening it for writing has emptied it.
  unfoldable pub copy_text : Bytes → Bytes → ℕ → Bytes → M (Unit {0})
  copy_text src dst mode text =
      write_file sys dst (copied (if bytes_eq src dst then [] else text)) >>= close_copy dst mode

  unfoldable pub copy_opened : Bytes → Bytes → ℕ → Option Bytes → M (Unit {0})
  unfolding copy_text copied close_copy
  copy_opened src dst mode none = pure tt
  copy_opened src dst mode (some text) = copy_text src dst mode text

  -- A round of the loop over `files`.
  unfoldable pub copy_file : Bytes → Bytes → Bytes → M (Unit {0})
  unfolding copy_opened mode_of
  copy_file dir dest file =
      read_file sys (path_in dir file)
      >>= copy_opened (path_in dir file) (path_in dest file) (mode_of file)

  unfoldable pub copy_files : Bytes → Bytes → List Bytes → M (Unit {0})
  unfolding copy_file
  copy_files dir dest [] = pure tt
  copy_files dir dest (file ∷ rest) = copy_file dir dest file >> copy_files dir dest rest

-- The rounds copy the text.
copy_rounds_lem :
    (rounds : ℕ) (text : Bytes) → length text < rounds → copy_rounds rounds text ≡ text
unfolding copy_rounds
copy_rounds_lem zero text h = elim h [ ]
copy_rounds_lem (suc rounds) [] h = refl
copy_rounds_lem (suc rounds) (c ∷ cs) h =
    ap (λ t. take 8192 (c ∷ cs) ++ t)
      (copy_rounds_lem rounds (drop 8192 (c ∷ cs)) (omega (arith, length-drop 8192 (c ∷ cs))))
    ∙ take-append-drop 8192 (c ∷ cs)

pub copied_lem : (text : Bytes) → copied text ≡ text
unfolding copied
copied_lem text = copy_rounds_lem (suc (length text)) text (omega arith)

module _ (ssl : Openssl) (sys : System) where
  open ssl use {Key, Public}

  -- `%02x` of each byte of the digest, into the 65 bytes of `fp`.
  unfoldable pub save_opened : Bytes → Option (Object (Certificate Public)) → M Bool
  save_opened dir none = pure false
  save_opened dir (some x) = do
    touch x.id
    free x.id
    let dest = path_in dir (hex_digits (ssl.sha256 x.value))
    mkdir_p sys dest
    copy_files sys dir dest files
    print_out (codes "Certificates saved to: " ++ (dest ++ codes "\n"))
    pure true

  unfoldable pub tls_save_to_fingerprint_dir : Bytes → M Bool
  unfolding save_opened
  tls_save_to_fingerprint_dir dir =
      pem_file_to_x509 ssl sys (path_in dir (codes "server.crt")) >>= save_opened dir
