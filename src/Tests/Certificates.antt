-- ===== src/Tests/Certificates.antt =====
-- The certificates of src/tls.c and the modes of src/main.c that use them, on concrete files.
use adb_termux_bridge.Base.{
  ℕ, ◌≡◌, refl, ap, Bool, true, false, Option, none, some, List, [], ◌∷◌, ◌++◌, arith, ◌==◌, ==_iff,
  length, take, drop, Bytes, codes, bytes_eq, starts_with, strstr,
}
use adb_termux_bridge.CommandLine.Run.{Setup}
use adb_termux_bridge.Tls.{Certificate, Openssl, System, World, M, pure, find_file}
use adb_termux_bridge.Tls.Paths.{path_in, tls_build_paths, known}
use adb_termux_bridge.Tls.Hex.{fingerprint_line, hex_digits}
use adb_termux_bridge.Tls.Context.{Balanced, tls_create_server_ctx, tls_create_server_ctx-Balanced}
use adb_termux_bridge.Tls.Generate.{tls_generate_certs}
use adb_termux_bridge.Tls.Generate.Leaks.{Left, tls_generate_certs-Left}
use adb_termux_bridge.Tls.Trust.{Works, tls_generate_certs-served}
use adb_termux_bridge.Tls.Embed.{Loaded}
use adb_termux_bridge.Tls.Copy.{mode_of, tls_save_to_fingerprint_dir}
use adb_termux_bridge.Tls.Copy.Laws.{tls_save_to_fingerprint_dir-copies}

-- Texts one after the other, each with its length in front.
abbrev put_text : Bytes → Bytes → Bytes
put_text s rest = length s ∷ (s ++ rest)

abbrev get_text : Bytes → Bytes × Bytes
get_text [] = ([], [])
get_text (n ∷ s) = (take n s, drop n s)

take-append_self : (s rest : Bytes) → take (length s) (s ++ rest) ≡ s
take-append_self [] rest = refl
take-append_self (c ∷ s) rest = ap (◌∷◌ c) (take-append_self s rest)

drop-append_self : (s rest : Bytes) → drop (length s) (s ++ rest) ≡ rest
drop-append_self [] rest = refl
drop-append_self (c ∷ s) rest = drop-append_self s rest

get_text-put_text : (s rest : Bytes) → get_text (put_text s rest) ≡ (s, rest)
get_text-put_text s rest = rw (take-append_self s rest, drop-append_self s rest)

abbrev Cert : Type 0
Cert = Certificate ℕ

abbrev bool_code : Bool → ℕ
bool_code true = 1
bool_code false = 0

abbrev encode_cert : Cert → Bytes
encode_cert x =
    x.serial
    ∷ x.seconds
    ∷ x.key
    ∷ bool_code x.is_ca
    ∷ x.signer
    ∷ put_text x.subject.organization (
        put_text x.subject.common_name
          (put_text x.issuer.organization (put_text x.issuer.common_name [])))

abbrev decode_names : ℕ → ℕ → ℕ → ℕ → ℕ → Bytes → Cert
decode_names serial seconds key ca signer names =
    let a = get_text names in
    let b = get_text a.1 in
    let c = get_text b.1 in
    let d = get_text c.1 in
    record {
      serial = serial;
      seconds = seconds;
      subject = record { organization = a.0; common_name = b.0 };
      issuer = record { organization = c.0; common_name = d.0 };
      key = key;
      is_ca = ca == 1;
      signer = signer;
    }

abbrev decode_cert : Bytes → Option Cert
decode_cert (a ∷ b ∷ c ∷ d ∷ e ∷ names) = some (decode_names a b c d e names)
decode_cert _ = none

bool_code_lem : (b : Bool) → (bool_code b == 1) ≡ b
bool_code_lem true = refl
bool_code_lem false = refl

decode_cert-encode_cert : (x : Cert) → decode_cert (encode_cert x) ≡ some x
decode_cert-encode_cert x = simp (take-append_self, drop-append_self, bool_code_lem)

abbrev decode_key : Bytes → Option ℕ
decode_key (k ∷ []) = some k
decode_key _ = none

-- A key is a number, and is its own public half; the number of the call is the key that it makes.
abbrev crypto : Openssl
crypto = record {
  Key = ℕ;
  Public = ℕ;
  public_half = λ k. k;
  keygen = λ n. some n;
  x509_new = λ n. true;
  ssl_ctx_new = λ n. true;
  pem_of_cert = encode_cert;
  pem_of_key = λ k. k ∷ [];
  pem_to_cert = decode_cert;
  pem_to_key = decode_key;
  der_of_cert = λ x. some (encode_cert x);
  der_of_key = λ k. some (k ∷ []);
  sha256 = λ x. x.key ∷ x.serial ∷ codes "123456789012345678901234567890";
  x509_get_pubkey = λ x. true;
  raw_public_key = λ p. some (p ∷ []);
  accepts_cert = λ x. true;
  accepts_key = λ x k. x.key == k;
}

-- A system where nothing fails.
abbrev sys : System
sys = record {
  permits = λ p. true;
  can_read = λ n p. true;
  can_write = λ n p. true;
  arrives = λ n t. (t, true);
  created_mode = 420;
  error_text = codes "error";
}

abbrev fresh : World
fresh = record {
  calls = 0;
  next = 5;
  live = [];
  faults = 0;
  disk = [];
  directories = [] ∷ [];
  out = [];
  err = [];
}

abbrev dir : Bytes
dir = codes "/h/c"

takes_key : (x : Cert) (k : ℕ) → x.key ≡ k → (x.key == k) ≡ true
takes_key x k e = (==_iff x.key k).1 e

tls_generate_certs-served_example :
    ((tls_generate_certs crypto sys dir fresh).0 ≡ true)
    × Works crypto sys dir (tls_generate_certs crypto sys dir fresh).1
tls_generate_certs-served_example =
    tls_generate_certs-served crypto sys (λ n. n) (λ n. refl) (λ n. refl) (λ n p. refl)
      (λ n t. refl) (λ n p. refl) (λ n. refl) decode_cert-encode_cert (λ k. refl) (λ x. refl)
      takes_key dir fresh (omega arith)

tls_create_server_ctx-Balanced_example :
    Balanced crypto sys [] 0 (tls_create_server_ctx crypto sys (tls_build_paths dir) fresh)
tls_create_server_ctx-Balanced_example =
    tls_create_server_ctx-Balanced crypto sys (tls_build_paths dir) fresh

tls_generate_certs-Left_example : Left crypto sys 5 [] 0 (tls_generate_certs crypto sys dir fresh)
tls_generate_certs-Left_example = tls_generate_certs-Left crypto sys dir fresh

abbrev loaded : List Loaded
loaded =
    record {
      entry = record { file = codes "ca.crt"; name = codes "ca_crt"; is_key = false };
      id = 0;
      der = some (1 ∷ 2 ∷ 255 ∷ []);
    }
    ∷ record {
      entry = record { file = codes "ca.key"; name = codes "ca_key"; is_key = true };
      id = 1;
      der = some [];
    }
    ∷ []

abbrev server_cert : Cert
server_cert = record {
  serial = 2;
  seconds = 1;
  subject = record { organization = []; common_name = codes "s" };
  issuer = record { organization = []; common_name = codes "c" };
  key = 65;
  is_ca = false;
  signer = 66;
}

-- A directory with the certificate of the server and one key.
abbrev with_files : World
with_files = record fresh {
  disk =
      (codes "/h/c/server.crt", record { text = encode_cert server_cert; mode = 420 })
      ∷ (codes "/h/c/ca.key", record { text = codes "secret"; mode = 384 })
      ∷ [];
}

tls_save_to_fingerprint_dir-copies_example :
    ((tls_save_to_fingerprint_dir crypto sys dir with_files).0 ≡ true)
    × (find_file
          (path_in (path_in dir (hex_digits (crypto.sha256 server_cert))) (codes "ca.key"))
          (tls_save_to_fingerprint_dir crypto sys dir with_files).1.disk
        ≡ some (record { text = codes "secret"; mode = 384 }))
unfolding mode_of strstr starts_with
tls_save_to_fingerprint_dir-copies_example =
    tls_save_to_fingerprint_dir-copies sys (λ n p. refl) (λ n t. refl) (λ n p. refl) crypto dir
      (codes "ca.key") (record { text = codes "secret"; mode = 384 })
      (record { text = encode_cert server_cert; mode = 420 }) server_cert with_files (omega arith)
      refl (unfold path_in find_file bytes_eq in refl) (decode_cert-encode_cert server_cert)
      (unfold known bytes_eq in refl) (unfold path_in find_file bytes_eq in refl)

-- A server that leaves at once.
abbrev idle : Setup crypto → M (Unit {0})
idle setup = pure tt

fingerprint_line_text : fingerprint_line (1 ∷ 0xab ∷ []) ≡ codes "01:AB\n"
unfolding fingerprint_line
fingerprint_line_text = refl
