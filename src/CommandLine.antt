-- ===== src/CommandLine.antt =====
-- `main` of src/main.c: the options, and what they make the program do.
pub mod Run
use adb_termux_bridge.Base.{
  ℕ, ◌+◌, Bool, true, false, Option, none, some, List, [], ◌∷◌, ◌++◌, ltb, if◌then◌else◌, take, ℤ,
  pos, Bytes, codes, bytes_eq,
}
use adb_termux_bridge.Handler.Forwards.{atoi}

-- The variables that the options set. `embed` is `none` without --embed-c-header.
pub record Options : Type 0 where
  pub cert_dir : Option Bytes
  pub daemon_mode : Bool
  pub init_certs : Bool
  pub address : Bytes
  pub port : ℤ
  pub cert_mode : Bool
  pub ca_mode : Bool
  pub fingerprint : Bool
  pub modulus : Bool
  pub save_certs : Bool
  pub embed : Option Bytes

abbrev pub default_options : Options
default_options = record {
  cert_dir = none;
  daemon_mode = false;
  init_certs = false;
  address = codes "127.0.0.1";
  port = pos 10099;
  cert_mode = false;
  ca_mode = false;
  fingerprint = false;
  modulus = false;
  save_certs = false;
  embed = none;
}

-- What the loop over the arguments ends with.
pub data Parsed : Type 0 where
  help : Parsed
  unknown : Bytes → Parsed
  options : Options → Parsed

-- An option without a value, in the order of the tests.
unfoldable pub flag : Bytes → Options → Option Options
flag arg o =
    if bytes_eq arg (codes "--daemon")
    then some (record o { daemon_mode = true })
    else if bytes_eq arg (codes "--init-certs")
    then some (record o { init_certs = true })
    else if bytes_eq arg (codes "--cert")
    then some (record o { cert_mode = true })
    else if bytes_eq arg (codes "--ca")
    then some (record o { ca_mode = true })
    else if bytes_eq arg (codes "--fingerprint")
    then some (record o { fingerprint = true })
    else if bytes_eq arg (codes "--modulus")
    then some (record o { modulus = true })
    else if bytes_eq arg (codes "--save-certs")
    then some (record o { save_certs = true })
    else none

-- An option with the value that follows it.
unfoldable pub valued : Bytes → Bytes → Options → Option Options
unfolding atoi
valued arg value o =
    if bytes_eq arg (codes "--cert-dir")
    then some (record o { cert_dir = some value })
    else if bytes_eq arg (codes "--address")
    then some (record o { address = value })
    else if bytes_eq arg (codes "--port")
    then some (record o { port = atoi value })
    else if bytes_eq arg (codes "--embed-c-header")
    then some (record o { embed = some value })
    else none

-- The loop. The tests are on different texts, so that their order does not matter. An option that
-- wants a value and is the last argument is unknown.
unfoldable pub parse_args : List Bytes → Options → Parsed
unfolding flag valued
parse_args [] o = options o
parse_args (arg ∷ []) o =
    if bytes_eq arg (codes "--help")
    then help
    else elim (flag arg o) [ some p ↦ options p | none ↦ unknown arg ]
parse_args (arg ∷ value ∷ args) o =
    if bytes_eq arg (codes "--help") then help else elim (flag arg o) [
      | some p ↦ parse_args (value ∷ args) p
      | none ↦ elim (valued arg value o) [ some p ↦ parse_args args p | none ↦ unknown arg ]
    ]

-- What `main` does after the loop, without SECURE_BUILD. The directory is the option's or the default.
pub data Action : Type 0 where
  print_usage conflicting_flags : Action
  unknown_option : Bytes → Action
  generate_certs print_cert print_ca print_fingerprint print_pubkey save_to_fingerprint_dir :
      Bytes → Action
  embed_c_header : Bytes → Bytes → Action
  serve : Bool → Bytes → Bytes → ℤ → Action

-- `default_cert_dir[1024]`, from the variable HOME.
unfoldable pub certificate_dir : Option Bytes → Options → Bytes
certificate_dir home o = elim o.cert_dir [
  | some dir ↦ dir
  | none ↦ take 1023 (
      (elim home [ some h ↦ h | none ↦ codes "/data/data/com.termux/files/home" ])
      ++ codes "/.termux-adb-bridge/certs")
]

abbrev pub count : Bool → ℕ
count true = 1
count false = 0

abbrev pub is_some : Option Bytes → Bool
is_some none = false
is_some (some _) = true

unfoldable pub mode_count : Options → ℕ
mode_count o =
    count o.cert_mode
    + count o.ca_mode
    + count o.fingerprint
    + count o.modulus
    + count (is_some o.embed)
    + count o.save_certs
    + count o.init_certs

-- From the directory on.
unfoldable pub choose : Option Bytes → Options → Action
unfolding certificate_dir mode_count
choose home o =
    let dir = certificate_dir home o in
    if ltb 1 (mode_count o)
    then conflicting_flags
    else if o.init_certs
    then generate_certs dir
    else if o.cert_mode
    then print_cert dir
    else if o.ca_mode
    then print_ca dir
    else if o.fingerprint
    then print_fingerprint dir
    else if o.modulus
    then print_pubkey dir
    else elim o.embed [
      | some path ↦ embed_c_header dir path
      | none ↦
          if o.save_certs
          then save_to_fingerprint_dir dir
          else serve o.daemon_mode dir o.address o.port
    ]

unfoldable pub run_main : Option Bytes → List Bytes → Action
unfolding parse_args choose
run_main home args = elim (parse_args args default_options) [
  | help ↦ print_usage
  | unknown arg ↦ unknown_option arg
  | options o ↦ choose home o
]
