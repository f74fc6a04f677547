-- ===== src/Tls.antt =====
-- What src/tls.c works on: the files, the objects of OpenSSL that are not freed yet, and the answers
-- of the libraries. OpenSSL and the system are parameters; the answer to a call may depend on the
-- number of calls made before it.
pub mod Paths
pub mod Hex
pub mod Files
mod Writes
pub mod Context
pub mod Generate
pub mod Trust
pub mod Show
pub mod Embed
pub mod Copy
use adb_termux_bridge.Base.{
  ℕ, zero, suc, ◌+◌, ◌-◌, ◌*◌, ◌/◌, ◌%◌, ◌^◌, ◌≤◌, ◌<◌, min, ◌≡◌, refl, sym, ap, ◌∙◌, subst, ◌≢◌,
  ◌↔◌, ◌⊎◌, inl, inr, Bool, true, false, not, ◌&&◌, ◌||◌, Option, none, some, List, [], ◌∷◌, ◌++◌,
  map, append-nil, append_assoc, arith, ltb, leb, ◌==◌, if◌then◌else◌, ltb→lt, lt→ltb, not-lt→ltb,
  ltb-false→le, ==_iff, ==_refl, Bool-cases, Option-cases, All, length, take, drop, concat,
  length-append, length-take, length-drop, take-append-drop, take_all, concat-append, All-append,
  All-take, All-drop, ℤ, pos, negsuc, neg, is_pos, is_neg, pos_part, int_eq, int_eq→eq, int_eq_refl,
  Bytes, codes, bytes_eq, bytes_eq_iff, bytes_eq_refl, starts_with, starts_with-append, strstr,
  skip_spaces, NoNul, c_str, c_str-NoNul, digit_char, digit_value, digit_value-digit_char,
  print_base, read_digits, is_space, skip_isspace, long_max, clamp_long, skip_hex_prefix,
  strtol_signed, strtol, print_int, EndsNumber, minus, All-imp, print_base-Without,
  length-print_base, strtol-print_base, print_base-cons, Absent, strstr-append, Without, cut_at,
  cut_at-Without,
}

-- A subject or an issuer, as `make_cert` fills it in.
pub record Name : Type 0 where
  pub organization : Bytes
  pub common_name : Bytes

-- What `make_cert` sets in a certificate. `signer` is the public half of the key that signed it.
pub record Certificate (Public : Type 0) : Type 0 where
  pub serial : ℕ
  pub seconds : ℕ
  pub subject : Name
  pub issuer : Name
  pub key : Public
  pub is_ca : Bool
  pub signer : Public

-- The functions of OpenSSL. `keygen` and `x509_new` fail without memory.
pub record Openssl : Type 1 where
  pub Key : Type 0
  pub Public : Type 0
  pub public_half : Key → Public
  pub keygen : ℕ → Option Key
  pub x509_new : ℕ → Bool
  pub ssl_ctx_new : ℕ → Bool
  pub pem_of_cert : Certificate Public → Bytes
  pub pem_of_key : Key → Bytes
  pub pem_to_cert : Bytes → Option (Certificate Public)
  pub pem_to_key : Bytes → Option Key
  pub der_of_cert : Certificate Public → Option Bytes
  pub der_of_key : Key → Option Bytes
  pub sha256 : Certificate Public → Bytes
  pub x509_get_pubkey : Certificate Public → Bool
  pub raw_public_key : Public → Option Bytes
  pub accepts_cert : Certificate Public → Bool
  pub accepts_key : Certificate Public → Key → Bool

-- The system: whether a file can be opened, how much of a text given to a stream reaches the file
-- and whether that is reported as a success, the mode of a file that is created, the directories that
-- may be made, and the text of an error.
pub record System : Type 0 where
  pub permits : Bytes → Bool
  pub can_read : ℕ → Bytes → Bool
  pub can_write : ℕ → Bytes → Bool
  pub arrives : ℕ → Bytes → Bytes × Bool
  pub created_mode : ℕ
  pub error_text : Bytes

pub record File : Type 0 where
  pub text : Bytes
  pub mode : ℕ

-- `faults` counts the uses and the frees of objects that are not live.
pub record World : Type 0 where
  pub calls : ℕ
  pub next : ℕ
  pub live : List ℕ
  pub faults : ℕ
  pub disk : List (Bytes × File)
  pub directories : List Bytes
  pub out : Bytes
  pub err : Bytes

-- A pointer to an object: its identity, and what it holds.
pub record Object (A : Type 0) : Type 0 where
  pub id : ℕ
  pub value : A

abbrev pub M : Type 0 → Type 0
M A = World → A × World

abbrev pub pure : {A : Type 0} → A → M A
pure a w = (a, w)

infixl 5 ◌>>=◌ ◌>>◌
abbrev pub ◌>>=◌ : {A B : Type 0} → M A → (A → M B) → M B
◌>>=◌ m f w = f (m w).0 (m w).1

abbrev pub ◌>>◌ : {A B : Type 0} → M A → M B → M B
m >> k = m >>= λ _. k

-- A call of a library, with its answer.
unfoldable pub ask : {A : Type 0} → (ℕ → A) → M A
ask f w = (f w.calls, record w { calls = w.calls + 1 })

unfoldable pub print_out : Bytes → M (Unit {0})
print_out text w = (tt, record w { out = w.out ++ text })

unfoldable pub print_err : Bytes → M (Unit {0})
print_err text w = (tt, record w { err = w.err ++ text })

-- A new object of OpenSSL, with a number of its own.
unfoldable pub alloc : M ℕ
alloc w = (w.next, record w { next = w.next + 1; live = w.next ∷ w.live })

-- A constructor of OpenSSL that gives an object, or NULL.
unfoldable pub new_object : {A : Type 0} → Option A → M (Option (Object A))
unfolding alloc
new_object none = pure none
new_object (some a) = do id ← alloc; pure (some (record { id = id; value = a }))

-- What a constructor does to the objects.
abbrev pub Produced : {A : Type 0} → World → Option (Object A) × World → Type 0
Produced w (none, v) = (v.next ≡ w.next) × (v.live ≡ w.live) × (v.faults ≡ w.faults)
Produced w (some o, v) =
    (o.id ≡ w.next) × (v.next ≡ w.next + 1) × (v.live ≡ w.next ∷ w.live) × (v.faults ≡ w.faults)

pub new_object-Produced :
    {A : Type 0} (o : Option A) (w v : World)
    → v.next ≡ w.next
    → v.live ≡ w.live
    → v.faults ≡ w.faults
    → Produced w (new_object o v)
unfolding new_object
new_object-Produced none w v n l f = (n, l, f)
new_object-Produced (some a) w v n l f = ground arith

unfoldable pub is_live : ℕ → List ℕ → Bool
is_live id [] = false
is_live id (x ∷ xs) = id == x || is_live id xs

unfoldable pub without : ℕ → List ℕ → List ℕ
without id [] = []
without id (x ∷ xs) = let rest = without id xs in if id == x then xs else x ∷ rest

-- `X509_free`, `EVP_PKEY_free` and `SSL_CTX_free`
unfoldable pub free : ℕ → M (Unit {0})
unfolding is_live without
free id w = (
  tt,
  if is_live id w.live
      then record w { live = without id w.live }
      else record w { faults = w.faults + 1 },
)

-- A call that reads an object.
unfoldable pub touch : ℕ → M (Unit {0})
unfolding is_live
touch id w = (tt, if is_live id w.live then w else record w { faults = w.faults + 1 })

-- What a free does to the objects.
abbrev pub Freed : ℕ → World → List ℕ → Type 0
Freed id w rest = ((free id w).1.live ≡ rest) × ((free id w).1.faults ≡ w.faults)

pub free_lem :
    (id : ℕ) (live rest : List ℕ) (w : World)
    → w.live ≡ live
    → is_live id live ≡ true
    → without id live ≡ rest
    → Freed id w rest
unfolding free
free_lem id live rest w l h e = rw (l, h) (e, refl)

pub free_first : (id : ℕ) (rest : List ℕ) (w : World) → w.live ≡ id ∷ rest → Freed id w rest
unfolding free
free_first id rest w l = rw (l, ==_refl id) (refl, refl)

pub free_second :
    (id x : ℕ) (rest : List ℕ) (w : World)
    → w.live ≡ x ∷ id ∷ rest
    → (id == x) ≡ false
    → Freed id w (x ∷ rest)
unfolding free
free_second id x rest w l e = rw (l, e, ==_refl id) (refl, refl)

pub touch_lem : (id : ℕ) (w : World) → is_live id w.live ≡ true → touch id w ≡ (tt, w)
unfolding touch
touch_lem id w h = rw h

-- The same for a pointer that may be NULL.
unfoldable pub touch_some : {A : Type 0} → Option (Object A) → M (Unit {0})
unfolding touch
touch_some none = pure tt
touch_some (some x) = touch x.id

unfoldable pub find_file : Bytes → List (Bytes × File) → Option File
find_file path [] = none
find_file path ((p, f) ∷ disk) =
    let rest = find_file path disk in if bytes_eq path p then some f else rest

unfoldable pub put_file : Bytes → File → List (Bytes × File) → List (Bytes × File)
put_file path f [] = (path, f) ∷ []
put_file path f ((p, g) ∷ disk) =
    let rest = put_file path f disk in if bytes_eq path p then (p, f) ∷ disk else (p, g) ∷ rest

pub find_file-put_file :
    (q p : Bytes) (f : File) (disk : List (Bytes × File))
    → find_file q (put_file p f disk) ≡ (if bytes_eq q p then some f else find_file q disk)
unfolding find_file put_file
find_file-put_file q p f [] = refl
find_file-put_file q p f ((r, g) ∷ disk) =
    ground
      (arith, find_file-put_file q p f disk, bytes_eq_iff q p, bytes_eq_iff p r, bytes_eq_iff q r)

-- An object that is given and live, or none.
abbrev pub LiveIn : {A : Type 0} → List ℕ → Option (Object A) → Type 0
LiveIn live none = Unit
LiveIn live (some x) = is_live x.id live ≡ true

pub touch_some_lem :
    {A : Type 0} (o : Option (Object A)) (w : World) → LiveIn w.live o → touch_some o w ≡ (tt, w)
unfolding touch_some
touch_some_lem none w h = refl
touch_some_lem (some x) w h = touch_lem x.id w h
