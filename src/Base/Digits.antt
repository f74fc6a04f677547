-- ===== src/Base/Digits.antt =====
-- Numbers as text: `%zu`, `%d`, `%zx`, `%02x` of printf, and strtol.
use native.Mathlib.Nat.{
  div-add-mod', mod-lt, div-lt_self, div-lt_iff_lt-mul, pow-suc, pow-zero, div-eq_of_lt,
}
use adb_termux_bridge.Base.Tests.{
  ◌^◌, ℕ, zero, suc, ◌+◌, ◌-◌, ◌*◌, ◌/◌, ◌%◌, ◌≤◌, ◌<◌, ◌≡◌, refl, ap, ◌∙◌, Bool, true, false, ◌&&◌,
  ◌||◌, ltb, leb, ◌==◌, if◌then◌else◌, [], ◌∷◌, ◌++◌, append_assoc, arith, inl, inr, Bool-cases,
  lt→ltb,
}
use adb_termux_bridge.Base.Lists.{All-imp, length, length-append, All, All-append}
use adb_termux_bridge.Base.Int.{ℤ, pos, negsuc, neg}
use adb_termux_bridge.Base.Text.{Bytes}

unfoldable pub digit_char : ℕ → ℕ
digit_char d = if ltb d 10 then 48 + d else 87 + d

-- 16 for a byte that is no digit
unfoldable pub digit_value : ℕ → ℕ
digit_value c =
    if leb b'0' c && leb c b'9'
    then c - 48
    else if leb b'a' c && leb c b'f'
    then c - 87
    else if leb b'A' c && leb c b'F'
    then c - 55
    else 16

pub digit_value-digit_char : (d : ℕ) → d < 16 → digit_value (digit_char d) ≡ d
unfolding digit_value digit_char
digit_value-digit_char d h = ground arith

digits_onto : ℕ → ℕ → ℕ → Bytes
digits_onto base zero n = []
digits_onto base (suc fuel) n =
    let front = digits_onto base fuel (n / base) in
    (if n / base == 0 then [] else front) ++ (digit_char (n % base) ∷ [])

-- The digits of `n`, most significant first.
unfoldable pub print_base : ℕ → ℕ → Bytes
unfolding digits_onto digit_char
print_base base n = digits_onto base (suc n) n

-- The longest run of digits at the front, as a number, and what follows it.
unfoldable pub read_digits : ℕ → ℕ → Bytes → ℕ
read_digits base v [] = v
read_digits base v (c ∷ cs) =
    let more = read_digits base (v * base + digit_value c) cs in
    if ltb (digit_value c) base then more else v

unfoldable pub is_space : ℕ → Bool
is_space c = c == b' ' || (leb 9 c && leb c 13)

unfoldable pub skip_isspace : Bytes → Bytes
unfolding is_space
skip_isspace [] = []
skip_isspace (c ∷ cs) = let rest = skip_isspace cs in if is_space c then rest else c ∷ cs

abbrev pub long_max : ℕ
long_max = 9223372036854775807

-- strtol's clamping to LONG_MIN..LONG_MAX
unfoldable pub clamp_long : Bool → ℕ → ℤ
clamp_long false v = pos (if ltb long_max v then long_max else v)
clamp_long true v = if ltb long_max v then negsuc long_max else neg v

-- `0x` or `0X` in front of a hexadecimal digit
unfoldable pub skip_hex_prefix : ℕ → Bytes → Bytes
skip_hex_prefix base (z ∷ x ∷ d ∷ cs) =
    if base == 16 && (z == b'0' && ((x == b'x' || x == b'X') && ltb (digit_value d) 16))
    then d ∷ cs
    else z ∷ x ∷ d ∷ cs
skip_hex_prefix base cs = cs

unfoldable pub strtol_signed : ℕ → Bytes → ℤ
strtol_signed base [] = pos 0
strtol_signed base (c ∷ cs) =
    if c == b'-'
    then clamp_long true (read_digits base 0 (skip_hex_prefix base cs))
    else clamp_long false
        (read_digits base 0 (skip_hex_prefix base (if c == b'+' then cs else c ∷ cs)))

-- `strtol(s, NULL, base)` for base 10 or 16
unfoldable pub strtol : ℕ → Bytes → ℤ
unfolding strtol_signed
strtol base s = strtol_signed base (skip_isspace s)

-- `%d` and `%ld`
unfoldable pub print_int : ℤ → Bytes
print_int (pos n) = print_base 10 n
print_int (negsuc n) = b'-' ∷ print_base 10 (suc n)

div-lt : (n base : ℕ) → 2 ≤ base → (n / base == 0) ≡ false → n / base < n
div-lt zero base h k = ground arith
div-lt (suc n) base h k = div-lt_self (omega arith) h

mod_small : (n base : ℕ) → (n / base == 0) ≡ true → 0 * base + n % base ≡ n
mod_small n base h = ground (arith, div-add-mod' n base)

read_digits_cons :
    (base v d : ℕ) (rest : Bytes)
    → base ≤ 16
    → d < base
    → read_digits base v (digit_char d ∷ rest) ≡ read_digits base (v * base + d) rest
unfolding read_digits
read_digits_cons base v d rest hi h = rw (digit_value-digit_char d (omega arith), lt→ltb d base h)

read_digits-digits_onto :
    (base fuel n : ℕ) (rest : Bytes)
    → 2 ≤ base
    → base ≤ 16
    → n < fuel
    → read_digits base 0 (digits_onto base fuel n ++ rest) ≡ read_digits base n rest
unfolding digits_onto
read_digits-digits_onto base zero n rest lo hi h = absurd (omega arith)
read_digits-digits_onto base (suc fuel) n rest lo hi h =
    let step = read_digits_cons base (n / base) (n % base) rest hi (mod-lt n (omega arith)) in
    elim (Bool-cases (n / base == 0)) [
      | inl one ↦ rw one (
          read_digits_cons base 0 (n % base) rest hi (mod-lt n (omega arith))
          ∙ ap (λ t. read_digits base t rest) (mod_small n base one))
      | inr more ↦ rw more (
          ap (read_digits base 0)
            (append_assoc (digits_onto base fuel (n / base)) (digit_char (n % base) ∷ []) rest)
          ∙ read_digits-digits_onto base fuel (n / base) (digit_char (n % base) ∷ rest) lo hi
              (omega (arith, div-lt n base lo more))
          ∙ step
          ∙ ap (λ t. read_digits base t rest) (div-add-mod' n base))
    ]

-- What stands behind a number ends it: nothing, or a byte below `0`.
abbrev pub EndsNumber : Bytes → Type 0
EndsNumber [] = Unit
EndsNumber (c ∷ cs) = c < 48

read_digits_end :
    (base v : ℕ) (rest : Bytes) → base ≤ 16 → EndsNumber rest → read_digits base v rest ≡ v
unfolding read_digits digit_value
read_digits_end base v [] hi h = refl
read_digits_end base v (c ∷ rest) hi h = ground arith

IsDigit : ℕ → Type 0
IsDigit c = (digit_value c < 16) × (48 ≤ c) × (is_space c ≡ false)

digit_char-IsDigit : (d : ℕ) → d < 16 → IsDigit (digit_char d)
unfolding IsDigit digit_char is_space digit_value
digit_char-IsDigit d h = (ground arith, ground arith, ground arith)

IsDigit-front : (b : Bool) (p : Bytes) → All IsDigit p → All IsDigit (if b then [] else p)
IsDigit-front true p h = tt
IsDigit-front false p h = h

digits_onto-IsDigit :
    (base fuel n : ℕ) → 2 ≤ base → base ≤ 16 → All IsDigit (digits_onto base fuel n)
unfolding digits_onto
digits_onto-IsDigit base zero n lo hi = tt
digits_onto-IsDigit base (suc fuel) n lo hi =
    All-append IsDigit (if n / base == 0 then [] else digits_onto base fuel (n / base)) _
      (IsDigit-front (n / base == 0) _ (digits_onto-IsDigit base fuel (n / base) lo hi))
      (digit_char-IsDigit (n % base) (omega (arith, mod-lt n {m = base} (omega arith))), tt)

skip_hex_prefix_lem :
    (base : ℕ) (p rest : Bytes)
    → All IsDigit p
    → EndsNumber rest
    → skip_hex_prefix base (p ++ rest) ≡ p ++ rest
unfolding skip_hex_prefix IsDigit digit_value
skip_hex_prefix_lem base [] [] h e = refl
skip_hex_prefix_lem base [] (a ∷ []) h e = refl
skip_hex_prefix_lem base [] (a ∷ b ∷ []) h e = refl
skip_hex_prefix_lem base [] (a ∷ b ∷ c ∷ r) h e = ground arith
skip_hex_prefix_lem base (a ∷ []) [] h e = refl
skip_hex_prefix_lem base (a ∷ []) (b ∷ []) h e = refl
skip_hex_prefix_lem base (a ∷ []) (b ∷ c ∷ r) h e = ground arith
skip_hex_prefix_lem base (a ∷ b ∷ []) [] h e = refl
skip_hex_prefix_lem base (a ∷ b ∷ []) (c ∷ r) h e = ground arith
skip_hex_prefix_lem base (a ∷ b ∷ c ∷ p) r h e = ground arith

digits_onto-cons :
    (base fuel n : ℕ) → (c : ℕ) × (cs : Bytes) × (digits_onto base (suc fuel) n ≡ c ∷ cs)
unfolding digits_onto
digits_onto-cons base fuel n =
    front (if n / base == 0 then [] else digits_onto base fuel (n / base))
  where
    front : (p : Bytes) → (c : ℕ) × (cs : Bytes) × (p ++ (digit_char (n % base) ∷ []) ≡ c ∷ cs)
    front [] = (digit_char (n % base), [], refl)
    front (c ∷ cs) = (c, cs ++ (digit_char (n % base) ∷ []), refl)

strtol-IsDigit :
    (base : ℕ) (c : ℕ) (cs rest : Bytes)
    → All IsDigit (c ∷ cs)
    → EndsNumber rest
    → strtol base (c ∷ (cs ++ rest)) ≡ clamp_long false (read_digits base 0 (c ∷ (cs ++ rest)))
unfolding strtol skip_isspace IsDigit
strtol-IsDigit base c cs rest h e = ground (arith, skip_hex_prefix_lem base (c ∷ cs) rest h e)

-- strtol reads back what printf prints, up to the byte that ends the number.
pub strtol-print_base :
    (base n : ℕ) (rest : Bytes)
    → 2 ≤ base
    → base ≤ 16
    → n ≤ long_max
    → EndsNumber rest
    → strtol base (print_base base n ++ rest) ≡ pos n
unfolding print_base clamp_long
strtol-print_base base n rest lo hi h e =
    let (c, cs, q) = digits_onto-cons base n n in
    let d = digits_onto-IsDigit base (suc n) n lo hi in
    let r = read_digits-digits_onto base (suc n) n rest lo hi (omega arith) in
    rw q (
      strtol-IsDigit base c cs rest (rw q at d) e
      ∙ ap (clamp_long false) ((rw q at r) ∙ read_digits_end base n rest hi e)
      ∙ ground arith)

-- A printed number begins with a digit.
pub print_base-cons :
    (base n : ℕ)
    → 2 ≤ base
    → base ≤ 16
    → (c : ℕ) × (cs : Bytes) × (print_base base n ≡ c ∷ cs) × (48 ≤ c) × (is_space c ≡ false)
unfolding print_base IsDigit
print_base-cons base n lo hi =
    let (c, cs, q) = digits_onto-cons base n n in
    let d : All IsDigit (c ∷ cs) = rw q at (digits_onto-IsDigit base (suc n) n lo hi) in
    (c, cs, q, d.0.1, d.0.2)

div-lt_pow : (base k n : ℕ) → 0 < base → n < base ^ suc k → n / base < base ^ k
div-lt_pow base k n h lt = (div-lt_iff_lt-mul h).1 (rw (pow-suc base k) at lt)

length-digits_onto :
    (base fuel n k : ℕ) → 0 < base → n < base ^ suc k → length (digits_onto base fuel n) ≤ suc k
unfolding digits_onto
length-digits_onto base zero n k h lt = omega arith
length-digits_onto base (suc fuel) n zero h lt =
    let one : base ^ 1 ≡ base = pow-suc base 0 ∙ ap (λ t. t * base) (pow-zero base) ∙ omega arith in
    let small : n < base = rw one at lt in
    let e : n / base ≡ 0 = div-eq_of_lt small in ground (arith, e)
length-digits_onto base (suc fuel) n (suc k) h lt =
    let front = length-digits_onto base fuel (n / base) k h (div-lt_pow base (suc k) n h lt) in
    let last = digit_char (n % base) ∷ [] in
    ground (
      arith,
      front,
      length-append (if n / base == 0 then [] else digits_onto base fuel (n / base)) last,
    )

-- A number below a power of the base has at most as many digits.
pub length-print_base :
    (base n k : ℕ) → 0 < base → n < base ^ suc k → length (print_base base n) ≤ suc k
unfolding print_base
length-print_base base n k h lt = length-digits_onto base (suc n) n k h lt

-- A printed number holds no byte below the digits.
pub print_base-Without :
    (base n b : ℕ) → 2 ≤ base → base ≤ 16 → b < 48 → All (λ c. (c == b) ≡ false) (print_base base n)
unfolding print_base IsDigit
print_base-Without base n b lo hi h =
    All-imp IsDigit (λ c. (c == b) ≡ false) (λ c d. ground arith) (digits_onto base (suc n) n)
      (digits_onto-IsDigit base (suc n) n lo hi)
