-- ===== src/Base/Text.antt =====
-- C strings and byte buffers as lists of bytes, and the functions of <string.h> that the program
-- calls on them. The terminating NUL is not part of the list.
use Prim.Native.Char.{code}
use Prim.Native.String.{String}
use adb_termux_bridge.Base.Tests.{
  ℕ, zero, suc, ◌≡◌, ◌≢◌, refl, ap, Bool, true, false, ◌&&◌, ◌==◌, if◌then◌else◌, Option, none,
  some, List, [], ◌∷◌, ◌++◌, arith, ◌↔◌,
}
use adb_termux_bridge.Base.Lists.{All}

abbrev pub Bytes : Type 0
Bytes = List ℕ

-- The bytes of an ASCII literal.
abbrev pub codes : String → Bytes
codes String.[] = []
codes (String.◌∷◌ c s) = code c ∷ codes s

-- `strcmp(a, b) == 0`
unfoldable pub bytes_eq : Bytes → Bytes → Bool
bytes_eq [] [] = true
bytes_eq (x ∷ xs) (y ∷ ys) = x == y && bytes_eq xs ys
bytes_eq _ _ = false

pub bytes_eq_iff : (a b : Bytes) → (bytes_eq a b ≡ true) ↔ (a ≡ b)
unfolding bytes_eq
bytes_eq_iff (x ∷ a) (y ∷ b) = ground (arith, bytes_eq_iff a b)
bytes_eq_iff _ _ = ground arith

pub bytes_eq_refl : (a : Bytes) → bytes_eq a a ≡ true
bytes_eq_refl a = (bytes_eq_iff a a).1 refl

-- `strncmp(s, prefix, strlen(prefix)) == 0`
unfoldable pub starts_with : Bytes → Bytes → Bool
starts_with s [] = true
starts_with [] (p ∷ ps) = false
starts_with (c ∷ cs) (p ∷ ps) = c == p && starts_with cs ps

pub starts_with-append : (p rest : Bytes) → starts_with (p ++ rest) p ≡ true
unfolding starts_with
starts_with-append [] rest = refl
starts_with-append (x ∷ p) rest = ground (arith, starts_with-append p rest)

-- `strstr(s, needle)`: the rest of `s` from the first occurrence on.
unfoldable pub strstr : Bytes → Bytes → Option Bytes
strstr [] needle = if starts_with [] needle then some [] else none
strstr (c ∷ cs) needle =
    let later = strstr cs needle in if starts_with (c ∷ cs) needle then some (c ∷ cs) else later

-- `while (*s == ' ') s++;`
unfoldable pub skip_spaces : Bytes → Bytes
skip_spaces [] = []
skip_spaces (c ∷ cs) = let rest = skip_spaces cs in if c == b' ' then rest else c ∷ cs

-- A string with no NUL: what a C string can hold.
abbrev pub NoNul : Bytes → Type 0
NoNul = All (λ c. c ≢ 0)

-- The part of a buffer before its first NUL.
unfoldable pub c_str : Bytes → Bytes
c_str [] = []
c_str (zero ∷ cs) = []
c_str (suc c ∷ cs) = suc c ∷ c_str cs

pub c_str-NoNul : (s : Bytes) → NoNul s → c_str s ≡ s
unfolding c_str
c_str-NoNul [] h = refl
c_str-NoNul (zero ∷ s) h = absurd (h.0 refl)
c_str-NoNul (suc c ∷ s) h = ap (◌∷◌ (suc c)) (c_str-NoNul s h.1)

-- `needle` begins nowhere in `front`, where `rest` stands behind it.
abbrev pub Absent : Bytes → Bytes → Bytes → Type 0
Absent needle [] rest = Unit
Absent needle (c ∷ cs) rest =
    (starts_with (c ∷ (cs ++ rest)) needle ≡ false) × Absent needle cs rest

pub strstr-append :
    (needle front rest : Bytes)
    → Absent needle front rest
    → starts_with rest needle ≡ true
    → strstr (front ++ rest) needle ≡ some rest
unfolding strstr
strstr-append needle [] [] h e = rw e
strstr-append needle [] (c ∷ rest) h e = rw e
strstr-append needle (c ∷ front) rest h e = rw h.0 (strstr-append needle front rest h.1 e)

-- A string without a byte.
abbrev pub Without : ℕ → Bytes → Type 0
Without b = All (λ c. (c == b) ≡ false)

-- The text up to the first `b`, and what stands behind it; `none` if there is no `b`.
unfoldable pub cut_at : ℕ → Bytes → Bytes × Option Bytes
cut_at b [] = ([], none)
cut_at b (c ∷ cs) = let rest = cut_at b cs in if c == b then ([], some cs) else (c ∷ rest.0, rest.1)

-- `b` does not occur in `s`: nothing is cut off.
pub cut_at-Without : (b : ℕ) (s : Bytes) → Without b s → cut_at b s ≡ (s, none)
unfolding cut_at
cut_at-Without b [] h = refl
cut_at-Without b (c ∷ s) h = rw h.0 (ap (λ r. (c ∷ r.0, r.1)) (cut_at-Without b s h.1))
