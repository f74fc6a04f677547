-- ===== src/Http/Headers.antt =====
-- `get_content_length` and `is_chunked` of src/server.c. Both search the header block as one C
-- string, from the request line on.
use adb_termux_bridge.Base.{
  ℕ, zero, suc, ◌≤◌, ◌≡◌, refl, ap, ◌∙◌, Bool, false, Option, none, some, ◌∷◌, ◌++◌, arith, drop, ℤ,
  pos, negsuc, Bytes, codes, starts_with, starts_with-append, strstr, skip_spaces, print_base,
  long_max, strtol, strtol-print_base, print_base-cons, Absent, strstr-append,
}

-- The value behind the first of two spellings of a name; `none` if neither occurs. Both names have
-- the length `n`.
header_value : ℕ → Bytes → Bytes → Bytes → Option Bytes
header_value n upper lower headers = elim (strstr headers upper) [
  | some at ↦ some (skip_spaces (drop n at))
  | none ↦ elim (strstr headers lower) [ some at ↦ some (skip_spaces (drop n at)) | none ↦ none ]
]

abbrev pub content_length_name : Bytes
content_length_name = codes "Content-Length:"

abbrev transfer_encoding_name : Bytes
transfer_encoding_name = codes "Transfer-Encoding:"

-- `atol` is strtol in base 10.
unfoldable pub get_content_length : Bytes → ℤ
unfolding header_value
get_content_length headers =
    elim (header_value 15 content_length_name (codes "content-length:") headers) [
      | some value ↦ strtol 10 value
      | none ↦ negsuc 0
    ]

unfoldable pub is_chunked : Bytes → Bool
unfolding header_value
is_chunked headers =
    elim (header_value 18 transfer_encoding_name (codes "transfer-encoding:") headers) [
      | some value ↦ starts_with value (codes "chunked")
      | none ↦ false
    ]

abbrev pub spaces : ℕ → Bytes → Bytes
spaces zero s = s
spaces (suc n) s = b' ' ∷ spaces n s

skip-spaces : (n : ℕ) (s : Bytes) → skip_spaces (spaces n s) ≡ skip_spaces s
unfolding skip_spaces
skip-spaces zero s = refl
skip-spaces (suc n) s = skip-spaces n s

skip_spaces-print_base :
    (n : ℕ) (rest : Bytes) → skip_spaces (print_base 10 n ++ rest) ≡ print_base 10 n ++ rest
unfolding skip_spaces
skip_spaces-print_base n rest =
    let (c, cs, q, lo, sp) = print_base-cons 10 n (omega arith) (omega arith) in rw q (ground arith)

-- What a header line with the number `n` holds behind its name.
abbrev pub number_line : ℕ → ℕ → Bytes → Bytes
number_line k n rest = spaces k (print_base 10 n ++ (b'\r' ∷ b'\n' ∷ rest))

-- A `Content-Length` header with any number of spaces in front of a number that fits a `long` is
-- read as that number, if the name does not occur earlier in the block, in a value, say, or in the
-- request line.
pub get_content_length_lem :
    (front rest : Bytes) (n k : ℕ)
    → Absent content_length_name front (content_length_name ++ number_line k n rest)
    → n ≤ long_max
    → get_content_length (front ++ (content_length_name ++ number_line k n rest)) ≡ pos n
unfolding get_content_length
get_content_length_lem front rest n k h small =
    let found =
      strstr-append content_length_name front _ h (starts_with-append content_length_name _) in
    rw (found, get_content_length, header_value)
      (ap (strtol 10) (skip-spaces k _ ∙ skip_spaces-print_base n _)
        ∙ strtol-print_base 10 n (b'\r' ∷ b'\n' ∷ rest) (omega arith) (omega arith) small
            (omega arith))

-- A block that names neither spelling has no length: the result is -1.
pub get_content_length_absent :
    (headers : Bytes)
    → strstr headers content_length_name ≡ none
    → strstr headers (codes "content-length:") ≡ none
    → get_content_length headers ≡ negsuc 0
unfolding get_content_length
get_content_length_absent headers h k = ground arith
