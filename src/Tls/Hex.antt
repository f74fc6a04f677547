-- ===== src/Tls/Hex.antt =====
-- The digests and byte arrays that src/tls.c prints in hexadecimal, and the C source that
-- `write_der_as_c` writes.
use adb_termux_bridge.Base.{
  ℕ, zero, suc, ◌+◌, ◌*◌, ◌/◌, ◌%◌, ◌<◌, ◌≡◌, refl, ap, ◌∙◌, Bool, true, false, ◌||◌, Option, none,
  some, List, [], ◌∷◌, ◌++◌, append_assoc, arith, ltb, ◌==◌, if◌then◌else◌, All, length, Bytes,
  codes, digit_char, digit_value, digit_value-digit_char, is_space, Without, cut_at,
}

-- `%02x` of a byte
unfoldable pub hex2 : ℕ → Bytes
hex2 b = digit_char (b / 16) ∷ digit_char (b % 16) ∷ []

unfoldable pub upper_digit : ℕ → ℕ
upper_digit d = if ltb d 10 then 48 + d else 55 + d

-- `%02X` of a byte
unfoldable pub upper_hex2 : ℕ → Bytes
unfolding upper_digit
upper_hex2 b = upper_digit (b / 16) ∷ upper_digit (b % 16) ∷ []

-- The loop of `tls_print_fingerprint`: a colon behind every byte but the last.
unfoldable pub fingerprint_line : Bytes → Bytes
unfolding upper_hex2
fingerprint_line [] = []
fingerprint_line (b ∷ []) = upper_hex2 b ++ (b'\n' ∷ [])
fingerprint_line (b ∷ c ∷ cs) = upper_hex2 b ++ (b':' ∷ fingerprint_line (c ∷ cs))

-- The loops of `tls_print_pubkey_hex` and `tls_save_to_fingerprint_dir`.
unfoldable pub hex_digits : Bytes → Bytes
unfolding hex2
hex_digits [] = []
hex_digits (b ∷ bs) = hex2 b ++ hex_digits bs

-- The loop of `write_der_as_c` from byte `i` on, with its line breaks.
unfoldable pub der_rows : ℕ → Bytes → Bytes
unfolding hex2
der_rows i [] = []
der_rows i (b ∷ bs) =
    (if i % 12 == 0 then b' ' ∷ b' ' ∷ [] else [])
    ++ (b'0'
        ∷ b'x'
        ∷ (hex2 b
            ++ (b','
                ∷ ((if i % 12 == 11 || length bs == 0 then b'\n' ∷ [] else [])
                    ++ der_rows (i + 1) bs))))

unfoldable pub write_der_as_c : Bytes → Bytes → Bytes
unfolding der_rows
write_der_as_c var_name der =
    codes "static const unsigned char "
    ++ (var_name
        ++ (codes "[] = {\n"
            ++ (der_rows 0 der
                ++ (codes "};\nstatic const unsigned int "
                    ++ (var_name ++ (codes "_len = sizeof(" ++ (var_name ++ codes ");\n\n")))))))

-- Where a reader of an array's initialiser stands.
pub data Place : Type 0 where
  between after_zero after_x : Place
  high byte : ℕ → Place

-- An independent reader of C: white space and bytes `0x..,` up to the closing brace.
unfoldable pub read_array : Place → Bytes → Option (Bytes × Bytes)
read_array place [] = none
read_array between (c ∷ cs) =
    let space = read_array between cs in
    let literal = read_array after_zero cs in
    if is_space c
    then space
    else if c == b'0'
    then literal
    else if c == b'}'
    then some ([], cs)
    else none
read_array after_zero (c ∷ cs) =
    let rest = read_array after_x cs in if c == b'x' then rest else none
read_array after_x (c ∷ cs) =
    let rest = read_array (high (digit_value c)) cs in if ltb (digit_value c) 16 then rest else none
read_array (high h) (c ∷ cs) =
    let rest = read_array (byte (h * 16 + digit_value c)) cs in
    if ltb (digit_value c) 16 then rest else none
read_array (byte v) (c ∷ cs) =
    let rest = read_array between cs in
    if c == b',' then elim rest [ none ↦ none | some r ↦ some (v ∷ r.0, r.1) ] else none

unfoldable pub array_behind : Option Bytes → Option (Bytes × Bytes)
array_behind none = none
array_behind (some rest) = read_array between rest

-- The next array of a C source, behind the first opening brace, and what follows its closing brace.
unfoldable pub next_array : Bytes → Option (Bytes × Bytes)
unfolding array_behind
next_array source = array_behind (cut_at b'{' source).1

unfoldable pub cons_array : Bytes → Option (List Bytes) → Option (List Bytes)
cons_array der none = none
cons_array der (some rest) = some (der ∷ rest)

-- The array, and what `read` makes of the text behind it.
unfoldable pub read_on :
    (Bytes → Option (List Bytes)) → Option (Bytes × Bytes) → Option (List Bytes)
unfolding cons_array
read_on read none = none
read_on read (some r) = cons_array r.0 (read r.1)

-- The first `count` arrays.
unfoldable pub read_arrays : ℕ → Bytes → Option (List Bytes)
unfolding next_array read_on
read_arrays zero source = some []
read_arrays (suc count) source = read_on (read_arrays count) (next_array source)

abbrev pub IsByte : ℕ → Type 0
IsByte b = b < 256

read_array-spaces :
    (t : Bool) (s rest : Bytes)
    → All (λ c. is_space c ≡ true) s
    → read_array between ((if t then s else []) ++ rest) ≡ read_array between rest
unfolding read_array
read_array-spaces false s rest h = refl
read_array-spaces true [] rest h = refl
read_array-spaces true (c ∷ s) rest h = rw h.0 (read_array-spaces true s rest h.1)

read_array-byte :
    (b : ℕ) (rest bs more : Bytes)
    → b < 256
    → read_array between rest ≡ some (bs, more)
    → read_array between (b'0' ∷ b'x' ∷ (hex2 b ++ (b',' ∷ rest))) ≡ some (b ∷ bs, more)
unfolding read_array hex2 is_space
read_array-byte b rest bs more h e =
    let hi = digit_value-digit_char (b / 16) (omega arith) in
    let lo = digit_value-digit_char (b % 16) (omega arith) in ground (arith, hi, lo, e)

read_array-der_rows :
    (i : ℕ) (bs rest : Bytes)
    → All IsByte bs
    → read_array between (der_rows i bs ++ (b'}' ∷ rest)) ≡ some (bs, rest)
unfolding der_rows is_space
read_array-der_rows i [] rest h = unfold read_array in refl
read_array-der_rows i (b ∷ bs) rest h =
    let last = i % 12 == 11 || length bs == 0 in
    let tail = b'}' ∷ rest in
    ap (read_array between) (append_assoc (if i % 12 == 0 then b' ' ∷ b' ' ∷ [] else []) _ tail)
    ∙ read_array-spaces (i % 12 == 0) (b' ' ∷ b' ' ∷ []) _ (refl, (refl, tt))
    ∙ read_array-byte b ((((if last then b'\n' ∷ [] else []) ++ der_rows (i + 1) bs)) ++ tail) bs
        rest h.0
        (ap (read_array between) (append_assoc (if last then b'\n' ∷ [] else []) _ tail)
          ∙ read_array-spaces last (b'\n' ∷ []) _ (refl, tt)
          ∙ read_array-der_rows (i + 1) bs rest h.1)

pub cut_at-append :
    (b : ℕ) (s rest : Bytes) → Without b s → (cut_at b (s ++ rest)).1 ≡ (cut_at b rest).1
unfolding cut_at
cut_at-append b [] rest h = refl
cut_at-append b (c ∷ s) rest h = rw h.0 (cut_at-append b s rest h.1)

-- What `write_der_as_c` writes behind the array's closing brace.
unfoldable pub der_tail : Bytes → Bytes
der_tail name =
    codes ";\nstatic const unsigned int "
    ++ (name ++ (codes "_len = sizeof(" ++ (name ++ codes ");\n\n")))

write_der_as_c_lem :
    (name der more : Bytes)
    → write_der_as_c name der ++ more
      ≡ codes "static const unsigned char "
        ++ (name ++ (codes "[] = {\n" ++ (der_rows 0 der ++ (b'}' ∷ (der_tail name ++ more)))))
unfolding write_der_as_c der_tail
write_der_as_c_lem name der more = simp append_assoc

-- The array that is written into the C source is the DER encoding, byte for byte, for every length
-- and so for every place of the line breaks, if the variable's name holds no brace.
pub next_array-write_der_as_c :
    (name der more : Bytes)
    → Without b'{' name
    → All IsByte der
    → next_array (write_der_as_c name der ++ more) ≡ some (der, der_tail name ++ more)
unfolding next_array array_behind read_array is_space cut_at
next_array-write_der_as_c name der more n d =
    ap next_array (write_der_as_c_lem name der more)
    ∙ ap array_behind (cut_at-append b'{' name _ n)
    ∙ read_array-der_rows 0 der _ d

-- No array begins behind the brace.
pub next_array-der_tail :
    (name more : Bytes) → Without b'{' name → next_array (der_tail name ++ more) ≡ next_array more
unfolding next_array der_tail cut_at
next_array-der_tail name more n =
    let middle = codes "_len = sizeof(" in
    let end = codes ");\n\n" in
    let rest_at = λ (t : Bytes). (cut_at b'{' t).1 in
    ap array_behind (
      ap rest_at (append_assoc name (middle ++ (name ++ end)) more)
      ∙ cut_at-append b'{' name _ n
      ∙ ap rest_at (append_assoc name end more)
      ∙ cut_at-append b'{' name (end ++ more) n)

pub length-hex_digits : (bs : Bytes) → length (hex_digits bs) ≡ 2 * length bs
unfolding hex_digits hex2
length-hex_digits [] = refl
length-hex_digits (b ∷ bs) = omega (arith, length-hex_digits bs)
