-- ===== src/Http/Reading.antt =====
-- `read_until_crnlcrnl` and `read_body` of src/server.c, over any TLS session.
use adb_termux_bridge.Base.{
  ℕ, zero, suc, ◌+◌, ◌-◌, ◌≤◌, ◌<◌, ◌≡◌, refl, sym, ap, ◌∙◌, subst, ◌≢◌, ◌⊎◌, inl, inr, Bool, true,
  false, ◌&&◌, Option, none, some, List, [], ◌∷◌, ◌++◌, append-nil, append_assoc, arith, leb,
  Bool-cases, length, drop, length-append, Bytes, bytes_eq,
}
use adb_termux_bridge.Ssl.{Ssl, Outcome, Outcome-cases, Stopped, done, Delivers}

-- `buf` ends in CR LF CR LF.
unfoldable pub ends_headers : Bytes → Bool
ends_headers buf =
    leb 4 (length buf) && bytes_eq (drop (length buf - 4) buf) (b'\r' ∷ b'\n' ∷ b'\r' ∷ b'\n' ∷ [])

-- No shorter front of the buffer ends so.
abbrev pub Earliest : Bytes → Type 0
Earliest buf = (front back : Bytes) → front ++ back ≡ buf → back ≢ [] → ends_headers front ≡ false

snoc_split {ℓ} :
    {A : Type ℓ} (front back xs : List A) (x : A)
    → front ++ back ≡ xs ++ (x ∷ [])
    → back ≢ []
    → (b : List A) × (front ++ b ≡ xs)
snoc_split [] back xs x e ne = (xs, refl)
snoc_split (a ∷ []) back [] x e ne = absurd (ne (ground arith))
snoc_split (a ∷ b ∷ front) back [] x e ne = ground arith
snoc_split (a ∷ front) back (y ∷ xs) x e ne =
    let (b, q) = snoc_split front back xs x (ground arith) ne in (b, ground arith)

-- Nor does the buffer itself end so.
abbrev NoEnd : Bytes → Type 0
NoEnd buf = (front back : Bytes) → front ++ back ≡ buf → ends_headers front ≡ false

Earliest-snoc : (buf : Bytes) (x : ℕ) → NoEnd buf → Earliest (buf ++ (x ∷ []))
Earliest-snoc buf x h front back e ne = let (b, q) = snoc_split front back buf x e ne in h front b q

List-cases {ℓ} : {A : Type ℓ} (xs : List A) → (xs ≡ []) ⊎ (xs ≢ [])
List-cases [] = inl refl
List-cases (x ∷ xs) = inr (λ e. ground arith)

NoEnd-snoc :
    (buf : Bytes) (x : ℕ)
    → NoEnd buf
    → ends_headers (buf ++ (x ∷ [])) ≡ false
    → NoEnd (buf ++ (x ∷ []))
NoEnd-snoc buf x h no_end front back e = elim (List-cases back) [
  | inl nil ↦
      subst (λ f. ends_headers f ≡ false) (sym (sym (append-nil front) ∙ (rw nil at e))) no_end
  | inr ne ↦ Earliest-snoc buf x h front back e ne
]

NoEnd-nil : NoEnd []
unfolding ends_headers
NoEnd-nil [] back e = refl
NoEnd-nil (x ∷ front) back e = ground arith

single : (bs : Bytes) → 0 < length bs → length bs ≤ 1 → (x : ℕ) × (bs ≡ x ∷ [])
single [] h k = absurd (omega arith)
single (x ∷ []) h k = (x, refl)
single (x ∷ y ∷ bs) h k = absurd (omega arith)

-- What a block that was read satisfies, against a bound on its length.
abbrev pub IsBlock : ℕ → Bytes → Type 0
IsBlock n out = (ends_headers out ≡ true) × (length out ≤ n) × Earliest out

IsBlock-snoc :
    (n : ℕ) (buf : Bytes) (x : ℕ)
    → NoEnd buf
    → ends_headers (buf ++ (x ∷ [])) ≡ true
    → length buf + 1 ≤ n
    → IsBlock n (buf ++ (x ∷ []))
IsBlock-snoc n buf x h k fits =
    (k, omega (arith, length-append buf (x ∷ [])), Earliest-snoc buf x h)

module _ (ssl : Ssl) where
  open ssl use {Session, ssl_read, read_bounds}

  -- The loop; `room` is `cap - 1 - *len`, and `none` is the return value -1.
  read_until : ℕ → Bytes → Session → Option Bytes × Session
  read_until zero buf s = (none, s)
  read_until (suc room) buf s = elim (ssl_read s 1).0 [
    | done bs ↦ elim (ends_headers (buf ++ bs)) [
      | true ↦ (some (buf ++ bs), (ssl_read s 1).1)
      | false ↦ read_until room (buf ++ bs) (ssl_read s 1).1
    ]
    | _ ↦ (none, (ssl_read s 1).1)
  ]

  unfoldable pub read_until_crnlcrnl : ℕ → Session → Option Bytes × Session
  unfolding read_until
  read_until_crnlcrnl cap s = read_until (cap - 1) [] s

  Stopped-none :
      (room : ℕ) (buf : Bytes) (s : Session)
      → Stopped (ssl_read s 1).0
      → (read_until (suc room) buf s).0 ≡ none
  unfolding read_until
  Stopped-none room buf s h = go (ssl_read s 1).0 h
    where
      go :
          (o : Outcome Bytes)
          → Stopped o
          → (elim o as (λ _. Option Bytes × Session) [
            | done bs ↦ elim (ends_headers (buf ++ bs)) [
              | true ↦ (some (buf ++ bs), (ssl_read s 1).1)
              | false ↦ read_until room (buf ++ bs) (ssl_read s 1).1
            ]
            | _ ↦ (none, (ssl_read s 1).1)
          ]).0
            ≡ none
      go (done bs) h = absurd h
      go _ h = refl

  read_until-end :
      (room : ℕ) (buf bs : Bytes) (s : Session)
      → (ssl_read s 1).0 ≡ done bs
      → ends_headers (buf ++ bs) ≡ true
      → read_until (suc room) buf s ≡ (some (buf ++ bs), (ssl_read s 1).1)
  unfolding read_until
  read_until-end room buf bs s e h = rw (e, read_until) (rw (h, read_until) refl)

  read_until-more :
      (room : ℕ) (buf bs : Bytes) (s : Session)
      → (ssl_read s 1).0 ≡ done bs
      → ends_headers (buf ++ bs) ≡ false
      → read_until (suc room) buf s ≡ read_until room (buf ++ bs) (ssl_read s 1).1
  unfolding read_until
  read_until-more room buf bs s e h = rw (e, read_until) (rw (h, read_until) refl)

  read_until_sound :
      (room : ℕ) (buf : Bytes) (s : Session) (out : Bytes) (n : ℕ)
      → NoEnd buf
      → length buf + room ≤ n
      → (read_until room buf s).0 ≡ some out
      → IsBlock n out
  read_until_sound zero buf s out n h fits e = absurd (unfold read_until in (cc))
  read_until_sound (suc room) buf s out n h fits e = elim (Outcome-cases (ssl_read s 1).0) [
    | inr f ↦ absurd (none_ne (sym (Stopped-none room buf s f) ∙ e))
    | inl (bs, q) ↦
        let bound = read_bounds s 1 bs q in
        let (x, one) = single bs bound.0 bound.1 in
        let len = length-append buf (x ∷ []) in
        elim (Bool-cases (ends_headers (buf ++ (x ∷ [])))) [
          | inl k ↦
              subst (IsBlock n)
                (same (buf ++ (x ∷ [])) (
                  ap (λ t. t.0) (sym (read_until-end room buf (x ∷ []) s (q ∙ ap done one) k)) ∙ e))
                (IsBlock-snoc n buf x h k (omega arith))
          | inr k ↦
              read_until_sound room (buf ++ (x ∷ [])) (ssl_read s 1).1 out n (NoEnd-snoc buf x h k)
                (omega (arith, len))
                (ap (λ t. t.0) (sym (read_until-more room buf (x ∷ []) s (q ∙ ap done one) k)) ∙ e)
        ]
  ]
    where
      none_ne : none ≡ some out → ⊥
      none_ne p = cc

      same : (b : Bytes) → some b ≡ some out → b ≡ out
      same b p = cc

  read_until_complete :
      (room : ℕ) (todo buf : Bytes) (s last : Session)
      → Delivers ssl s todo last
      → ends_headers (buf ++ todo) ≡ true
      → Earliest (buf ++ todo)
      → todo ≢ []
      → length todo ≤ room
      → read_until room buf s ≡ (some (buf ++ todo), last)
  read_until_complete room [] buf s last d e early ne fits = absurd (ne refl)
  read_until_complete zero (x ∷ todo) buf s last d e early ne fits = absurd (omega arith)
  read_until_complete (suc room) (x ∷ []) buf s last d e early ne fits =
      read_until-end room buf (x ∷ []) s d.0 e ∙ ap (λ t. (some (buf ++ (x ∷ [])), t)) d.1
  read_until_complete (suc room) (x ∷ y ∷ todo) buf s last d e early ne fits =
      let a = append_assoc buf (x ∷ []) (y ∷ todo) in
      read_until-more room buf (x ∷ []) s d.0
        (early (buf ++ (x ∷ [])) (y ∷ todo) a (λ p. ground arith))
      ∙ read_until_complete room (y ∷ todo) (buf ++ (x ∷ [])) (ssl_read s 1).1 last d.1 (rw a e)
          (rw a early) (λ p. ground arith) (omega arith)
      ∙ ap (λ t. (some t, last)) a

  pub read_until_crnlcrnl_sound :
      (cap : ℕ) (s : Session) (out : Bytes)
      → (read_until_crnlcrnl cap s).0 ≡ some out
      → IsBlock (cap - 1) out
  unfolding read_until_crnlcrnl
  read_until_crnlcrnl_sound cap s out e =
      read_until_sound (cap - 1) [] s out (cap - 1) NoEnd-nil (omega arith) e

  -- A client that delivers such a block gets it read, and nothing behind it, if it fits.
  pub read_until_crnlcrnl_complete :
      (cap : ℕ) (block : Bytes) (s last : Session)
      → Delivers ssl s block last
      → IsBlock (cap - 1) block
      → read_until_crnlcrnl cap s ≡ (some block, last)
  unfolding read_until_crnlcrnl
  read_until_crnlcrnl_complete cap block s last d k =
      read_until_complete (cap - 1) block [] s last d k.0 k.2 (ends-ne-nil block k.0) k.1
    where
      ends-ne-nil : (b : Bytes) → ends_headers b ≡ true → b ≢ []
      ends-ne-nil b h e = not_nil (subst (λ t. ends_headers t ≡ true) e h)
        where
          not_nil : ends_headers [] ≡ true → ⊥
          not_nil p = unfold ends_headers in cc
