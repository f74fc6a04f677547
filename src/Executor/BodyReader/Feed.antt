-- ===== src/Executor/BodyReader/Feed.antt =====
-- The reader fed one byte at a time, with no session: what the bytes of a body mean, however the
-- reads cut them.
use adb_termux_bridge.Base.{
  ℕ, suc, ◌+◌, ◌-◌, ◌≤◌, ◌<◌, ◌≡◌, refl, sym, ap, ◌∙◌, inl, inr, true, false, Option, none, some,
  [], ◌∷◌, ◌++◌, append_assoc, arith, ltb, ◌==◌, if◌then◌else◌, Bool-cases, length, pos, pos_part,
  Bytes, minus,
}
use adb_termux_bridge.Ssl.{Ssl, done}
use adb_termux_bridge.Executor.BodyReader.{
  BrState, br_header, br_data, br_trailer, br_final, br_done, stdin_buf_size, Reader, header_byte,
  trailer_byte, final_byte, data_bytes, to_read, with_byte, with_bytes, br_step, one_byte,
  data_step, dispatch,
}

abbrev pub feed_in : BrState → ℕ → Reader → Reader
feed_in br_header c r = header_byte c r
feed_in br_data c r = data_bytes (c ∷ []) r
feed_in br_trailer c r = trailer_byte c r
feed_in br_final c r = final_byte c r
feed_in br_done c r = r

unfoldable pub feed : Bytes → Reader → Reader
feed [] r = r
feed (c ∷ cs) r = feed cs (feed_in r.state c r)

pub feed-append : (xs ys : Bytes) (r : Reader) → feed (xs ++ ys) r ≡ feed ys (feed xs r)
unfolding feed
feed-append [] ys r = refl
feed-append (x ∷ xs) ys r = feed-append xs ys (feed_in r.state x r)

pub feed-cons : (c : ℕ) (cs : Bytes) (r : Reader) → feed (c ∷ cs) r ≡ feed cs (feed_in r.state c r)
unfolding feed
feed-cons c cs r = refl

pub feed_at :
    (st : BrState) (c : ℕ) (cs : Bytes) (r : Reader)
    → r.state ≡ st
    → feed (c ∷ cs) r ≡ feed cs (feed_in st c r)
feed_at st c cs r e = feed-cons c cs r ∙ ap (λ x. feed cs (feed_in x c r)) e

minus_add : (n k : ℕ) → minus (pos (n + k)) n ≡ pos k
unfolding minus
minus_add n k = ground arith

-- One byte of a body of which more is to come.
data_bytes_first :
    (c : ℕ) (r : Reader) (n : ℕ)
    → r.remaining ≡ pos (suc (suc n))
    → data_bytes (c ∷ []) r
      ≡ record r { stdin_buf = r.stdin_buf ++ (c ∷ []); remaining = pos (suc n) }
unfolding data_bytes minus
data_bytes_first c r n e = ground arith

-- The bytes of a read, where `k` bytes are still to come behind them.
pub data_bytes_left :
    (bs : Bytes) (r : Reader) (k : ℕ)
    → r.remaining ≡ pos (length bs + k)
    → data_bytes bs r ≡ (
        let t = record r { stdin_buf = r.stdin_buf ++ bs; remaining = pos k } in
        if k == 0
        then (if r.chunked
            then record t { state = br_trailer }
            else record t { state = br_done; body_eof = true })
        else t)
unfolding data_bytes
data_bytes_left bs r k e = rw (e, minus_add (length bs) k) refl

data_bytes_split :
    (c d : ℕ) (bs : Bytes) (r : Reader) (k : ℕ)
    → r.remaining ≡ pos (length (c ∷ d ∷ bs) + k)
    → data_bytes (d ∷ bs) (data_bytes (c ∷ []) r) ≡ data_bytes (c ∷ d ∷ bs) r
data_bytes_split c d bs r k e =
    let first = data_bytes_first c r (length bs + k) (e ∙ ap pos (omega arith)) in
    ap (data_bytes (d ∷ bs)) first
    ∙ data_bytes_left (d ∷ bs)
        (record r { stdin_buf = r.stdin_buf ++ (c ∷ []); remaining = pos (suc (length bs + k)) }) k
        (ap pos (omega arith))
    ∙ rw (append_assoc r.stdin_buf (c ∷ []) (d ∷ bs)) refl
    ∙ sym (data_bytes_left (c ∷ d ∷ bs) r k e)

data_bytes_state :
    (c d : ℕ) (bs : Bytes) (r : Reader) (k : ℕ)
    → r.remaining ≡ pos (length (c ∷ d ∷ bs) + k)
    → r.state ≡ br_data
    → ((data_bytes (c ∷ []) r).state ≡ br_data)
      × ((data_bytes (c ∷ []) r).remaining ≡ pos (length (d ∷ bs) + k))
data_bytes_state c d bs r k e s =
    let first = data_bytes_first c r (length bs + k) (e ∙ ap pos (omega arith)) in
    rw first (s, ap pos (omega arith))

-- In BR_DATA a read of several bytes is the same as so many reads of one.
pub feed-data :
    (c : ℕ) (bs : Bytes) (r : Reader) (k : ℕ)
    → r.state ≡ br_data
    → r.remaining ≡ pos (length (c ∷ bs) + k)
    → feed (c ∷ bs) r ≡ data_bytes (c ∷ bs) r
unfolding feed
feed-data c [] r k s e = rw s
feed-data c (d ∷ bs) r k s e =
    let (s', e') = data_bytes_state c d bs r k e s in
    ap (λ st. feed (d ∷ bs) (feed_in st c r)) s
    ∙ feed-data d bs (data_bytes (c ∷ []) r) k s' e'
    ∙ data_bytes_split c d bs r k e

pub feed_nil : (r : Reader) → feed [] r ≡ r
unfolding feed
feed_nil r = refl

single : (bs : Bytes) → 0 < length bs → length bs ≤ 1 → (x : ℕ) × (bs ≡ x ∷ [])
single [] h k = absurd (omega arith)
single (x ∷ []) h k = (x, refl)
single (x ∷ y ∷ bs) h k = absurd (omega arith)

-- How many bytes the state asks the session for; `none` where it makes no read, or one that fails.
abbrev pub asked_in : BrState → Reader → Option ℕ
asked_in br_header r = some 1
asked_in br_data r = if ltb 0 (stdin_buf_size - length r.stdin_buf) then to_read r else none
asked_in br_trailer r = some 1
asked_in br_final r = some 1
asked_in br_done r = none

abbrev pub asked : Reader → Option ℕ
asked r = asked_in r.state r

to_read_le :
    (r : Reader) (n : ℕ)
    → to_read r ≡ some n
    → (r.remaining ≡ pos (pos_part r.remaining)) × (n ≤ pos_part r.remaining)
unfolding to_read
to_read_le r n h = (ground arith, ground arith)

pub asked-want_read :
    (st : BrState) (r : Reader) → asked_in st (record r { want_read = false }) ≡ asked_in st r
unfolding to_read
asked-want_read br_data r = refl
asked-want_read _ r = refl

module _ (ssl : Ssl) where
  open ssl use {Session, ssl_read, read_bounds}

  one_byte-feed :
      (f : ℕ → Reader → Reader) (r : Reader) (s : Session) (n : ℕ) (bs : Bytes)
      → some 1 ≡ some n
      → (ssl_read s n).0 ≡ done bs
      → (c : ℕ) × (bs ≡ c ∷ []) × (one_byte ssl f r s ≡ (f c r, (ssl_read s n).1))
  unfolding one_byte with_byte
  one_byte-feed f r s n bs a e =
      let same : 1 ≡ n = ground arith in
      let e1 : (ssl_read s 1).0 ≡ done bs = rw same e in
      let bound = read_bounds s 1 bs e1 in
      let (c, one) = single bs bound.0 bound.1 in (c, one, rw (← same, e1, one) refl)

  with_byte_state :
      (f : ℕ → Reader → Reader) (st : BrState) (r : Reader) (s : Session) (n : ℕ) (bs : Bytes)
      → r.state ≡ st
      → ((c : ℕ) → feed_in st c r ≡ f c r)
      → some 1 ≡ some n
      → (ssl_read s n).0 ≡ done bs
      → one_byte ssl f r s ≡ (feed bs r, (ssl_read s n).1)
  with_byte_state f st r s n bs at same a e =
      let (c, one, done_so) = one_byte-feed f r s n bs a e in
      done_so
      ∙ ap (λ t. (t, (ssl_read s n).1))
          (sym (same c)
            ∙ ap (λ x. feed_in x c r) (sym at)
            ∙ sym (feed-cons c [] r ∙ feed_nil _)
            ∙ ap (λ xs. feed xs r) (sym one))

  data-feed :
      (r : Reader) (s : Session) (n : ℕ) (bs : Bytes)
      → r.state ≡ br_data
      → to_read r ≡ some n
      → (ssl_read s n).0 ≡ done bs
      → with_bytes (ssl_read s n).0 r ≡ feed bs r
  unfolding with_bytes
  data-feed r s n [] at a e = absurd (omega (arith, (read_bounds s n [] e).0))
  data-feed r s n (c ∷ bs) at a e =
      let (is_pos_m, le) = to_read_le r n a in
      let bound = read_bounds s n (c ∷ bs) e in
      let k = pos_part r.remaining - length (c ∷ bs) in
      rw e (sym (feed-data c bs r k at (is_pos_m ∙ ap pos (omega arith))))

  dispatch-feed :
      (st : BrState) (r : Reader) (s : Session) (n : ℕ) (bs : Bytes)
      → r.state ≡ st
      → asked_in st r ≡ some n
      → (ssl_read s n).0 ≡ done bs
      → dispatch ssl st r s ≡ (feed bs r, (ssl_read s n).1)
  unfolding dispatch data_step
  dispatch-feed br_header r s n bs at a e =
      with_byte_state header_byte br_header r s n bs at (λ c. refl) a e
  dispatch-feed br_trailer r s n bs at a e =
      with_byte_state trailer_byte br_trailer r s n bs at (λ c. refl) a e
  dispatch-feed br_final r s n bs at a e =
      with_byte_state final_byte br_final r s n bs at (λ c. refl) a e
  dispatch-feed br_done r s n bs at a e = cc
  dispatch-feed br_data r s n bs at a e =
      elim (Bool-cases (ltb 0 (stdin_buf_size - length r.stdin_buf))) [
        | inr full ↦ ground arith
        | inl room ↦
            let a' : to_read r ≡ some n = ground arith in
            rw (room, a', data_step) (ap (λ t. (t, (ssl_read s n).1)) (data-feed r s n bs at a' e))
      ]

  -- A pass of the loop whose read succeeds does what the bytes read do, fed one at a time: how the
  -- session cuts the body does not matter.
  pub br_step-feed :
      (r : Reader) (s : Session) (n : ℕ) (bs : Bytes)
      → asked r ≡ some n
      → (ssl_read s n).0 ≡ done bs
      → br_step ssl r s ≡ (feed bs (record r { want_read = false }), (ssl_read s n).1)
  unfolding br_step
  br_step-feed r s n bs a e =
      dispatch-feed r.state (record r { want_read = false }) s n bs refl
        (asked-want_read r.state r ∙ a) e
