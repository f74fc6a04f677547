-- ===== src/Executor/BodyReader/Core.antt =====
-- What the body reader of src/executor.c has made of the bytes read so far, whatever the child has
-- taken of it: the reader with all that was stored, and without the flags for the polling.
use adb_termux_bridge.Base.{
  ℕ, ◌-◌, ◌≡◌, refl, sym, ap, ◌∙◌, subst, ◌⊎◌, inl, inr, false, Option, none, some, [], ◌∷◌, ◌++◌,
  append-nil, append_assoc, arith, ltb, Bool-cases, length, Bytes,
}
use adb_termux_bridge.Ssl.{
  Ssl, Outcome, done, want_read, want_write, failed, read_bytes, read_bytes_of_Stopped,
  Outcome-cases, Stopped,
}
use adb_termux_bridge.Executor.BodyReader.{
  BrState, br_header, br_data, br_trailer, br_final, br_done, stdin_buf_size, Reader, header_byte,
  trailer_byte, final_byte, data_bytes, to_read, with_byte, with_bytes, br_step, one_byte,
  data_step, dispatch, on_error,
}
use adb_termux_bridge.Executor.BodyReader.Feed.{
  feed, feed_in, feed_nil, asked, asked_in, asked-want_read, br_step-feed,
}

-- `taken` stands in front of the buffer again.
abbrev pub core : Bytes → Reader → Reader
core taken r = record r { stdin_buf = taken ++ r.stdin_buf; want_read = false; want_write = false }

core-data_bytes :
    (taken bs : Bytes) (r : Reader) → core taken (data_bytes bs r) ≡ data_bytes bs (core taken r)
unfolding data_bytes
core-data_bytes taken bs r = ground (arith, append_assoc taken r.stdin_buf bs)

core-feed_in :
    (st : BrState) (taken : Bytes) (c : ℕ) (r : Reader)
    → core taken (feed_in st c r) ≡ feed_in st c (core taken r)
unfolding header_byte trailer_byte final_byte
core-feed_in br_header taken c r = ground arith
core-feed_in br_data taken c r = core-data_bytes taken (c ∷ []) r
core-feed_in br_trailer taken c r = ground arith
core-feed_in br_final taken c r = ground arith
core-feed_in br_done taken c r = refl

-- The meaning of the bytes does not depend on what was taken.
pub core-feed : (taken bs : Bytes) (r : Reader) → core taken (feed bs r) ≡ feed bs (core taken r)
unfolding feed
core-feed taken [] r = refl
core-feed taken (c ∷ bs) r =
    core-feed taken bs (feed_in r.state c r) ∙ ap (feed bs) (core-feed_in r.state taken c r)

-- What is fed only adds to the buffer.
feed_in-grows :
    (st : BrState) (c : ℕ) (r : Reader)
    → (x : Bytes) × ((feed_in st c r).stdin_buf ≡ r.stdin_buf ++ x)
unfolding header_byte trailer_byte final_byte data_bytes
feed_in-grows br_header c r = ([], ground (arith, append-nil r.stdin_buf))
feed_in-grows br_data c r = (c ∷ [], ground arith)
feed_in-grows br_trailer c r = ([], ground (arith, append-nil r.stdin_buf))
feed_in-grows br_final c r = ([], ground (arith, append-nil r.stdin_buf))
feed_in-grows br_done c r = ([], sym (append-nil r.stdin_buf))

pub feed-grows :
    (bs : Bytes) (r : Reader) → (x : Bytes) × ((feed bs r).stdin_buf ≡ r.stdin_buf ++ x)
unfolding feed
feed-grows [] r = ([], sym (append-nil r.stdin_buf))
feed-grows (c ∷ bs) r =
    let (x, first) = feed_in-grows r.state c r in
    let (y, later) = feed-grows bs (feed_in r.state c r) in
    (x ++ y, later ∙ ap (λ b. b ++ y) first ∙ append_assoc r.stdin_buf x y)

-- The reader stopped at an error of the connection, with the buffer of `r`.
pub record HasFailed (r t : Reader) : Type 0 where
  pub stopped : t.state ≡ br_done
  pub same_buffer : t.stdin_buf ≡ r.stdin_buf

module _ (ssl : Ssl) where
  open ssl use {Session, ssl_read}

  unfoldable pub read_of : Option ℕ → Session → Bytes
  read_of none s = []
  read_of (some n) s = read_bytes (ssl_read s n).0

  -- The bytes that a pass of the read block gets.
  unfoldable pub br_reads : Reader → Session → Bytes
  unfolding read_of
  br_reads r s = read_of (asked r) s

  -- What a pass did that reads nothing.
  Nothing : Bytes → Reader → Reader → Type 0
  Nothing taken r t = (core taken t ≡ core taken r) ⊎ HasFailed r t

  on_error-Nothing :
      (taken : Bytes) (o : Outcome Bytes) (r : Reader) → Stopped o → Nothing taken r (on_error o r)
  unfolding Nothing on_error
  on_error-Nothing taken (done bs) r h = absurd h
  on_error-Nothing taken want_read r h = inl refl
  on_error-Nothing taken want_write r h = inl refl
  on_error-Nothing taken failed r h = inr (record { stopped = refl; same_buffer = refl })

  with_byte-Nothing :
      (taken : Bytes) (f : ℕ → Reader → Reader) (o : Outcome Bytes) (r : Reader)
      → Stopped o
      → Nothing taken r (with_byte f o r)
  unfolding with_byte
  with_byte-Nothing taken f (done bs) r h = absurd h
  with_byte-Nothing taken f want_read r h = on_error-Nothing taken want_read r h
  with_byte-Nothing taken f want_write r h = on_error-Nothing taken want_write r h
  with_byte-Nothing taken f failed r h = on_error-Nothing taken failed r h

  with_bytes-Nothing :
      (taken : Bytes) (o : Outcome Bytes) (r : Reader)
      → Stopped o
      → Nothing taken r (with_bytes o r)
  unfolding with_bytes
  with_bytes-Nothing taken (done bs) r h = absurd h
  with_bytes-Nothing taken want_read r h = on_error-Nothing taken want_read r h
  with_bytes-Nothing taken want_write r h = on_error-Nothing taken want_write r h
  with_bytes-Nothing taken failed r h = on_error-Nothing taken failed r h

  -- The state asks for nothing, or its read gets nothing.
  GetsNothing : Option ℕ → Session → Type 0
  GetsNothing none s = Unit
  GetsNothing (some n) s = Stopped (ssl_read s n).0

  data_step-Nothing :
      (o : Option ℕ) (taken : Bytes) (r : Reader) (s : Session)
      → GetsNothing o s
      → Nothing taken r (data_step ssl o r s).0
  unfolding data_step GetsNothing
  data_step-Nothing none taken r s h = on_error-Nothing taken failed r tt
  data_step-Nothing (some n) taken r s h = with_bytes-Nothing taken _ r h

  dispatch-Nothing :
      (st : BrState) (taken : Bytes) (r : Reader) (s : Session)
      → GetsNothing (asked_in st r) s
      → Nothing taken r (dispatch ssl st r s).0
  unfolding dispatch one_byte GetsNothing
  dispatch-Nothing br_header taken r s h = with_byte-Nothing taken header_byte _ r h
  dispatch-Nothing br_data taken r s h =
      elim (Bool-cases (ltb 0 (stdin_buf_size - length r.stdin_buf))) [
        | inr full ↦ rw full (unfold Nothing in inl refl)
        | inl room ↦ rw room (data_step-Nothing (to_read r) taken r s (rw room at h))
      ]
  dispatch-Nothing br_trailer taken r s h = with_byte-Nothing taken trailer_byte _ r h
  dispatch-Nothing br_final taken r s h = with_byte-Nothing taken final_byte _ r h
  dispatch-Nothing br_done taken r s h = unfold Nothing in inl refl

  br_step-Nothing :
      (taken : Bytes) (r : Reader) (s : Session)
      → GetsNothing (asked r) s
      → Nothing taken r (br_step ssl r s).0
  unfolding br_step Nothing
  br_step-Nothing taken r s h =
      let t = record r { want_read = false } in
      let k : Nothing taken t (dispatch ssl r.state t s).0 =
        dispatch-Nothing r.state taken t s
          (subst (λ o. GetsNothing o s) (sym (asked-want_read r.state r)) h) in
      elim k [
        | inl same ↦ inl same
        | inr bad ↦ inr (record { stopped = bad.stopped; same_buffer = bad.same_buffer })
      ]

  -- A pass of the read block feeds the reader what it reads, or stops it at an error.
  pub br_step-core :
      (taken : Bytes) (r : Reader) (s : Session)
      → (core taken (br_step ssl r s).0 ≡ feed (br_reads r s) (core taken r))
        ⊎ (HasFailed r (br_step ssl r s).0 × (br_reads r s ≡ []))
  unfolding br_reads Nothing
  br_step-core taken r s = go (asked r) refl
    where
      nothing :
          (o : Option ℕ)
          → o ≡ asked r
          → GetsNothing o s
          → read_of o s ≡ []
          → (core taken (br_step ssl r s).0 ≡ feed (read_of o s) (core taken r))
            ⊎ (HasFailed r (br_step ssl r s).0 × (read_of o s ≡ []))
      nothing o e h empty = elim (br_step-Nothing taken r s (subst (λ t. GetsNothing t s) e h)) [
        | inl same ↦ inl (same ∙ sym (ap (λ t. feed t (core taken r)) empty ∙ feed_nil _))
        | inr bad ↦ inr (bad, empty)
      ]

      go :
          (o : Option ℕ)
          → o ≡ asked r
          → (core taken (br_step ssl r s).0 ≡ feed (read_of o s) (core taken r))
            ⊎ (HasFailed r (br_step ssl r s).0 × (read_of o s ≡ []))
      go none e = nothing none e (unfold GetsNothing in tt) (unfold read_of in refl)
      go (some n) e = elim (Outcome-cases (ssl_read s n).0) [
        | inr stop ↦
            nothing (some n) e (unfold GetsNothing in stop)
              (unfold read_of in read_bytes_of_Stopped _ stop)
        | inl (bs, got) ↦ inl (
            ap (λ t. core taken t.0) (br_step-feed ssl r s n bs (sym e) got)
            ∙ core-feed taken bs (record r { want_read = false })
            ∙ ap (λ t. feed t (core taken r)) (sym (unfold read_of in ap read_bytes got)))
      ]
