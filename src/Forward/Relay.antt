-- ===== src/Forward/Relay.antt =====
-- `connect_unix` and `relay_thread` of src/forward.c: one forwarded connection.
use adb_termux_bridge.Base.{
  Option, none, some, if◌then◌else◌, ℕ, ◌+◌, ◌≡◌, refl, sym, ap, ◌∙◌, inl, inr, Bool, true, false,
  not, ◌&&◌, List, [], ◌∷◌, ◌++◌, append_assoc, arith, ◌==◌, Bool-cases, length, take, drop,
  take-append-drop, Bytes,
}

-- `sun_path` of a `struct sockaddr_un` and the length of the address behind its family, as
-- `connect_unix` fills them: `@` stands for the NUL of an abstract name.
pub record UnixAddress : Type 0 where
  pub sun_path : Bytes
  pub path_len : ℕ

unfoldable pub unix_address : Bytes → UnixAddress
unix_address [] = record { sun_path = []; path_len = 108 }
unix_address (c ∷ path) =
    if c == b'@'
    then record { sun_path = 0 ∷ take 106 path; path_len = 1 + length path }
    else record { sun_path = take 107 (c ∷ path); path_len = 108 }

-- `connect_unix`: what `socket` gives, and whether `connect` takes the address. A socket that is not
-- connected is closed.
unfoldable pub connect_unix : Option ℕ → (UnixAddress → Bool) → Bytes → Option ℕ
unfolding unix_address
connect_unix none connects path = none
connect_unix (some fd) connects path = if connects (unix_address path) then some fd else none

-- The loop of writes for one read: what is written, and whether all of it. An answer is the count of
-- one `write`, 0 for one that is not positive.
unfoldable pub write_out : List ℕ → Bytes → Bytes × Bool
write_out counts [] = ([], true)
write_out [] (b ∷ bs) = ([], false)
write_out (n ∷ counts) (b ∷ bs) =
    let rest = write_out counts (drop n (b ∷ bs)) in
    if n == 0 then ([], false) else (take n (b ∷ bs) ++ rest.0, rest.1)

-- What a round finds on one of the two descriptors: no POLLIN or POLLHUP, or the bytes of its `read`,
-- empty for the end or an error, with the answers of the writes that follow.
pub data Side : Type 0 where
  quiet : Side
  input : Bytes → List ℕ → Side

-- One round: `poll` fails, is interrupted, or finds the two sides; the flag says whether one of them
-- has POLLERR, POLLHUP or POLLNVAL.
pub data RelayRound : Type 0 where
  failed interrupted : RelayRound
  found : Side → Side → Bool → RelayRound

-- One direction in one round: what is passed on, and whether the thread goes on.
unfoldable pub pass_side : Side → Bytes × Bool
unfolding write_out
pass_side quiet = ([], true)
pass_side (input [] counts) = ([], false)
pass_side (input (b ∷ bs) counts) = write_out counts (b ∷ bs)

-- What was written to `fd_b` and to `fd_a`.
pub record Relayed : Type 0 where
  pub to_b : Bytes
  pub to_a : Bytes

-- The loop: what it relayed, and whether it has ended.
unfoldable pub relay_loop : List RelayRound → Relayed → Relayed × Bool
unfolding pass_side
relay_loop [] r = (r, false)
relay_loop (failed ∷ rounds) r = (r, true)
relay_loop (interrupted ∷ rounds) r = relay_loop rounds r
relay_loop (found a b broken ∷ rounds) r =
    let first = pass_side a in
    let second = pass_side b in
    let half = record r { to_b = r.to_b ++ first.0 } in
    let whole = record half { to_a = half.to_a ++ second.0 } in
    elim first.1 [
      | false ↦ (half, true)
      | true ↦ elim (second.1 && not broken) [
        | false ↦ (whole, true)
        | true ↦ relay_loop rounds whole
      ]
    ]

-- What the reads of one side return in all rounds.
abbrev pub side_bytes : Side → Bytes
side_bytes quiet = []
side_bytes (input bs counts) = bs

abbrev pub from_a : List RelayRound → Bytes
from_a [] = []
from_a (found a b broken ∷ rounds) = side_bytes a ++ from_a rounds
from_a (_ ∷ rounds) = from_a rounds

abbrev pub from_b : List RelayRound → Bytes
from_b [] = []
from_b (found a b broken ∷ rounds) = side_bytes b ++ from_b rounds
from_b (_ ∷ rounds) = from_b rounds

-- `out` is the front of `all`.
abbrev pub Front : Bytes → Bytes → Type 0
Front out all = (rest : Bytes) × (out ++ rest ≡ all)

write_out-Front :
    (counts : List ℕ) (bs : Bytes)
    → Front (write_out counts bs).0 bs
      × ((write_out counts bs).1 ≡ true → (write_out counts bs).0 ≡ bs)
unfolding write_out
write_out-Front [] [] = (([], refl), λ h. refl)
write_out-Front (n ∷ counts) [] = (([], refl), λ h. refl)
write_out-Front [] (b ∷ bs) = ((b ∷ bs, refl), λ h. cc)
write_out-Front (n ∷ counts) (b ∷ bs) = elim (Bool-cases (n == 0)) [
  | inl e ↦ rw e ((b ∷ bs, refl), λ h. cc)
  | inr e ↦
      let k = write_out-Front counts (drop n (b ∷ bs)) in
      rw e (
        (
          k.0.0,
          append_assoc (take n (b ∷ bs)) (write_out counts (drop n (b ∷ bs))).0 k.0.0
              ∙ ap (λ t. take n (b ∷ bs) ++ t) k.0.1
              ∙ take-append-drop n (b ∷ bs),
        ),
        λ h. ap (λ t. take n (b ∷ bs) ++ t) (k.1 h) ∙ take-append-drop n (b ∷ bs),
      )
]

pass_side-Front :
    (s : Side)
    → Front (pass_side s).0 (side_bytes s)
      × ((pass_side s).1 ≡ true → (pass_side s).0 ≡ side_bytes s)
unfolding pass_side
pass_side-Front quiet = (([], refl), λ h. refl)
pass_side-Front (input [] counts) = (([], refl), λ h. refl)
pass_side-Front (input (b ∷ bs) counts) = write_out-Front counts (b ∷ bs)

-- More may follow what a front is the front of.
Front-more :
    (before out side later : Bytes)
    → Front out side
    → Front (before ++ out) (before ++ (side ++ later))
Front-more before out side later (rest, e) = (
  rest ++ later,
  append_assoc before out (rest ++ later)
      ∙ ap (λ t. before ++ t) (sym (append_assoc out rest later) ∙ ap (λ t. t ++ later) e),
)

Front-next :
    (before out side later all : Bytes)
    → out ≡ side
    → Front all ((before ++ out) ++ later)
    → Front all (before ++ (side ++ later))
Front-next before out side later all e (rest, k) =
    (rest, k ∙ append_assoc before out later ∙ ap (λ t. before ++ (t ++ later)) e)

Front-none : (before later : Bytes) → Front before (before ++ later)
Front-none before later = (later, refl)

-- Both directions: what was written is the front of what was read.
InOrder : List RelayRound → Relayed → Relayed × Bool → Type 0
InOrder rounds r o =
    Front o.0.to_b (r.to_b ++ from_a rounds) × Front o.0.to_a (r.to_a ++ from_b rounds)

relay_loop-InOrder :
    (rounds : List RelayRound) (r : Relayed) → InOrder rounds r (relay_loop rounds r)
unfolding relay_loop InOrder
relay_loop-InOrder [] r = (Front-none r.to_b [], Front-none r.to_a [])
relay_loop-InOrder (failed ∷ rounds) r =
    (Front-none r.to_b (from_a rounds), Front-none r.to_a (from_b rounds))
relay_loop-InOrder (interrupted ∷ rounds) r = relay_loop-InOrder rounds r
relay_loop-InOrder (found a b broken ∷ rounds) r =
    let (front_a, whole_a) = pass_side-Front a in
    let (front_b, whole_b) = pass_side-Front b in
    let out_a = (pass_side a).0 in
    let out_b = (pass_side b).0 in
    let next =
      relay_loop-InOrder rounds (record { to_b = r.to_b ++ out_a; to_a = r.to_a ++ out_b }) in
    let more_a = Front-more r.to_b out_a (side_bytes a) (from_a rounds) front_a in
    let more_b = Front-more r.to_a out_b (side_bytes b) (from_b rounds) front_b in
    elim (Bool-cases (pass_side a).1) [
      | inr e ↦ rw (e, relay_loop) (more_a, Front-none r.to_a (side_bytes b ++ from_b rounds))
      | inl e ↦ elim (Bool-cases ((pass_side b).1 && not broken)) [
        | inr k ↦ rw (e, relay_loop) (rw (k, relay_loop) (more_a, more_b))
        | inl k ↦
            rw (e, relay_loop)
              (rw (k, relay_loop)
                (
                  Front-next r.to_b out_a (side_bytes a) (from_a rounds) _ (whole_a e) next.0,
                  Front-next r.to_a out_b (side_bytes b) (from_b rounds) _ (whole_b (ground arith))
                      next.1,
                ))
      ]
    ]

-- Whatever the peers and the calls do, what the thread has written to each side is a front of what
-- it read from the other: no byte is lost in between, repeated or moved.
pub relay_loop_in_order :
    (rounds : List RelayRound)
    → (let o = (relay_loop rounds (record { to_b = []; to_a = [] })).0 in
        Front o.to_b (from_a rounds) × Front o.to_a (from_b rounds))
unfolding InOrder
relay_loop_in_order rounds = relay_loop-InOrder rounds (record { to_b = []; to_a = [] })
