-- ===== src/Forward/Invariant.antt =====
-- What holds of the list of forwards between two operations.
use adb_termux_bridge.Base.{
  ℕ, suc, ◌+◌, ◌≤◌, ◌<◌, ◌≡◌, refl, sym, ap, subst, ◌≢◌, ◌⊎◌, inl, inr, Bool, ◌&&◌, none, some,
  List, [], ◌∷◌, map, arith, leb, ◌==◌, ==_refl, Bool-cases, Option-cases, All, length, take_all, ℤ,
  pos, negsuc, int_eq, int_eq_refl, Bytes, bytes_eq, bytes_eq_refl,
}
use adb_termux_bridge.Forward.{
  Forward, Socket, Registry, Calls, max_forwards, conflict, new_forward, open_forward, forward_add,
  find_forward, unlink, forward_remove, stop, forward_shutdown_all, empty, close_socket,
  bind_address, port_bits,
}
use adb_termux_bridge.Forward.Lists.{
  NotIn, Distinct, ids, listen_fds, socket_fds, Distinct-unlink, All-unlink, length-unlink,
  Distinct-unlink_fds, close-unlink, close_all-nil, listen_fds-stop, ids-stop,
}

abbrev Below : ℕ → Forward → Type 0
Below n f = (0 < f.id) × (f.id < n)

-- No other forward of the list listens on the same host and port.
abbrev Elsewhere : Bytes → ℤ → Forward → Type 0
Elsewhere host port f = f.port ≡ port → f.host ≢ host

abbrev Apart : List Forward → Type 0
Apart [] = Unit
Apart (f ∷ fs) = All (Elsewhere f.host f.port) fs × Apart fs

pub record IsValid (r : Registry) : Type 0 where
  pub next_pos : 0 < r.next_id
  pub ids_below : All (Below r.next_id) r.forwards
  pub ids_distinct : Distinct (ids r.forwards)
  pub few : length r.forwards ≤ max_forwards
  pub apart : Apart r.forwards
  pub fds_distinct : Distinct (listen_fds r.forwards)
  pub sockets_owned : socket_fds r.sockets ≡ listen_fds r.forwards

-- The empty list that the process starts with.
pub empty-IsValid : IsValid empty
empty-IsValid = record {
  next_pos = omega arith;
  ids_below = tt;
  ids_distinct = tt;
  few = omega arith;
  apart = tt;
  fds_distinct = tt;
  sockets_owned = refl;
}

conflict-none :
    (fs : List Forward) (unix_path host : Bytes) (port : ℤ)
    → conflict fs unix_path host port ≡ none
    → All (Elsewhere host port) fs
unfolding conflict
conflict-none [] unix_path host port h = tt
conflict-none (f ∷ fs) unix_path host port h = (
  ground (arith, int_eq_refl port, bytes_eq_refl host),
  conflict-none fs unix_path host port (ground arith),
)

Below-suc : (n : ℕ) (fs : List Forward) → All (Below n) fs → All (Below (n + 1)) fs
Below-suc n [] h = tt
Below-suc n (f ∷ fs) h = (omega arith, Below-suc n fs h.1)

NotIn-next : (n : ℕ) (fs : List Forward) → All (Below n) fs → NotIn n (ids fs)
NotIn-next n [] h = tt
NotIn-next n (f ∷ fs) h = (omega arith, NotIn-next n fs h.1)

-- The kernel gives a descriptor that is not open yet.
abbrev pub IsFresh : Calls → Registry → Type 0
IsFresh c r = (fd : ℕ) → c.socket ≡ some fd → NotIn fd (socket_fds r.sockets)

Apart-unlink : (id : ℕ) (fs : List Forward) → Apart fs → Apart (unlink id fs)
unfolding unlink
Apart-unlink id [] h = tt
Apart-unlink id (f ∷ fs) h = elim (Bool-cases (f.id == id)) [
  | inl e ↦ rw e h.1
  | inr e ↦ rw e (All-unlink (Elsewhere f.host f.port) id fs h.0, Apart-unlink id fs h.1)
]

Apart-stop : (fs : List Forward) → Apart fs → Apart (map stop fs)
unfolding stop
Apart-stop [] h = tt
Apart-stop (f ∷ fs) h = (All-stop f.host f.port fs h.0, Apart-stop fs h.1)
  where
    All-stop :
        (host : Bytes) (port : ℤ) (gs : List Forward)
        → All (Elsewhere host port) gs
        → All (Elsewhere host port) (map stop gs)
    All-stop host port [] k = tt
    All-stop host port (g ∷ gs) k = (k.0, All-stop host port gs k.1)

-- The registry after a successful call.
unfoldable pub added : Calls → ℕ → Bytes → Bytes → ℤ → Bool → Registry → Registry
added c fd unix_path host port secure r = record {
  forwards = new_forward r.next_id fd unix_path host port secure ∷ r.forwards;
  next_id = r.next_id + 1;
  sockets = record { fd = fd; addr = bind_address c host; port = port_bits port } ∷ r.sockets;
  threads = r.next_id ∷ r.threads;
}

pub record Added (c : Calls) (unix_path host : Bytes) (port : ℤ) (secure : Bool) (r : Registry)
    (o : Registry × ℤ) : Type 0 where
  pub fd : ℕ
  pub got_socket : c.socket ≡ some fd
  pub no_conflict : conflict r.forwards unix_path host port ≡ none
  pub room : length r.forwards < max_forwards
  pub result : o ≡ (added c fd unix_path host port secure r, pos r.next_id)

pub record Refused (r : Registry) (o : Registry × ℤ) : Type 0 where
  pub code : ℕ
  pub result : o ≡ (r, negsuc code)

conflict-negsuc :
    (fs : List Forward) (unix_path host : Bytes) (port : ℤ) (code : ℤ)
    → conflict fs unix_path host port ≡ some code
    → (k : ℕ) × (code ≡ negsuc k)
unfolding conflict
conflict-negsuc [] unix_path host port code h = cc
conflict-negsuc (f ∷ fs) unix_path host port code h =
    elim (Bool-cases (int_eq f.port port && bytes_eq f.host host)) [
      | inl a ↦ (0, ground arith)
      | inr a ↦ elim (Bool-cases (bytes_eq f.unix_path unix_path && int_eq f.port port)) [
        | inl b ↦ (1, ground arith)
        | inr b ↦ conflict-negsuc fs unix_path host port code (ground arith)
      ]
    ]

close-open : (s : Socket) (ss : List Socket) → close_socket s.fd (s ∷ ss) ≡ ss
unfolding close_socket
close-open s ss = rw (==_refl s.fd)

module _ (c : Calls) (unix_path host : Bytes) (port : ℤ) (secure : Bool) (r : Registry) where
  open_forward_cases :
      (fd : ℕ)
      → Refused r (open_forward c fd unix_path host port secure r)
        ⊎ (open_forward c fd unix_path host port secure r
            ≡ (added c fd unix_path host port secure r, pos r.next_id))
  unfolding open_forward added
  open_forward_cases fd =
      let s : Socket = record { fd = fd; addr = bind_address c host; port = port_bits port } in
      elim (Bool-cases (c.bind (bind_address c host) (port_bits port))) [
        | inr b ↦ inl (record { code = 4; result = ground (arith, close-open s r.sockets) })
        | inl b ↦ elim (Bool-cases c.listen) [
          | inr l ↦ inl (record { code = 5; result = ground (arith, close-open s r.sockets) })
          | inl l ↦ elim (Bool-cases c.calloc) [
            | inr a ↦ inl (record { code = 6; result = ground (arith, close-open s r.sockets) })
            | inl a ↦ inr (ground arith)
          ]
        ]
      ]

  pub forward_add_cases :
      Refused r (forward_add c unix_path host port secure r)
      ⊎ Added c unix_path host port secure r (forward_add c unix_path host port secure r)
  unfolding forward_add
  forward_add_cases = elim (Option-cases (conflict r.forwards unix_path host port)) [
    | inr (code, k) ↦
        let (n, e) = conflict-negsuc r.forwards unix_path host port code k in
        inl (record { code = n; result = ground arith })
    | inl k ↦ elim (Bool-cases (leb max_forwards (length r.forwards))) [
      | inl full ↦ inl (record { code = 2; result = ground arith })
      | inr room ↦ elim (Option-cases c.socket) [
        | inl none_left ↦ inl (record { code = 3; result = ground arith })
        | inr (fd, e) ↦ elim (open_forward_cases fd) [
          | inl f ↦ inl (record { code = f.code; result = ground (arith, f.result) })
          | inr done ↦ inr (record {
            fd = fd;
            got_socket = e;
            no_conflict = k;
            room = ground arith;
            result = ground arith;
          })
        ]
      ]
    ]
  ]

  added-IsValid :
      (fd : ℕ)
      → length host ≤ 63
      → NotIn fd (socket_fds r.sockets)
      → conflict r.forwards unix_path host port ≡ none
      → length r.forwards < max_forwards
      → IsValid r
      → IsValid (added c fd unix_path host port secure r)
  unfolding added new_forward
  added-IsValid fd short fresh k room v = record {
    next_pos = omega arith;
    ids_below = ((v.next_pos, omega arith), Below-suc r.next_id r.forwards v.ids_below);
    ids_distinct = (NotIn-next r.next_id r.forwards v.ids_below, v.ids_distinct);
    few = omega (arith, room);
    apart = (
      subst (λ h. All (Elsewhere h port) r.forwards) (sym (take_all 63 host short))
          (conflict-none r.forwards unix_path host port k),
      v.apart,
    );
    fds_distinct = (rw v.sockets_owned at fresh, v.fds_distinct);
    sockets_owned = ap (◌∷◌ fd) v.sockets_owned;
  }

  -- Adding a forward keeps the list valid, whatever the system calls answer.
  pub forward_add-IsValid :
      length host ≤ 63
      → IsFresh c r
      → IsValid r
      → IsValid (forward_add c unix_path host port secure r).0
  forward_add-IsValid short fresh v = elim forward_add_cases [
    | inl f ↦ rw f.result v
    | inr a ↦
        rw a.result (added-IsValid a.fd short (fresh a.fd a.got_socket) a.no_conflict a.room v)
  ]

-- Removing a forward keeps the list valid.
pub forward_remove-IsValid : (id : ℕ) (r : Registry) → IsValid r → IsValid (forward_remove id r).0
unfolding forward_remove
forward_remove-IsValid id r v = elim (Option-cases (find_forward id r.forwards)) [
  | inl e ↦ rw (e, forward_remove) v
  | inr (f, e) ↦
      rw (e, forward_remove)
        (record {
          next_pos = v.next_pos;
          ids_below = All-unlink (Below r.next_id) id r.forwards v.ids_below;
          ids_distinct = Distinct-unlink id r.forwards v.ids_distinct;
          few = omega (arith, length-unlink id r.forwards, v.few);
          apart = Apart-unlink id r.forwards v.apart;
          fds_distinct = Distinct-unlink_fds id r.forwards v.fds_distinct;
          sockets_owned = close-unlink id r.forwards r.sockets f e v.fds_distinct v.sockets_owned;
        })
]

All-Below-stop : (n : ℕ) (fs : List Forward) → All (Below n) fs → All (Below n) (map stop fs)
unfolding stop
All-Below-stop n [] h = tt
All-Below-stop n (f ∷ fs) h = (h.0, All-Below-stop n fs h.1)

length-stop : (fs : List Forward) → length (map stop fs) ≡ length fs
length-stop [] = refl
length-stop (f ∷ fs) = ap suc (length-stop fs)

-- Shutting all forwards down keeps the list valid.
pub forward_shutdown_all-IsValid : (r : Registry) → IsValid r → IsValid (forward_shutdown_all r)
unfolding forward_shutdown_all
forward_shutdown_all-IsValid r v = record {
  next_pos = v.next_pos;
  ids_below = All-Below-stop r.next_id r.forwards v.ids_below;
  ids_distinct = rw (ids-stop r.forwards) v.ids_distinct;
  few = omega (arith, length-stop r.forwards, v.few);
  apart = Apart-stop r.forwards v.apart;
  fds_distinct = rw (listen_fds-stop r.forwards) tt;
  sockets_owned =
      rw (close_all-nil r.forwards r.sockets v.sockets_owned, listen_fds-stop r.forwards);
}
