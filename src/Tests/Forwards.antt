-- ===== src/Tests/Forwards.antt =====
-- Concrete runs of src/forward.c's list.
use adb_termux_bridge.Base.{
  ℕ, ◌<◌, ◌≡◌, refl, ap, subst, ◌≢◌, ◌⊎◌, true, false, none, some, List, [], ◌∷◌, arith,
  if◌then◌else◌, pos, negsuc, is_neg, Bytes, codes, bytes_eq, print_base, print_int,
}
use adb_termux_bridge.Buffer.{Holds}
use adb_termux_bridge.Forward.{
  Forward, Registry, Calls, empty, forward_add, forward_remove, find_forward, new_forward,
}
use adb_termux_bridge.Forward.Invariant.{
  IsValid, empty-IsValid, forward_add-IsValid, forward_remove-IsValid,
}
use adb_termux_bridge.Forward.Laws.{
  forward_add-unchanged, forward_remove-forward_add, forward_remove_lem,
}
use adb_termux_bridge.Forward.Lists.{NotIn, socket_fds}
use adb_termux_bridge.Forward.Relay.{
  RelayRound, quiet, input, found, relay_loop, relay_loop_in_order, Front,
}
use adb_termux_bridge.Forward.Listing.{
  forward_list_json, forward_list_json_fits, forward_list_json_overflow, document, entry_text,
}

abbrev localhost : Bytes
localhost = codes "127.0.0.1"

abbrev adb_socket : Bytes
adb_socket = codes "@adb"

-- The kernel hands out descriptor 7 and refuses nothing; it reads one address.
abbrev willing : Calls
willing = record {
  socket = some 7;
  inet_pton = λ host. if bytes_eq host localhost then some 2130706433 else none;
  bind = λ addr port. true;
  listen = true;
  calloc = true;
}

abbrev one_forward : Registry
one_forward = record {
  forwards = new_forward 1 7 adb_socket localhost (pos 5037) false ∷ [];
  next_id = 2;
  sockets = record { fd = 7; addr = 2130706433; port = 5037 } ∷ [];
  threads = 1 ∷ [];
}

add_run : forward_add willing adb_socket localhost (pos 5037) false empty ≡ (one_forward, pos 1)
unfolding forward_add bytes_eq
add_run = refl

add_twice_run : (forward_add willing adb_socket localhost (pos 5037) false one_forward).1 ≡ negsuc 0
unfolding forward_add bytes_eq new_forward
add_twice_run = refl

forward_add-IsValid_example :
    IsValid (forward_add willing adb_socket localhost (pos 5037) false empty).0
forward_add-IsValid_example =
    forward_add-IsValid willing adb_socket localhost (pos 5037) false empty (omega arith)
      (λ fd e. tt) empty-IsValid

one_forward-IsValid : IsValid one_forward
one_forward-IsValid =
    subst (λ o. IsValid o.0) add_run
      (forward_add-IsValid willing adb_socket localhost (pos 5037) false empty (omega arith)
        (λ fd e. tt) empty-IsValid)

forward_remove-IsValid_example : IsValid (forward_remove 1 one_forward).0
forward_remove-IsValid_example = forward_remove-IsValid 1 one_forward one_forward-IsValid

forward_add-unchanged_example :
    (forward_add willing adb_socket localhost (pos 5037) false one_forward).0 ≡ one_forward
forward_add-unchanged_example =
    forward_add-unchanged willing adb_socket localhost (pos 5037) false one_forward
      (ap is_neg add_twice_run)

forward_remove-forward_add_example :
    (let o = forward_remove 1 (forward_add willing adb_socket localhost (pos 5037) false empty).0 in
      (o.1 ≡ true) × (o.0.forwards ≡ empty.forwards) × (o.0.sockets ≡ empty.sockets))
forward_remove-forward_add_example =
    forward_remove-forward_add willing adb_socket localhost (pos 5037) false empty 1
      (ap (λ o. o.1) add_run)

forward_remove_lem_example :
    ((find_forward 1 one_forward.forwards ≡ none)
      × (forward_remove 1 one_forward ≡ (one_forward, false)))
    ⊎ ((f : Forward) × (find_forward 1 one_forward.forwards ≡ some f)
        × ((forward_remove 1 one_forward).1 ≡ true)
        × (find_forward 1 (forward_remove 1 one_forward).0.forwards ≡ none)
        × ((other : ℕ)
            → 1 ≢ other
            → find_forward other (forward_remove 1 one_forward).0.forwards
              ≡ find_forward other one_forward.forwards)
        × ((fd : ℕ)
            → f.listen_fd ≡ some fd
            → NotIn fd (socket_fds (forward_remove 1 one_forward).0.sockets)))
forward_remove_lem_example = forward_remove_lem 1 one_forward one_forward-IsValid

forward_list_json_fits_example :
    Holds 8192 (document one_forward) (forward_list_json 8192 one_forward)
forward_list_json_fits_example =
    forward_list_json_fits 8192 one_forward (omega arith)
      (unfold entry_text new_forward print_base print_int in omega arith)

forward_list_json_overflow_example : 64 < (forward_list_json 64 one_forward).extent
forward_list_json_overflow_example =
    forward_list_json_overflow 64 one_forward
      (unfold entry_text new_forward print_base print_int in omega arith)
      (unfold entry_text new_forward print_base print_int in omega arith)

-- Three bytes come from the client, written in two goes; an answer is cut short.
abbrev relay_rounds : List RelayRound
relay_rounds =
    found (input (codes "abc") (1 ∷ 2 ∷ [])) quiet false
    ∷ found quiet (input (codes "xyz") (2 ∷ 0 ∷ [])) false
    ∷ []

relay_run :
    relay_loop relay_rounds (record { to_b = []; to_a = [] })
    ≡ (record { to_b = codes "abc"; to_a = codes "xy" }, true)
unfolding relay_loop
relay_run = refl

relay_loop_in_order_example :
    (let o = (relay_loop relay_rounds (record { to_b = []; to_a = [] })).0 in
      Front o.to_b (codes "abc") × Front o.to_a (codes "xyz"))
relay_loop_in_order_example = relay_loop_in_order relay_rounds
