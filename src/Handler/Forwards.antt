-- ===== src/Handler/Forwards.antt =====
-- `handle_tcpforward_get`, `_post` and `_delete` of src/handler.c.
pub mod Laws
use adb_termux_bridge.Base.{
  ℕ, zero, suc, ◌+◌, ◌-◌, ◌*◌, ◌/◌, ◌%◌, ◌^◌, ◌≤◌, ◌<◌, min, ◌≡◌, refl, sym, ap, ◌∙◌, subst, ◌≢◌,
  ◌↔◌, ◌⊎◌, inl, inr, Bool, true, false, not, ◌&&◌, ◌||◌, Option, none, some, List, [], ◌∷◌, ◌++◌,
  map, append-nil, append_assoc, arith, ltb, leb, ◌==◌, if◌then◌else◌, ltb→lt, lt→ltb, not-lt→ltb,
  ltb-false→le, ==_iff, ==_refl, Bool-cases, Option-cases, All, length, take, drop, concat,
  length-append, length-take, length-drop, take-append-drop, take_all, concat-append, All-append,
  All-take, All-drop, ℤ, pos, negsuc, neg, is_pos, is_neg, pos_part, int_eq, int_eq→eq, int_eq_refl,
  Bytes, codes, bytes_eq, bytes_eq_iff, bytes_eq_refl, starts_with, starts_with-append, strstr,
  skip_spaces, NoNul, c_str, c_str-NoNul, digit_char, digit_value, digit_value-digit_char,
  print_base, read_digits, is_space, skip_isspace, long_max, clamp_long, skip_hex_prefix,
  strtol_signed, strtol, print_int, EndsNumber, minus, All-imp, print_base-Without,
  length-print_base, strtol-print_base, print_base-cons, Absent, strstr-append, Without, cut_at,
  cut_at-Without,
}
use adb_termux_bridge.Forward.{Registry, Calls, forward_add, forward_remove}
use adb_termux_bridge.Forward.Listing.{forward_list_json}
use adb_termux_bridge.Handler.Answers.{cut, send_json}
use adb_termux_bridge.Json.{Cjson}
use adb_termux_bridge.Ssl.{Ssl, Conn, send}

-- The fields of a request; `host` is `none` where the literal "127.0.0.1" is taken.
pub record Request : Type 0 where
  pub unix_path : Bytes
  pub host : Option Bytes
  pub port : ℤ
  pub secure : Bool

-- The arguments of `forward_add`.
pub record Wanted : Type 0 where
  pub unix_path : Bytes
  pub host : Bytes
  pub port : ℤ
  pub secure : Bool

-- `{"error":"..."}`
abbrev pub error_text : Bytes → Bytes
error_text msg = codes "{\"error\":\"" ++ (msg ++ codes "\"}")

-- The text for a code of `forward_add`; a code that is not one of the six has `unknown error`.
unfoldable pub add_error : ℤ → Bytes
add_error (negsuc n) =
    if n == 0
    then codes "port already in use on this host"
    else if n == 1
    then codes "forward already exists for this unix_path:port"
    else if n == 2
    then codes "max forwards reached"
    else if n == 3
    then codes "socket creation failed"
    else if n == 4
    then codes "bind failed"
    else if n == 5
    then codes "listen failed"
    else codes "unknown error"
add_error (pos _) = codes "unknown error"

-- The text for a forward that was added.
unfoldable pub added_text : ℤ → Wanted → Bytes
added_text id w =
    codes "{\"id\":"
    ++ (print_int id
        ++ (codes ",\"unix_path\":\""
            ++ (w.unix_path
                ++ (codes "\",\"host\":\""
                    ++ (w.host
                        ++ (codes "\",\"port\":"
                            ++ (print_int w.port
                                ++ (codes ",\"secure\":"
                                    ++ ((if w.secure then codes "true" else codes "false")
                                        ++ codes "}")))))))))

-- `atoi(s)`, for a value that fits a `long`: its low 32 bits, as a signed number.
unfoldable pub int_of_long : ℤ → ℤ
int_of_long (pos n) =
    let low = n % 4294967296 in if ltb low 2147483648 then pos low else negsuc (4294967295 - low)
int_of_long (negsuc n) =
    let low = n % 4294967296 in if ltb low 2147483648 then negsuc low else pos (4294967295 - low)

unfoldable pub atoi : Bytes → ℤ
unfolding int_of_long
atoi s = int_of_long (strtol 10 s)

-- The text of `forward_remove`'s answer and its status.
abbrev pub removed_answer : Bool → ℕ × Bytes
removed_answer true = (200, codes "{\"status\":\"ok\"}")
removed_answer false = (404, error_text (codes "forward not found"))

-- What the query of a deletion names: an id, or the reason why it names none.
unfoldable pub delete_id : Bytes → Bytes ⊎ ℕ
unfolding atoi
delete_id query =
    if starts_with query (codes "id=")
    then (if is_pos (atoi (drop 3 query))
        then inr (pos_part (atoi (drop 3 query)))
        else inl (codes "invalid id"))
    else inl (codes "missing 'id' query parameter")

module _ (ssl : Ssl) where
  open ssl use {Session}

  -- The buffer of 8192 bytes, as a C string.
  unfoldable pub handle_tcpforward_get : Registry → Conn Session → Conn Session
  unfolding forward_list_json
  handle_tcpforward_get r c = send_json ssl 200 (forward_list_json 8192 r).text c

  unfoldable pub handle_tcpforward_delete :
      Bytes → Registry → Conn Session → Registry × Conn Session
  unfolding forward_remove delete_id
  handle_tcpforward_delete query r c = elim (delete_id query) [
    | inl msg ↦ (r, send_json ssl 400 (error_text msg) c)
    | inr id ↦
        let o = forward_remove id r in
        let answer = removed_answer o.1 in (o.0, send_json ssl answer.0 answer.1 c)
  ]

  module _ (json : Cjson) where
    open json use {
      Item, parse, get_object_item, is_string, is_number, is_bool, is_true, valuestring, int_value,
    }

    -- The value of a string item.
    unfoldable pub string_of : Option Item → Option Bytes
    string_of none = none
    string_of (some item) = if is_string item then valuestring item else none

    unfoldable pub number_of : Option Item → Option ℤ
    number_of none = none
    number_of (some item) = if is_number item then some (int_value item) else none

    unfoldable pub flag_of : Option Item → Bool
    flag_of none = false
    flag_of (some item) = is_bool item && is_true item

    -- The fields of the request, in the order of the tests, or the reason for a refusal.
    unfoldable pub wanted : Bytes → Bytes ⊎ Request
    unfolding string_of number_of flag_of
    wanted body = elim (parse body) [
      | none ↦ inl (codes "invalid JSON")
      | some req ↦ elim (string_of (get_object_item req (codes "unix_path"))) [
        | none ↦ inl (codes "missing 'unix_path'")
        | some unix_path ↦ elim (number_of (get_object_item req (codes "port"))) [
          | none ↦ inl (codes "missing 'port'")
          | some port ↦ inr (record {
            unix_path = unix_path;
            host = string_of (get_object_item req (codes "host"));
            port = port;
            secure = flag_of (get_object_item req (codes "secure"));
          })
        ]
      ]
    ]

    -- The arguments as `forward_add` finds them. `cJSON_Delete` has freed the texts of the request:
    -- `stale` is what the memory of such a text holds since then. A literal stays.
    unfoldable pub seen : (Bytes → Bytes) → Request → Wanted
    seen stale w = record {
      unix_path = stale w.unix_path;
      host = elim w.host [ some host ↦ stale host | none ↦ codes "127.0.0.1" ];
      port = w.port;
      secure = w.secure;
    }

    -- From `cJSON_Delete` on.
    unfoldable pub add_wanted : Calls → Wanted → Registry → Conn Session → Registry × Conn Session
    unfolding forward_add add_error added_text
    add_wanted calls w r c =
        let o = forward_add calls w.unix_path w.host w.port w.secure r in
        if is_neg o.1
        then (o.0, send_json ssl 500 (cut 256 (error_text (add_error o.1))) c)
        else (o.0, send_json ssl 200 (cut 512 (added_text o.1 w)) c)

    unfoldable pub handle_tcpforward_post :
        (Bytes → Bytes) → Calls → Bytes → Registry → Conn Session → Registry × Conn Session
    unfolding wanted add_wanted seen
    handle_tcpforward_post stale calls body r c = elim (wanted body) [
      | inl msg ↦ (r, send_json ssl 400 (error_text msg) c)
      | inr w ↦ add_wanted calls (seen stale w) r c
    ]
