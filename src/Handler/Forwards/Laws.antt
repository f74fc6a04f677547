-- ===== src/Handler/Forwards/Laws.antt =====
-- What the endpoint `/api/tcpforward` of src/handler.c does to the list of forwards.
use adb_termux_bridge.Base.{
  ℕ, ◌<◌, ◌≡◌, sym, ap, ◌∙◌, ◌≢◌, inr, some, [], ◌++◌, append-nil, arith, pos, Bytes, codes,
  starts_with, print_base, strtol, strtol-print_base,
}
use adb_termux_bridge.Forward.{Registry, Calls, find_forward, new_forward}
use adb_termux_bridge.Handler.Forwards.{Request, wanted, seen, delete_id, atoi, int_of_long}
use adb_termux_bridge.Json.{Cjson}
use adb_termux_bridge.Ssl.{Ssl}

-- The id that a listing or an answer prints is the one that a deletion with this text names.
pub delete_id-print_base :
    (id : ℕ) → 0 < id → id < 2147483648 → delete_id (codes "id=" ++ print_base 10 id) ≡ inr id
unfolding delete_id atoi int_of_long starts_with
delete_id-print_base id some_id small =
    let read : strtol 10 (print_base 10 id) ≡ pos id =
      ap (strtol 10) (sym (append-nil (print_base 10 id)))
      ∙ strtol-print_base 10 id [] (omega arith) (omega arith) (omega arith) tt in
    ground (arith, read)

module _ (ssl : Ssl) (json : Cjson) where
  open ssl use {Session}

  -- What a request that was answered with 200 has put into the list: under a new id a forward whose
  -- texts are those of `seen`.
  pub record Accepted (stale : Bytes → Bytes) (calls : Calls) (body : Bytes) (r after : Registry)
      : Type 0 where
    pub request : Request
    pub parsed : wanted ssl json body ≡ inr request
    pub id : ℕ
    pub fd : ℕ
    pub found :
        (let w = seen ssl json stale request in
          find_forward id after.forwards
          ≡ some (new_forward id fd w.unix_path w.host w.port w.secure))
    pub others :
        (other : ℕ) → id ≢ other → find_forward other after.forwards ≡ find_forward other r.forwards
