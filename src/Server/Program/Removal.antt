-- ===== src/Server/Program/Removal.antt =====
-- What a request to delete a forward does to the program, from the bytes of the client on.
use adb_termux_bridge.Base.{
  ℕ, ◌+◌, ◌-◌, ◌≤◌, ◌<◌, true, ◌∷◌, ◌++◌, length, Bytes, codes, print_base,
}
use adb_termux_bridge.Http.RequestLine.{Layout, RequestLine, Reaches}
use adb_termux_bridge.Json.{Cjson}
use adb_termux_bridge.Server.Client.{Fate, handle_client}
use adb_termux_bridge.Server.Program.{Program, System, program_handlers}
use adb_termux_bridge.Ssl.{Ssl, Conn}

abbrev pub forwards_path : Bytes
forwards_path = codes "/api/tcpforward"

-- `id=` and the id's digits.
abbrev pub id_query : ℕ → Bytes
id_query id = codes "id=" ++ print_base 10 id

-- The request to delete a forward; `rest` is what stands behind the target.
abbrev pub delete_request : ℕ → Bytes → Bytes
delete_request id rest =
    codes "DELETE" ++ (b' ' ∷ (forwards_path ++ (b'?' ∷ (id_query id ++ (b' ' ∷ rest)))))

abbrev delete_line : ℕ → RequestLine
delete_line id = record {
  method = codes "DELETE";
  path = forwards_path;
  query = id_query id;
  path_extent = 15 + (length (id_query id) + 1) + 1;
}

-- The arrays of `handle_client` have room for the request.
abbrev pub Fits : Layout → Type 0
Fits l = (6 < l.mcap - 1) × Reaches l 15 × (13 ≤ l.qcap - 1)

module _ (ssl : Ssl) (json : Cjson) (system : System) (layout : Layout) where
  open ssl use {Session}

  abbrev pub run_client : Program → Conn Session → Program × Fate Session
  run_client w c = handle_client ssl Program (program_handlers ssl json system) layout true true w c
