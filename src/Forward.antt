-- ===== src/Forward.antt =====
-- src/forward.c: the list of TCP-to-unix-socket forwards and its operations. Each operation holds
-- `g_forward_mutex` from its first line to its last, so it is one step here.
pub mod Lists
pub mod Invariant
pub mod Laws
pub mod Listing
pub mod Relay
pub mod Threads
use adb_termux_bridge.Base.{
  ℕ, ◌+◌, ◌-◌, ◌%◌, Bool, true, false, not, ◌&&◌, Option, none, some, List, [], ◌∷◌, map, leb, ◌==◌,
  if◌then◌else◌, length, take, ℤ, pos, negsuc, int_eq, Bytes, bytes_eq,
}

abbrev pub max_forwards : ℕ
max_forwards = 32

-- `struct tcpforward`; `listen_fd` is `none` for -1. The thread handle is not read again.
pub record Forward : Type 0 where
  pub id : ℕ
  pub unix_path : Bytes
  pub host : Bytes
  pub port : ℤ
  pub secure : Bool
  pub listen_fd : Option ℕ
  pub running : Bool
  pub active_connections : ℕ

-- A socket as `bind` was called on it.
pub record Socket : Type 0 where
  pub fd : ℕ
  pub addr : ℕ
  pub port : ℕ

-- `g_forwards`, `g_next_id`, the listening sockets that are open, and the accept threads that were
-- started, by the id of the forward that each was given.
pub record Registry : Type 0 where
  pub forwards : List Forward
  pub next_id : ℕ
  pub sockets : List Socket
  pub threads : List ℕ

-- What the system calls of one `forward_add` answer: the new socket, whether `bind` accepts an
-- address and a port, `listen`, `calloc`, and how `inet_pton` reads a host.
pub record Calls : Type 0 where
  pub socket : Option ℕ
  pub inet_pton : Bytes → Option ℕ
  pub bind : ℕ → ℕ → Bool
  pub listen : Bool
  pub calloc : Bool

-- `htons(port)`: the low sixteen bits of an `int`.
unfoldable pub port_bits : ℤ → ℕ
port_bits (pos n) = n % 65536
port_bits (negsuc n) = 65535 - n % 65536

-- `addr` is zeroed and the result of `inet_pton` is not looked at.
unfoldable pub bind_address : Calls → Bytes → ℕ
bind_address c host = elim (c.inet_pton host) [ some a ↦ a | none ↦ 0 ]

-- The loop of `forward_add` over the forwards that exist: the code that it returns, if any.
unfoldable pub conflict : List Forward → Bytes → Bytes → ℤ → Option ℤ
conflict [] unix_path host port = none
conflict (f ∷ fs) unix_path host port =
    if int_eq f.port port && bytes_eq f.host host
    then some (negsuc 0)
    else if bytes_eq f.unix_path unix_path && int_eq f.port port
    then some (negsuc 1)
    else conflict fs unix_path host port

-- `strncpy` into `unix_path[256]` and `host[64]` of a zeroed struct.
unfoldable pub new_forward : ℕ → ℕ → Bytes → Bytes → ℤ → Bool → Forward
new_forward id fd unix_path host port secure = record {
  id = id;
  unix_path = take 255 unix_path;
  host = take 63 host;
  port = port;
  secure = secure;
  listen_fd = some fd;
  running = true;
  active_connections = 0;
}

-- `close` of a listening socket.
unfoldable pub close_socket : ℕ → List Socket → List Socket
close_socket fd [] = []
close_socket fd (s ∷ ss) = if s.fd == fd then ss else s ∷ close_socket fd ss

-- From `socket` on: the socket is `fd`, bound and listening as far as the calls succeed.
unfoldable pub open_forward : Calls → ℕ → Bytes → Bytes → ℤ → Bool → Registry → Registry × ℤ
unfolding port_bits bind_address new_forward close_socket
open_forward c fd unix_path host port secure r =
    let s : Socket = record { fd = fd; addr = bind_address c host; port = port_bits port } in
    let opened = s ∷ r.sockets in
    let closed = record r { sockets = close_socket fd opened } in
    if not (c.bind (bind_address c host) (port_bits port))
    then (closed, negsuc 4)
    else if not c.listen
    then (closed, negsuc 5)
    else if not c.calloc
    then (closed, negsuc 6)
    else (
      record {
        forwards = new_forward r.next_id fd unix_path host port secure ∷ r.forwards;
        next_id = r.next_id + 1;
        sockets = opened;
        threads = r.next_id ∷ r.threads;
      },
      pos r.next_id,
    )

-- The new registry, and the id or the error code that `forward_add` returns.
unfoldable pub forward_add : Calls → Bytes → Bytes → ℤ → Bool → Registry → Registry × ℤ
unfolding open_forward conflict
forward_add c unix_path host port secure r = elim (conflict r.forwards unix_path host port) [
  | some code ↦ (r, code)
  | none ↦ if leb max_forwards (length r.forwards) then (r, negsuc 2) else elim c.socket [
    | none ↦ (r, negsuc 3)
    | some fd ↦ open_forward c fd unix_path host port secure r
  ]
]

unfoldable pub close_listen_fd : Option ℕ → List Socket → List Socket
unfolding close_socket
close_listen_fd none ss = ss
close_listen_fd (some fd) ss = close_socket fd ss

-- The node with the id, if there is one.
unfoldable pub find_forward : ℕ → List Forward → Option Forward
find_forward id [] = none
find_forward id (f ∷ fs) = if f.id == id then some f else find_forward id fs

-- The list with the first node of that id unlinked.
unfoldable pub unlink : ℕ → List Forward → List Forward
unlink id [] = []
unlink id (f ∷ fs) = if f.id == id then fs else f ∷ unlink id fs

-- Whether 0 (true) or -1 (false) is returned. The node is freed: it is in no list any more.
unfoldable pub forward_remove : ℕ → Registry → Registry × Bool
unfolding find_forward unlink close_listen_fd
forward_remove id r = elim (find_forward id r.forwards) [
  | none ↦ (r, false)
  | some f ↦ (
    record r { forwards = unlink id r.forwards; sockets = close_listen_fd f.listen_fd r.sockets },
    true,
  )
]

unfoldable pub close_all : List Forward → List Socket → List Socket
unfolding close_listen_fd
close_all [] ss = ss
close_all (f ∷ fs) ss = close_all fs (close_listen_fd f.listen_fd ss)

unfoldable pub stop : Forward → Forward
stop f = record f { running = false; listen_fd = none }

unfoldable pub forward_shutdown_all : Registry → Registry
unfolding close_all stop
forward_shutdown_all r = record r {
  forwards = map stop r.forwards;
  sockets = close_all r.forwards r.sockets;
}

abbrev pub empty : Registry
empty = record { forwards = []; next_id = 1; sockets = []; threads = [] }
