-- ===== src/Server/Start.antt =====
-- `kill_previous_instance` and `server_start` of src/server.c.
use adb_termux_bridge.Base.{
  ℕ, ◌≡◌, ◌⊎◌, Bool, true, false, not, ◌&&◌, ◌||◌, Option, none, some, List, [], ◌∷◌, map, ltb,
  ◌==◌, if◌then◌else◌, length, take, concat, ℤ, is_pos, int_eq, Bytes, codes, strstr, c_str,
  digit_value, skip_isspace, strtol,
}
use adb_termux_bridge.Forward.{port_bits}

-- What strtol leaves behind the number in base 10, with no digit all of the text: `*end`.
unfoldable pub skip_digits : Bytes → Bytes
skip_digits [] = []
skip_digits (c ∷ cs) = let rest = skip_digits cs in if ltb (digit_value c) 10 then rest else c ∷ cs

unfoldable pub skip_sign : Bytes → Bytes
skip_sign [] = []
skip_sign (c ∷ cs) = if c == b'-' || c == b'+' then cs else c ∷ cs

unfoldable pub strtol_end : Bytes → Bytes
unfolding skip_digits skip_sign
strtol_end s =
    let digits = skip_sign (skip_isspace s) in
    elim digits as (λ _. Bytes) [
      | [] ↦ s
      | c ∷ cs ↦ if ltb (digit_value c) 10 then skip_digits (c ∷ cs) else s
    ]

-- An entry of /proc: its name, its command line if that can be opened, whether the process takes
-- SIGTERM, and whether it is still there after half a second.
pub record ProcEntry : Type 0 where
  pub d_name : Bytes
  pub cmdline : Option Bytes
  pub terminates : Bool
  pub survives : Bool

pub data Signal : Type 0 where
  sigterm sigkill : ℤ → Signal

-- The process id that an entry names; `none` for one that is passed over.
unfoldable pub entry_pid : ℤ → ProcEntry → Option ℤ
unfolding strtol_end
entry_pid my_pid e =
    let pid = strtol 10 e.d_name in
    if not (length (strtol_end e.d_name) == 0) || (int_eq pid my_pid || not (is_pos pid))
    then none
    else some pid

-- The test of the command line: at most 511 bytes of it, up to the first NUL.
unfoldable pub is_instance : ProcEntry → Bool
is_instance e = elim e.cmdline [
  | none ↦ false
  | some line ↦
      let read = take 511 line in
      not (length read == 0)
      && (elim (strstr (c_str read) (codes "termux-adb-bridge")) [ some _ ↦ true | none ↦ false ])
]

-- The signals that are sent, in order. SIGTERM also counts where it cannot be sent.
unfoldable pub kill_entry : ℤ → ProcEntry → List Signal
unfolding entry_pid is_instance
kill_entry my_pid e = elim (entry_pid my_pid e) [
  | none ↦ []
  | some pid ↦
      if is_instance e
      then sigterm pid ∷ (if e.terminates && e.survives then sigkill pid ∷ [] else [])
      else []
]

-- The loop over /proc, where it can be opened.
unfoldable pub kill_previous_instance : ℤ → Option (List ProcEntry) → List Signal
unfolding kill_entry
kill_previous_instance my_pid none = []
kill_previous_instance my_pid (some entries) = concat (map (kill_entry my_pid) entries)

-- What `accept4` answers: a connection, EINTR, or another error; and whether `sv->running` is still
-- set then.
pub data AcceptAnswer : Type 0 where
  client : ℕ → AcceptAnswer
  accept_interrupted accept_failed : AcceptAnswer

-- The calls of `server_start` in front of its loop.
pub record StartCalls : Type 0 where
  pub socket : Option ℕ
  pub inet_pton : Bytes → Option ℕ
  pub bind : ℕ → ℕ → Bool
  pub listen : Bool

-- `accept_loop`: the connections that get a thread. The flag of an answer says whether the server is
-- still running when the loop comes round again.
unfoldable pub accept_loop : Bool → List (AcceptAnswer × Bool) → List ℕ
accept_loop false answers = []
accept_loop true [] = []
accept_loop true ((client fd, more) ∷ answers) = fd ∷ accept_loop more answers
accept_loop true ((accept_interrupted, more) ∷ answers) = accept_loop more answers
accept_loop true ((accept_failed, more) ∷ answers) = accept_loop more answers

-- How the server ran: the address and the port of its socket, and the connections that got a thread.
pub record Ran : Type 0 where
  pub addr : ℕ
  pub port : ℕ
  pub clients : List ℕ

-- The address that is bound: 0 where `inet_pton` does not understand the text.
unfoldable pub listen_address : StartCalls → Bytes → ℕ
listen_address calls address = elim (calls.inet_pton address) [ some a ↦ a | none ↦ 0 ]

-- The signals that were sent to older instances, and how the server ran; `none` for the result -1.
unfoldable pub server_start :
    StartCalls
    → ℤ
    → Option (List ProcEntry)
    → Bytes
    → ℤ
    → List (AcceptAnswer × Bool)
    → List Signal × Option Ran
unfolding kill_previous_instance accept_loop listen_address port_bits
server_start calls my_pid proc address port answers = elim calls.socket [
  | none ↦ ([], none)
  | some fd ↦
      let addr = listen_address calls address in
      let killed = kill_previous_instance my_pid proc in
      if calls.bind addr (port_bits port) && calls.listen
      then (
        killed,
        some (record { addr = addr; port = port_bits port; clients = accept_loop true answers }),
      )
      else (killed, none)
]

abbrev pub signal_pid : Signal → ℤ
signal_pid (sigterm pid) = pid
signal_pid (sigkill pid) = pid

abbrev pub In : ProcEntry → List ProcEntry → Type 0
In e [] = ⊥
In e (x ∷ xs) = (e ≡ x) ⊎ In e xs

-- A signal to a positive process id, not this process's, that an entry names whose command line is
-- the program's.
pub record Targets (my_pid : ℤ) (entries : List ProcEntry) (signal : Signal) : Type 0 where
  pub entry : ProcEntry
  pub listed : In entry entries
  pub named : strtol 10 entry.d_name ≡ signal_pid signal
  pub positive : is_pos (signal_pid signal) ≡ true
  pub other : int_eq (signal_pid signal) my_pid ≡ false
  pub instance_of : is_instance entry ≡ true
