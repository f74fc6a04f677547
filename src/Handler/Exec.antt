-- ===== src/Handler/Exec.antt =====
-- `parse_env`, `handle_exec` and `handle_exec_stream` of src/handler.c, and `apply_env` of
-- src/executor.c.
use adb_termux_bridge.Base.{
  ℕ, zero, suc, ◌≡◌, refl, ap, ◌∙◌, ◌⊎◌, inl, inr, Bool, true, false, Option, none, some, List, [],
  ◌∷◌, ◌++◌, map, if◌then◌else◌, All, Bytes, codes, bytes_eq, c_str, Without, cut_at,
}
use adb_termux_bridge.Executor.Capture.{ExecResult, Round, exec_run}
use adb_termux_bridge.Executor.Stream
use adb_termux_bridge.Executor.Stream.{stream_command}
use adb_termux_bridge.Handler.Answers.{send_json, send_error}
use adb_termux_bridge.Json.{Cjson, Field, text, number}
use adb_termux_bridge.Ssl.{Ssl, Conn}

abbrev pub max_env : ℕ
max_env = 256

-- The variables of a process, by name.
abbrev pub Environment : Type 0
Environment = Bytes → Option Bytes

-- `setenv(name, value, 1)`
unfoldable pub set_env : Bytes → Bytes → Environment → Environment
set_env name value env at = if bytes_eq at name then some value else env at

-- `apply_env`: an entry without `=` is skipped.
unfoldable pub apply_env : List Bytes → Environment → Environment
unfolding set_env
apply_env [] env = env
apply_env (entry ∷ entries) env = elim (cut_at b'=' entry).1 [
  | none ↦ apply_env entries env
  | some value ↦ apply_env entries (set_env (cut_at b'=' entry).0 value env)
]

-- `exec_run` and `exec_run_stream` as the handlers call them: the command and the environment go to
-- the child, whose doings the rounds hold.
pub record ExecCalls : Type 0 where
  pub run_started : Bytes → List Bytes → Bool
  pub run_rounds : Bytes → List Bytes → List Round
  pub stream_started : Bytes → List Bytes → Bool
  pub stream_rounds : Bytes → List Bytes → List Stream.Round

module _ (ssl : Ssl) (json : Cjson) where
  open ssl use {Session}
  open json use {
    Item, parse, get_object_item, is_string, is_object, string, valuestring, children, print_object,
  }

  -- One entry of the `env` object, `key=value`, if it is a string with a name.
  unfoldable pub env_of_item : Item → Option Bytes
  env_of_item entry =
      if is_string entry
      then elim (string entry) [
        | none ↦ none
        | some key ↦ elim (valuestring entry) [
          | none ↦ none
          | some val ↦ some (key ++ (b'=' ∷ val))
        ]
      ]
      else none

  -- The loop, with the room that is left.
  unfoldable pub env_loop : ℕ → List Item → List Bytes
  unfolding env_of_item
  env_loop room [] = []
  env_loop zero (entry ∷ entries) = []
  env_loop (suc room) (entry ∷ entries) = elim (env_of_item entry) [
    | some var ↦ var ∷ env_loop room entries
    | none ↦ env_loop (suc room) entries
  ]

  -- `parse_env`, where `malloc` succeeds.
  unfoldable pub parse_env : Item → List Bytes
  unfolding env_loop
  parse_env req = elim (get_object_item req (codes "env")) [
    | none ↦ []
    | some env_obj ↦ if is_object env_obj then env_loop max_env (children env_obj) else []
  ]

  -- The command and the environment of a request, or the answer that refuses it.
  unfoldable pub exec_request : Bytes → Bytes ⊎ (Bytes × List Bytes)
  unfolding parse_env
  exec_request body = elim (parse body) [
    | none ↦ inl (codes "invalid JSON")
    | some req ↦ elim (get_object_item req (codes "command")) [
      | none ↦ inl (codes "missing 'command' field")
      -- a string item always has a `valuestring`
      | some cmd_item ↦
          if is_string cmd_item
          then elim (valuestring cmd_item) [
            | some command ↦ inr (command, parse_env req)
            | none ↦ inr ([], parse_env req)
          ]
          else inl (codes "missing 'command' field")
    ]
  ]

  -- The members of the answer; a text that was never allocated is sent as "".
  abbrev pub exec_answer : ExecResult → List (Bytes × Field)
  exec_answer r =
      (codes "stdout", text (c_str r.stdout_data))
      ∷ (codes "stderr", text (c_str r.stderr_data))
      ∷ (codes "exit_code", number r.exit_code)
      ∷ []

  -- The flag says whether the handler has returned.
  unfoldable pub handle_exec : ExecCalls → Bytes → Conn Session → Conn Session × Bool
  unfolding exec_request
  handle_exec calls body c = elim (exec_request body) [
    | inl msg ↦ (send_error ssl json 400 msg c, true)
    | inr (command, env) ↦
        elim (exec_run (calls.run_started command env) (calls.run_rounds command env)) [
          | none ↦ (c, false)
          | some none ↦ (send_error ssl json 500 (codes "execution failed") c, true)
          | some (some r) ↦ (send_json ssl 200 (print_object (exec_answer r)) c, true)
        ]
  ]

  unfoldable pub handle_exec_stream : ExecCalls → Bytes → Conn Session → Conn Session × Bool
  unfolding exec_request
  handle_exec_stream calls body c = elim (exec_request body) [
    | inl msg ↦ (send_error ssl json 400 msg c, true)
    | inr (command, env) ↦
        stream_command ssl (calls.stream_started command env) (calls.stream_rounds command env) c
  ]

-- An entry: a name without `=`, an `=`, and a value.
abbrev pub entry_of : Bytes × Bytes → Bytes
entry_of (name, value) = name ++ (b'=' ∷ value)

abbrev pub IsName : Bytes × Bytes → Type 0
IsName (name, value) = Without b'=' name

-- The value of the last entry of a name.
abbrev pub last_value : List (Bytes × Bytes) → Option Bytes → Bytes → Option Bytes
last_value [] default at = default
last_value ((name, value) ∷ vars) default at =
    last_value vars (if bytes_eq at name then some value else default) at

cut_at-entry_of :
    (name value : Bytes)
    → Without b'=' name
    → cut_at b'=' (name ++ (b'=' ∷ value)) ≡ (name, some value)
unfolding cut_at
cut_at-entry_of [] value h = refl
cut_at-entry_of (c ∷ name) value h =
    rw h.0 (ap (λ r. (c ∷ r.0, r.1)) (cut_at-entry_of name value h.1))

-- `apply_env` gives each name the value of its last entry, and leaves every other name as it was.
pub apply_env_lem :
    (vars : List (Bytes × Bytes)) (env : Environment) (at : Bytes)
    → All IsName vars
    → apply_env (map entry_of vars) env at ≡ last_value vars (env at) at
unfolding apply_env set_env
apply_env_lem [] env at h = refl
apply_env_lem ((name, value) ∷ vars) env at h =
    let cut = cut_at-entry_of name value h.0 in
    rw (cut, apply_env)
      (ap (λ r. apply_env (map entry_of vars) (set_env r.0 value env) at) cut
        ∙ apply_env_lem vars (set_env name value env) at h.1)
