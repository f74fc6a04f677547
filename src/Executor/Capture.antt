-- ===== src/Executor/Capture.antt =====
-- `exec_run` of src/executor.c: the loop of the parent process, over what `select`, `read` and
-- `waitpid` answer in each round. The child runs outside the model.
use adb_termux_bridge.Base.{
  ℕ, zero, suc, ◌+◌, ◌-◌, ◌≤◌, ◌≡◌, refl, sym, ap, ◌∙◌, subst, ◌≢◌, inl, inr, Bool, true, Option,
  none, some, List, [], ◌∷◌, ◌++◌, append-nil, append_assoc, arith, ltb, if◌then◌else◌,
  ltb-false→le, Bool-cases, Option-cases, length, take, length-append, length-take, take_all, ℤ,
  pos, negsuc, Bytes,
}

-- `EXEC_MAX_OUTPUT`
abbrev pub max_output : ℕ
max_output = 10485760

-- A status of `waitpid`: WIFEXITED with its code, or the signal that ended the child.
pub data Status : Type 0 where
  exited : ℕ → Status
  signalled : ℕ → Status

-- `select` fails, times out, or finds pipes readable; then what `read` stored from standard output
-- and from standard error, empty where the pipe is not ready or `read` is not positive.
pub data Selected : Type 0 where
  select_failed timeout : Selected
  ready : Bytes → Bytes → Selected

-- What one round meets: `select`, and what `waitpid(pid, &w, WNOHANG)` would report.
pub data Round : Type 0 where
  round : Selected → Option Status → Round

-- `exec_result_t`; the lengths are those of the data.
pub record ExecResult : Type 0 where
  pub stdout_data : Bytes
  pub stderr_data : Bytes
  pub exit_code : ℤ

abbrev pub no_result : ExecResult
no_result = record { stdout_data = []; stderr_data = []; exit_code = pos 0 }

-- The bytes of one `read`, up to the limit.
unfoldable pub append_output : Bytes → Bytes → Bytes
append_output kept bytes =
    if ltb max_output (length kept + length bytes)
    then kept ++ take (max_output - length kept) bytes
    else kept ++ bytes

unfoldable pub result_code : Status → ℤ
result_code (exited code) = pos code
result_code (signalled sig) = negsuc 0

-- The two reads of a round.
unfoldable pub store_reads : Bytes → Bytes → ExecResult → ExecResult
unfolding append_output
store_reads out err r = record r {
  stdout_data = append_output r.stdout_data out;
  stderr_data = append_output r.stderr_data err;
}

-- The loop; `none` if it is still running when the rounds are used up.
unfoldable pub exec_loop : List Round → ExecResult → Option ExecResult
unfolding result_code store_reads
exec_loop [] r = none
exec_loop (round select_failed waited ∷ rounds) r = some r
exec_loop (round timeout (some status) ∷ rounds) r =
    some (record r { exit_code = result_code status })
exec_loop (round timeout none ∷ rounds) r = exec_loop rounds r
exec_loop (round (ready out err) (some status) ∷ rounds) r =
    some (record (store_reads out err r) { exit_code = result_code status })
exec_loop (round (ready out err) none ∷ rounds) r = exec_loop rounds (store_reads out err r)

-- From the call on: whether the pipes and the child could be made, and the rounds. An outer `none` is
-- a call that has not returned, an inner one the result -1.
unfoldable pub exec_run : Bool → List Round → Option (Option ExecResult)
unfolding exec_loop
exec_run started rounds =
    if started
    then elim (exec_loop rounds no_result) [ some r ↦ some (some r) | none ↦ none ]
    else some none

-- What the reads of the rounds return until one of them ends the loop: `out` picks the stream.
abbrev pub all_read : (Bytes → Bytes → Bytes) → List Round → Bytes
all_read out [] = []
all_read out (round select_failed w ∷ rounds) = []
all_read out (round timeout (some w) ∷ rounds) = []
all_read out (round timeout none ∷ rounds) = all_read out rounds
all_read out (round (ready o e) (some w) ∷ rounds) = out o e
all_read out (round (ready o e) none ∷ rounds) = out o e ++ all_read out rounds

take-append_short :
    (n : ℕ) (a b : Bytes) → length a ≤ n → take n (a ++ b) ≡ a ++ take (n - length a) b
take-append_short n [] b h = ap (λ k. take k b) (omega arith)
take-append_short zero (x ∷ a) b h = absurd (omega arith)
take-append_short (suc n) (x ∷ a) b h =
    ap (◌∷◌ x) (take-append_short n a b (omega arith) ∙ ap (λ k. a ++ take k b) (omega arith))

append_output-take :
    (kept bytes : Bytes)
    → length kept ≤ max_output
    → append_output kept bytes ≡ take max_output (kept ++ bytes)
unfolding append_output
append_output-take kept bytes h = elim (Bool-cases (ltb max_output (length kept + length bytes))) [
  | inl over ↦ rw over (sym (take-append_short max_output kept bytes h))
  | inr fits ↦ rw fits (
      sym (
        take_all max_output (kept ++ bytes) (
          omega (
            arith,
            length-append kept bytes,
            ltb-false→le max_output (length kept + length bytes) fits,
          ))))
]

take-take-append : (n : ℕ) (a b : Bytes) → take n (take n a ++ b) ≡ take n (a ++ b)
take-take-append zero a b = refl
take-take-append (suc n) [] b = refl
take-take-append (suc n) (x ∷ a) b = ap (◌∷◌ x) (take-take-append n a b)

some_inj {ℓ} : {A : Type ℓ} (a b : A) → some a ≡ some b → a ≡ b
some_inj a b h = cc

some-none {ℓ} : {A : Type ℓ} {a : A} → some a ≢ none
some-none h = cc

-- The result holds the first bytes of both streams, in order, up to the limit.
record Captured (out err : Bytes) (o : ExecResult) : Type 0 where
  stdout_is : o.stdout_data ≡ take max_output out
  stderr_is : o.stderr_data ≡ take max_output err

append_output-kept :
    (kept a bytes : Bytes)
    → kept ≡ take max_output a
    → append_output kept bytes ≡ take max_output (a ++ bytes)
append_output-kept kept a bytes h =
    append_output-take kept bytes (rw h (omega (arith, length-take max_output a)))
    ∙ ap (λ k. take max_output (k ++ bytes)) h
    ∙ take-take-append max_output a bytes

store_reads-Captured :
    (a b out err : Bytes) (r : ExecResult)
    → Captured a b r
    → Captured (a ++ out) (b ++ err) (store_reads out err r)
unfolding store_reads
store_reads-Captured a b out err r k = record {
  stdout_is = append_output-kept r.stdout_data a out k.stdout_is;
  stderr_is = append_output-kept r.stderr_data b err k.stderr_is;
}

Captured-more :
    (a b c d e f : Bytes) (o : ExecResult)
    → Captured ((a ++ c) ++ e) ((b ++ d) ++ f) o
    → Captured (a ++ (c ++ e)) (b ++ (d ++ f)) o
Captured-more a b c d e f o k = record {
  stdout_is = k.stdout_is ∙ ap (take max_output) (append_assoc a c e);
  stderr_is = k.stderr_is ∙ ap (take max_output) (append_assoc b d f);
}

Captured-end : (a b : Bytes) (o : ExecResult) → Captured a b o → Captured (a ++ []) (b ++ []) o
Captured-end a b o k = record {
  stdout_is = k.stdout_is ∙ ap (take max_output) (sym (append-nil a));
  stderr_is = k.stderr_is ∙ ap (take max_output) (sym (append-nil b));
}

abbrev pub first_of : Bytes → Bytes → Bytes
first_of o e = o

abbrev pub second_of : Bytes → Bytes → Bytes
second_of o e = e

exec_loop-Captured :
    (rounds : List Round) (a b : Bytes) (r o : ExecResult)
    → Captured a b r
    → exec_loop rounds r ≡ some o
    → Captured (a ++ all_read first_of rounds) (b ++ all_read second_of rounds) o
unfolding exec_loop
exec_loop-Captured [] a b r o k h = cc
exec_loop-Captured (round select_failed w ∷ rounds) a b r o k h =
    subst (Captured (a ++ []) (b ++ [])) (some_inj r o h) (Captured-end a b r k)
exec_loop-Captured (round timeout (some status) ∷ rounds) a b r o k h =
    subst (Captured (a ++ []) (b ++ [])) (some_inj _ o h)
      (Captured-end a b _ (record { stdout_is = k.stdout_is; stderr_is = k.stderr_is }))
exec_loop-Captured (round timeout none ∷ rounds) a b r o k h = exec_loop-Captured rounds a b r o k h
exec_loop-Captured (round (ready out err) (some status) ∷ rounds) a b r o k h =
    let stored = store_reads-Captured a b out err r k in
    subst (Captured (a ++ out) (b ++ err)) (some_inj _ o h)
      (record { stdout_is = stored.stdout_is; stderr_is = stored.stderr_is })
exec_loop-Captured (round (ready out err) none ∷ rounds) a b r o k h =
    Captured-more a b out err _ _ o (
      exec_loop-Captured rounds (a ++ out) (b ++ err) (store_reads out err r) o
        (store_reads-Captured a b out err r k) h)

-- When `exec_run` returns 0, both texts are what its reads returned, in order, cut to the first
-- EXEC_MAX_OUTPUT bytes.
pub exec_run-Captured :
    (rounds : List Round) (o : ExecResult)
    → exec_run true rounds ≡ some (some o)
    → (o.stdout_data ≡ take max_output (all_read first_of rounds))
      × (o.stderr_data ≡ take max_output (all_read second_of rounds))
unfolding exec_run
exec_run-Captured rounds o h = elim (Option-cases (exec_loop rounds no_result)) [
  | inl e ↦ absurd (some-none (sym (rw (e, exec_run) at h)))
  | inr (r, e) ↦
      let k =
        exec_loop-Captured rounds [] [] no_result r (record { stdout_is = refl; stderr_is = refl })
          e in
      let same : r ≡ o = some_inj r o (some_inj (some r) (some o) (rw (e, exec_run) at h)) in
      subst
        (λ t.
          (t.stdout_data ≡ take max_output (all_read first_of rounds))
          × (t.stderr_data ≡ take max_output (all_read second_of rounds)))
        same (k.stdout_is, k.stderr_is)
]

-- The exit code that the first round which ends the loop leaves: the child's, or 0 if `select` fails.
abbrev pub ending : List Round → Option ℤ
ending [] = none
ending (round select_failed w ∷ rounds) = some (pos 0)
ending (round timeout (some status) ∷ rounds) = some (result_code status)
ending (round timeout none ∷ rounds) = ending rounds
ending (round (ready o e) (some status) ∷ rounds) = some (result_code status)
ending (round (ready o e) none ∷ rounds) = ending rounds
