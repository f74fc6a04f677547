-- ===== src/Http/RequestLine.antt =====
-- `parse_request_line` of src/server.c.
--
-- The function bounds what it writes to `path` by `path - line`, the distance between two different
-- arrays. Where these lie in memory is up to the compiler, so their addresses are parameters.
use adb_termux_bridge.Base.{
  ℕ, zero, suc, ◌+◌, ◌-◌, ◌≤◌, ◌<◌, ◌≡◌, refl, ap, ◌∙◌, false, Option, none, some, [], ◌∷◌, ◌++◌,
  append-nil, append_assoc, arith, ltb, ◌==◌, if◌then◌else◌, lt→ltb, All, length, take,
  length-append, take_all, Bytes, Without,
}

-- The sizes that the caller passes, and the addresses of `line` and of `path`.
pub record Layout : Type 0 where
  pub mcap : ℕ
  pub pcap : ℕ
  pub qcap : ℕ
  pub line_at : ℕ
  pub path_at : ℕ

-- What the loop over the target has stored in the array `path`: the path and, once a `?` was seen, a
-- NUL and the query behind it.
pub record Target : Type 0 where
  pub path : Bytes
  pub query : Option Bytes

abbrev pub query_length : Option Bytes → ℕ
query_length none = 0
query_length (some q) = suc (length q)

-- The index in the array at which the next byte goes: `path - path_at` of the moved pointer.
abbrev pub write_index : Target → ℕ
write_index t = length t.path + query_length t.query

pub record RequestLine : Type 0 where
  pub method : Bytes
  pub path : Bytes
  pub query : Bytes
  -- how many bytes of the array `path` were written, the NUL at the end included
  pub path_extent : ℕ

-- The first loop: at most `room` bytes, up to a space; and what is left of the line.
unfoldable pub read_method : ℕ → Bytes → Bytes × Bytes
read_method zero s = ([], s)
read_method (suc room) [] = ([], [])
read_method (suc room) (c ∷ cs) =
    let rest = read_method room cs in if c == b' ' then ([], c ∷ cs) else (c ∷ rest.0, rest.1)

-- One byte of the target. Pointers are compared as `path_at + index < line_at + (pcap - 1)`.
unfoldable pub store : Layout → ℕ → Target → Target
store l c t = elim t.query [
  | none ↦
      if c == b'?'
      then record t { query = some [] }
      else if ltb (l.path_at + length t.path) (l.line_at + (l.pcap - 1))
      then record t { path = t.path ++ (c ∷ []) }
      else t
  | some q ↦ if ltb (length q) (l.qcap - 1) then record t { query = some (q ++ (c ∷ [])) } else t
]

-- The second loop, up to a space or the end of the string.
unfoldable pub scan_target : Layout → Bytes → Target → Target
unfolding store
scan_target l [] t = t
scan_target l (c ∷ cs) t =
    let rest = scan_target l cs (store l c t) in if c == b' ' then t else rest

abbrev no_target : Target
no_target = record { path = []; query = none }

-- `strncpy(query, q_start, qcap - 1)`, with no query the empty string that was set at the start.
unfoldable pub copy_query : Layout → Option Bytes → Bytes
copy_query l none = []
copy_query l (some q) = take (l.qcap - 1) q

unfoldable pub finish_line : Layout → Bytes → Target → RequestLine
unfolding copy_query
finish_line l method t = record {
  method = method;
  path = t.path;
  query = copy_query l t.query;
  path_extent = write_index t + 1;
}

-- `none` is the return value -1.
unfoldable pub after_method : Layout → Bytes → Bytes → Option RequestLine
unfolding finish_line scan_target
after_method l method [] = none
after_method l method (c ∷ cs) =
    if c == b' ' then some (finish_line l method (scan_target l cs no_target)) else none

unfoldable pub parse_request_line : Layout → Bytes → Option RequestLine
unfolding after_method read_method
parse_request_line l line = let m = read_method (l.mcap - 1) line in after_method l m.0 m.1

-- What a path can hold: no space and no question mark.
abbrev pub IsPath : Bytes → Type 0
IsPath = All (λ c. ((c == b' ') ≡ false) × ((c == b'?') ≡ false))

-- `path` ends in front of `line + pcap`, in memory: every byte of it passes the test.
abbrev pub Reaches : Layout → ℕ → Type 0
Reaches l n = l.path_at + n ≤ l.line_at + (l.pcap - 1)

read_method_lem :
    (room : ℕ) (m rest : Bytes)
    → Without b' ' m
    → length m < room
    → read_method room (m ++ (b' ' ∷ rest)) ≡ (m, b' ' ∷ rest)
unfolding read_method
read_method_lem zero m rest h k = absurd (omega arith)
read_method_lem (suc room) [] rest h k = refl
read_method_lem (suc room) (c ∷ m) rest h k =
    rw (h.0, read_method_lem room m rest h.1 (omega arith))

scan-path :
    (l : Layout) (p rest done : Bytes)
    → IsPath p
    → Reaches l (length done + length p)
    → scan_target l (p ++ rest) (record { path = done; query = none })
      ≡ scan_target l rest (record { path = done ++ p; query = none })
unfolding scan_target
scan-path l [] rest done h k = rw append-nil
scan-path l (c ∷ p) rest done h k =
    let fits = lt→ltb (l.path_at + length done) (l.line_at + (l.pcap - 1)) (omega arith) in
    let n = length-append done (c ∷ []) in
    rw (h.0.0, h.0.1, fits)
      (scan-path l p rest (done ++ (c ∷ [])) h.1 (omega (arith, n))
        ∙ rw (append_assoc done (c ∷ []) p))

scan-query :
    (l : Layout) (q rest path done : Bytes)
    → Without b' ' q
    → length done + length q ≤ l.qcap - 1
    → scan_target l (q ++ rest) (record { path = path; query = some done })
      ≡ scan_target l rest (record { path = path; query = some (done ++ q) })
unfolding scan_target
scan-query l [] rest path done h k = rw append-nil
scan-query l (c ∷ q) rest path done h k =
    let fits = lt→ltb (length done) (l.qcap - 1) (omega arith) in
    let n = length-append done (c ∷ []) in
    rw (h.0, fits)
      (scan-query l q rest path (done ++ (c ∷ [])) h.1 (omega (arith, n))
        ∙ rw (append_assoc done (c ∷ []) q))

scan-space : (l : Layout) (rest : Bytes) (t : Target) → scan_target l (b' ' ∷ rest) t ≡ t
unfolding scan_target
scan-space l rest t = refl

scan-mark :
    (l : Layout) (rest path : Bytes)
    → scan_target l (b'?' ∷ rest) (record { path = path; query = none })
      ≡ scan_target l rest (record { path = path; query = some [] })
unfolding scan_target
scan-mark l rest path = refl

after_space :
    (l : Layout) (m s : Bytes)
    → Without b' ' m
    → length m < l.mcap - 1
    → parse_request_line l (m ++ (b' ' ∷ s))
      ≡ some (finish_line l m (scan_target l s (record { path = []; query = none })))
unfolding parse_request_line
after_space l m s h k = rw (read_method_lem (l.mcap - 1) m s h k)

-- A request line `METHOD PATH ...` is read back, whatever stands behind the second space, if the
-- method fits and the memory layout lets the path's bytes pass the bounds test. The array `path` is
-- written up to the path's length and one more, whatever its own size is.
pub parse_request_line_path :
    (l : Layout) (m p rest : Bytes)
    → Without b' ' m
    → IsPath p
    → length m < l.mcap - 1
    → Reaches l (length p)
    → parse_request_line l (m ++ (b' ' ∷ (p ++ (b' ' ∷ rest))))
      ≡ some (record { method = m; path = p; query = []; path_extent = length p + 1 })
unfolding finish_line
parse_request_line_path l m p rest hm hp k reach =
    after_space l m (p ++ (b' ' ∷ rest)) hm k
    ∙ ap (λ t. some (finish_line l m t))
        (scan-path l p (b' ' ∷ rest) [] hp (omega arith) ∙ scan-space l rest _)
    ∙ ap (λ n. some (record { method = m; path = p; query = []; path_extent = n + 1 }))
        (omega arith)

-- The same with a query behind the first `?`, if it is shorter than its array.
pub parse_request_line_query :
    (l : Layout) (m p q rest : Bytes)
    → Without b' ' m
    → IsPath p
    → Without b' ' q
    → length m < l.mcap - 1
    → Reaches l (length p)
    → length q ≤ l.qcap - 1
    → parse_request_line l (m ++ (b' ' ∷ (p ++ (b'?' ∷ (q ++ (b' ' ∷ rest))))))
      ≡ some
          (record { method = m; path = p; query = q; path_extent = length p + (length q + 1) + 1 })
unfolding finish_line
parse_request_line_query l m p q rest hm hp hq k reach fits =
    after_space l m (p ++ (b'?' ∷ (q ++ (b' ' ∷ rest)))) hm k
    ∙ ap (λ t. some (finish_line l m t))
        (scan-path l p (b'?' ∷ (q ++ (b' ' ∷ rest))) [] hp (omega arith)
          ∙ scan-mark l (q ++ (b' ' ∷ rest)) p
          ∙ scan-query l q (b' ' ∷ rest) p [] hq (omega arith)
          ∙ scan-space l rest _)
    ∙ ground (arith, take_all (l.qcap - 1) q)

-- Where `path` lies so far below `line` that the bounds test passes, a path that is at least as long
-- as its array is stored whole, and is written past the array's end.
pub parse_request_line_overflow :
    (l : Layout) (m p rest : Bytes)
    → Without b' ' m
    → IsPath p
    → length m < l.mcap - 1
    → Reaches l (length p)
    → l.pcap ≤ length p
    → (r : RequestLine) × (parse_request_line l (m ++ (b' ' ∷ (p ++ (b' ' ∷ rest)))) ≡ some r)
      × (l.pcap < r.path_extent)
parse_request_line_overflow l m p rest hm hp k reach long = (
  record { method = m; path = p; query = []; path_extent = length p + 1 },
  parse_request_line_path l m p rest hm hp k reach,
  omega arith,
)

scan_out_of_reach :
    (l : Layout) (s : Bytes) (t : Target)
    → l.line_at + (l.pcap - 1) ≤ l.path_at
    → t.path ≡ []
    → (scan_target l s t).path ≡ []
unfolding scan_target
scan_out_of_reach l [] t h e = e
scan_out_of_reach l (c ∷ s) t h e =
    ground (arith, scan_out_of_reach l s (store l c t) h, store_out_of_reach c t)
  where
    store_out_of_reach : (c : ℕ) (t : Target) → t.path ≡ [] → (store l c t).path ≡ []
    store_out_of_reach c t e = ground arith

after_method_out_of_reach :
    (l : Layout) (m s : Bytes) (r : RequestLine)
    → l.line_at + (l.pcap - 1) ≤ l.path_at
    → after_method l m s ≡ some r
    → r.path ≡ []
unfolding after_method finish_line
after_method_out_of_reach l m [] r h e = cc
after_method_out_of_reach l m (c ∷ s) r h e = ground (arith, scan_out_of_reach l s no_target h refl)

read_method_full :
    (room : ℕ) (m s : Bytes) → Without b' ' m → room ≡ length m → read_method room (m ++ s) ≡ (m, s)
unfolding read_method
read_method_full zero [] s h e = refl
read_method_full zero (c ∷ m) s h e = absurd (omega arith)
read_method_full (suc room) [] s h e = absurd (omega arith)
read_method_full (suc room) (c ∷ m) s h e = rw (h.0, read_method_full room m s h.1 (omega arith))

-- Where `path` lies above `line` instead, by its own size less one or more, no byte of any path is
-- stored: every request that is accepted has an empty path.
pub parse_request_line_out_of_reach :
    (l : Layout) (line : Bytes) (r : RequestLine)
    → l.line_at + (l.pcap - 1) ≤ l.path_at
    → parse_request_line l line ≡ some r
    → r.path ≡ []
unfolding parse_request_line finish_line
parse_request_line_out_of_reach l line r h e =
    let m = read_method (l.mcap - 1) line in after_method_out_of_reach l m.0 m.1 r h e

-- A method that is at least as long as its array, the NUL counted, is refused.
pub parse_request_line_long_method :
    (l : Layout) (m rest : Bytes)
    → Without b' ' m
    → l.mcap - 1 ≡ length m
    → (c : ℕ) → (c == b' ') ≡ false
    → parse_request_line l (m ++ (c ∷ rest)) ≡ none
unfolding parse_request_line
parse_request_line_long_method l m rest h e c k =
    rw (read_method_full (l.mcap - 1) m (c ∷ rest) h e, k)
