-- ===== src/Forward/Listing.antt =====
-- `forward_list_json` of src/forward.c.
use adb_termux_bridge.Base.{
  ℕ, ◌+◌, ◌<◌, ◌≡◌, Bool, true, false, List, [], ◌∷◌, ◌++◌, append-nil, append_assoc, arith,
  if◌then◌else◌, length, length-append, Bytes, codes, print_base, print_int,
}
use adb_termux_bridge.Buffer.{
  Output, size_mod, snprintf_at, start, Holds, start-Holds, snprintf_at-Holds, offset-snprintf_at,
  snprintf_at_overflow,
}
use adb_termux_bridge.Forward.{Forward, Registry}

-- The text of one forward, in the order of the format string.
unfoldable pub entry_text : Forward → Bytes
entry_text f =
    codes "{\"id\":"
    ++ print_base 10 f.id
    ++ codes ",\"unix_path\":\""
    ++ f.unix_path
    ++ codes "\",\"host\":\""
    ++ f.host
    ++ codes "\",\"port\":"
    ++ print_int f.port
    ++ codes ",\"secure\":"
    ++ (if f.secure then codes "true" else codes "false")
    ++ codes ",\"connections\":"
    ++ print_base 10 f.active_connections
    ++ codes "}"

-- The loop; the flag is `first`.
unfoldable pub list_loop : ℕ → Bool → List Forward → Output → Output
list_loop size first [] o = o
list_loop size first (f ∷ fs) o =
    let comma = if first then o else snprintf_at size (codes ",") o in
    list_loop size false fs (snprintf_at size (entry_text f) comma)

-- What `forward_list_json(buf, size)` leaves in `buf`.
unfoldable pub forward_list_json : ℕ → Registry → Output
unfolding list_loop
forward_list_json size r =
    snprintf_at size (codes "]}")
      (list_loop size true r.forwards (snprintf_at size (codes "{\"forwards\":[") start))

-- The document that is meant, with no buffer: the entries, a comma between any two.
abbrev pub entries : Bool → List Forward → Bytes
entries first [] = []
entries first (f ∷ fs) = (if first then [] else codes ",") ++ (entry_text f ++ entries false fs)

abbrev pub body : Registry → Bytes
body r = codes "{\"forwards\":[" ++ entries true r.forwards

abbrev pub document : Registry → Bytes
document r = body r ++ codes "]}"

list_loop-Holds :
    (size : ℕ) (first : Bool) (fs : List Forward) (t : Bytes) (o : Output)
    → size < size_mod
    → length t + length (entries first fs) < size
    → Holds size t o
    → Holds size (t ++ entries first fs) (list_loop size first fs o)
unfolding list_loop
list_loop-Holds size first [] t o small fits h = rw append-nil h
list_loop-Holds size true (f ∷ fs) t o small fits h =
    let n = length-append (entry_text f) (entries false fs) in
    let printed = snprintf_at-Holds size t (entry_text f) o small (omega (arith, n)) h in
    rw (← append_assoc t (entry_text f) (entries false fs)) (
      list_loop-Holds size false fs (t ++ entry_text f) (snprintf_at size (entry_text f) o) small
        (omega (arith, n, length-append t (entry_text f))) printed)
list_loop-Holds size false (f ∷ fs) t o small fits h =
    let n = length-append (entry_text f) (entries false fs) in
    let comma = codes "," in
    let o' = snprintf_at size comma o in
    let separated = snprintf_at-Holds size t comma o small (omega (arith, n)) h in
    let printed =
      snprintf_at-Holds size (t ++ comma) (entry_text f) o' small
        (omega (arith, n, length-append t comma)) separated in
    rw
      (
        ← append_assoc t comma (entry_text f ++ entries false fs),
        ← append_assoc (t ++ comma) (entry_text f) (entries false fs),
      )
      (list_loop-Holds size false fs ((t ++ comma) ++ entry_text f)
        (snprintf_at size (entry_text f) o') small
        (omega (arith, n, length-append t comma, length-append (t ++ comma) (entry_text f)))
        printed)

offset-list_loop :
    (size : ℕ) (first : Bool) (fs : List Forward) (o : Output)
    → (list_loop size first fs o).offset ≡ o.offset + length (entries first fs)
unfolding list_loop
offset-list_loop size first [] o = omega arith
offset-list_loop size true (f ∷ fs) o = omega (
  arith,
  offset-list_loop size false fs (snprintf_at size (entry_text f) o),
  length-append (entry_text f) (entries false fs),
  offset-snprintf_at size (entry_text f) o,
)
offset-list_loop size false (f ∷ fs) o =
    let o' = snprintf_at size (codes ",") o in
    omega (
      arith,
      offset-list_loop size false fs (snprintf_at size (entry_text f) o'),
      length-append (entry_text f) (entries false fs),
      offset-snprintf_at size (entry_text f) o',
      offset-snprintf_at size (codes ",") o,
    )

-- If the document and its NUL fit into the buffer, the buffer holds exactly the document, and no
-- byte outside the buffer is written.
pub forward_list_json_fits :
    (size : ℕ) (r : Registry)
    → size < size_mod
    → length (document r) < size
    → Holds size (document r) (forward_list_json size r)
unfolding forward_list_json
forward_list_json_fits size r small fits =
    let n = length-append (body r) (codes "]}") in
    let head = codes "{\"forwards\":[" in
    let opened = snprintf_at-Holds size [] head start small (omega (arith, n)) (start-Holds size) in
    let listed =
      list_loop-Holds size true r.forwards head (snprintf_at size head start) small
        (omega (arith, n)) opened in
    snprintf_at-Holds size (body r) (codes "]}") _ small (omega (arith, n)) listed

-- If the document without its last two bytes is longer than the buffer, the last call writes
-- outside the buffer.
pub forward_list_json_overflow :
    (size : ℕ) (r : Registry)
    → size < length (body r)
    → length (body r) < 2147483648
    → size < (forward_list_json size r).extent
unfolding forward_list_json
forward_list_json_overflow size r long int =
    let o = list_loop size true r.forwards (snprintf_at size (codes "{\"forwards\":[") start) in
    let e =
      offset-list_loop size true r.forwards (snprintf_at size (codes "{\"forwards\":[") start) in
    let e' = offset-snprintf_at size (codes "{\"forwards\":[") start in
    omega (
      arith,
      snprintf_at_overflow size b']' (codes "}") o (omega (arith, e, e')) (omega (arith, e, e')),
    )
