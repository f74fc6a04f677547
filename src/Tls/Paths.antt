-- ===== src/Tls/Paths.antt =====
-- The directories and the file names of src/tls.c.
use adb_termux_bridge.Base.{
  ◌+◌, ◌≤◌, ◌≡◌, refl, sym, ap, ◌∙◌, subst, inl, inr, Bool, true, false, not, ◌&&◌, ◌||◌, List, [],
  ◌∷◌, ◌++◌, append-nil, append_assoc, arith, ◌==◌, if◌then◌else◌, ==_refl, Bool-cases, All, length,
  take, length-append, length-take, take_all, Bytes, codes, bytes_eq, bytes_eq_refl, Without,
}
use adb_termux_bridge.Tls.{System, World, M, pure, ◌>>◌}

unfoldable pub known : Bytes → List Bytes → Bool
known path [] = false
known path (d ∷ dirs) = bytes_eq path d || known path dirs

unfoldable pub has_slash : Bytes → Bool
has_slash [] = false
has_slash (c ∷ cs) = c == b'/' || has_slash cs

-- The part before the last slash. The empty text stands for the directory that a path starts from:
-- the root, or the working directory.
unfoldable pub parent : Bytes → Bytes
unfolding has_slash
parent [] = []
parent (c ∷ cs) = let rest = parent cs in if has_slash cs then c ∷ rest else []

-- `mkdir(path, 0700) == 0`: the parent must be there, and the path must not.
unfoldable pub mkdir : System → Bytes → M Bool
unfolding known parent
mkdir sys path w =
    if sys.permits path && (known (parent path) w.directories && not (known path w.directories))
    then (true, record w { directories = path ∷ w.directories })
    else (false, w)

-- The loop of `mkdir_p`, with the part of the path before `p` and the part from `p` on. The slash at
-- `p` is a NUL during the call, so that `mkdir` sees the part before it.
unfoldable pub mkdir_loop : System → Bytes → Bytes → M (Unit {0})
unfolding mkdir
mkdir_loop sys front [] = pure tt
mkdir_loop sys front (c ∷ cs) =
    let rest = mkdir_loop sys (front ++ (c ∷ [])) cs in
    if c == b'/' then (mkdir sys front >> rest) else rest

-- The loop starts behind the first byte. On an empty path that is behind the terminator, at bytes
-- that nobody wrote; whatever stands there, each call is `mkdir("")`, which fails.
unfoldable pub mkdir_front : System → Bytes → M Bool
unfolding mkdir_loop mkdir
mkdir_front sys [] = mkdir sys []
mkdir_front sys (c ∷ cs) = mkdir_loop sys (c ∷ []) cs >> mkdir sys (c ∷ cs)

unfoldable pub mkdir_p : System → Bytes → M Bool
unfolding mkdir_front
mkdir_p sys dir = mkdir_front sys (take 1023 dir)

-- `snprintf(path, sizeof(path), "%s/%s", dir, file)` for 1024 bytes
unfoldable pub path_in : Bytes → Bytes → Bytes
path_in dir file = take 1023 (dir ++ (b'/' ∷ file))

pub record CertPaths : Type 0 where
  pub ca_cert : Bytes
  pub ca_key : Bytes
  pub server_cert : Bytes
  pub server_key : Bytes
  pub client_cert : Bytes
  pub client_key : Bytes

unfoldable pub tls_build_paths : Bytes → CertPaths
unfolding path_in
tls_build_paths dir = record {
  ca_cert = path_in dir (codes "ca.crt");
  ca_key = path_in dir (codes "ca.key");
  server_cert = path_in dir (codes "server.crt");
  server_key = path_in dir (codes "server.key");
  client_cert = path_in dir (codes "client.crt");
  client_key = path_in dir (codes "client.key");
}

mkdir-known :
    (sys : System) (p q : Bytes) (w : World)
    → known q w.directories ≡ true
    → known q (mkdir sys p w).1.directories ≡ true
unfolding mkdir known
mkdir-known sys p q w h = ground arith

mkdir_lem :
    (sys : System) (p : Bytes) (w : World)
    → sys.permits p ≡ true
    → known (parent p) w.directories ≡ true
    → known p (mkdir sys p w).1.directories ≡ true
unfolding mkdir
mkdir_lem sys p w h k = elim (Bool-cases (known p w.directories)) [
  | inl there ↦ rw (h, k, there) there
  | inr new ↦ rw (h, k, new) (unfold known in rw (bytes_eq_refl p))
]

has_slash-append : (p rest : Bytes) → has_slash (p ++ (b'/' ∷ rest)) ≡ true
unfolding has_slash
has_slash-append [] rest = refl
has_slash-append (c ∷ p) rest = ground (arith, has_slash-append p rest)

has_slash-Without : (s : Bytes) → Without b'/' s → has_slash s ≡ false
unfolding has_slash
has_slash-Without [] h = refl
has_slash-Without (c ∷ s) h = rw h.0 (has_slash-Without s h.1)

parent-append : (p name : Bytes) → Without b'/' name → parent (p ++ (b'/' ∷ name)) ≡ p
unfolding parent
parent-append [] name h = rw (has_slash-Without name h)
parent-append (c ∷ p) name h = rw (has_slash-append p name) (ap (◌∷◌ c) (parent-append p name h))

-- A path from its names.
abbrev pub join : List Bytes → Bytes
join [] = []
join (name ∷ names) = b'/' ∷ (name ++ join names)

-- The calls on a part with no slash.
mkdir_loop-Without :
    (sys : System) (front name rest : Bytes)
    → Without b'/' name
    → mkdir_loop sys front (name ++ rest) ≡ mkdir_loop sys (front ++ name) rest
unfolding mkdir_loop
mkdir_loop-Without sys front [] rest h = ap (λ t. mkdir_loop sys t rest) (sym (append-nil front))
mkdir_loop-Without sys front (c ∷ name) rest h = rw h.0 (
    mkdir_loop-Without sys (front ++ (c ∷ [])) name rest h.1
    ∙ ap (λ t. mkdir_loop sys t rest) (append_assoc front (c ∷ []) name))

walk : System → Bytes → Bytes → M Bool
walk sys front rest = mkdir_loop sys front rest >> mkdir sys (front ++ rest)

-- The walk over a name makes what stands before it, and goes on behind it.
walk-end :
    (sys : System) (front name : Bytes) (w : World)
    → Without b'/' name
    → walk sys front (name ++ []) w ≡ mkdir sys (front ++ (name ++ [])) w
unfolding walk mkdir_loop
walk-end sys front name w h = rw (mkdir_loop-Without sys front name [] h)

walk-next :
    (sys : System) (front name rest : Bytes) (w : World)
    → Without b'/' name
    → walk sys front (name ++ (b'/' ∷ rest)) w
      ≡ walk sys ((front ++ name) ++ (b'/' ∷ [])) rest (mkdir sys (front ++ name) w).1
unfolding walk mkdir_loop
walk-next sys front name rest w h = rw (mkdir_loop-Without sys front name (b'/' ∷ rest) h) (
    ap
      (λ t.
        (mkdir_loop sys ((front ++ name) ++ (b'/' ∷ [])) rest >> mkdir sys t)
          (mkdir sys (front ++ name) w).1)
      (sym (append_assoc front name (b'/' ∷ rest))
        ∙ sym (append_assoc (front ++ name) (b'/' ∷ []) rest)))

walk-known :
    (sys : System) (front name : Bytes) (names : List Bytes) (w : World)
    → ((p : Bytes) → sys.permits p ≡ true)
    → Without b'/' name
    → All (Without b'/') names
    → known (parent (front ++ name)) w.directories ≡ true
    → known (front ++ (name ++ join names)) (walk sys front (name ++ join names) w).1.directories
      ≡ true
walk-known sys front name [] w all h hs k =
    rw (walk-end sys front name w h)
      (mkdir_lem sys (front ++ (name ++ [])) w (all _) (rw (append-nil name) k))
walk-known sys front name (n ∷ ns) w all h hs k =
    let at = front ++ name in
    let slash : Bytes = b'/' ∷ [] in
    let after = (mkdir sys at w).1 in
    let there : known (parent ((at ++ slash) ++ n)) after.directories ≡ true =
      rw (append_assoc at slash n, parent-append at n hs.0) (mkdir_lem sys at w (all at) k) in
    rw (walk-next sys front name (n ++ join ns) w h) (
      subst (λ t. known t (walk sys (at ++ slash) (n ++ join ns) after).1.directories ≡ true)
        (append_assoc at slash (n ++ join ns) ∙ append_assoc front name (join (n ∷ ns)))
        (walk-known sys (at ++ slash) n ns after all hs.0 hs.1 there))

loop-known :
    (sys : System) (front rest q : Bytes) (w : World)
    → known q w.directories ≡ true
    → known q (mkdir_loop sys front rest w).1.directories ≡ true
unfolding mkdir_loop
loop-known sys front [] q w h = h
loop-known sys front (c ∷ cs) q w h = elim (Bool-cases (c == b'/')) [
  | inl slash ↦ rw slash (loop-known sys (front ++ (c ∷ [])) cs q _ (mkdir-known sys front q w h))
  | inr other ↦ rw other (loop-known sys (front ++ (c ∷ [])) cs q w h)
]

mkdir_front-known :
    (sys : System) (dir q : Bytes) (w : World)
    → known q w.directories ≡ true
    → known q (mkdir_front sys dir w).1.directories ≡ true
unfolding mkdir_front
mkdir_front-known sys [] q w h = mkdir-known sys [] q w h
mkdir_front-known sys (c ∷ cs) q w h =
    mkdir-known sys (c ∷ cs) q _ (loop-known sys (c ∷ []) cs q w h)

-- `mkdir_p` makes an absolute path of any depth, where the system permits the names, none holds a
-- slash, and the whole fits into the buffer; and every directory that was there is there afterwards.
pub mkdir_p-known :
    (sys : System) (name : Bytes) (names : List Bytes) (q : Bytes) (w : World)
    → ((p : Bytes) → sys.permits p ≡ true)
    → All (Without b'/') (name ∷ names)
    → length (join (name ∷ names)) ≤ 1023
    → known [] w.directories ≡ true
    → known q w.directories ≡ true
    → (known (join (name ∷ names)) (mkdir_p sys (join (name ∷ names)) w).1.directories ≡ true)
      × (known q (mkdir_p sys (join (name ∷ names)) w).1.directories ≡ true)
unfolding mkdir_p
mkdir_p-known sys name names q w all h small root there =
    let path = join (name ∷ names) in
    (
      subst (λ t. known path (mkdir_front sys t w).1.directories ≡ true)
          (sym (take_all 1023 path small))
          (unfold walk in
            walk-known sys (b'/' ∷ []) name names w all h.0 h.1
              (rw (parent-append [] name h.0) root)),
      mkdir_front-known sys (take 1023 path) q w there,
    )

-- Only the directories change.
abbrev pub OnlyDirectories : World → World → Type 0
OnlyDirectories w v = v ≡ record w { directories = v.directories }

mkdir-only : (sys : System) (p : Bytes) (w : World) → OnlyDirectories w (mkdir sys p w).1
unfolding mkdir
mkdir-only sys p w =
    go (sys.permits p && (known (parent p) w.directories && not (known p w.directories)))
  where
    go :
        (b : Bool)
        → OnlyDirectories w
            (if◌then◌else◌ {A = Bool × World} b
              (true, record w { directories = p ∷ w.directories })
              (false, w)).1
    go true = refl
    go false = refl

OnlyDirectories-trans :
    (u v w : World) → OnlyDirectories u v → OnlyDirectories v w → OnlyDirectories u w
OnlyDirectories-trans u v w h k = k ∙ ap (λ (t : World). record t { directories = w.directories }) h

loop-only :
    (sys : System) (front rest : Bytes) (w : World)
    → OnlyDirectories w (mkdir_loop sys front rest w).1
unfolding mkdir_loop
loop-only sys front [] w = refl
loop-only sys front (c ∷ cs) w = elim (Bool-cases (c == b'/')) [
  | inl slash ↦ rw slash (
      OnlyDirectories-trans w (mkdir sys front w).1
        (mkdir_loop sys (front ++ (c ∷ [])) cs (mkdir sys front w).1).1 (mkdir-only sys front w)
        (loop-only sys (front ++ (c ∷ [])) cs (mkdir sys front w).1))
  | inr other ↦ rw other (loop-only sys (front ++ (c ∷ [])) cs w)
]

front-only : (sys : System) (dir : Bytes) (w : World) → OnlyDirectories w (mkdir_front sys dir w).1
unfolding mkdir_front
front-only sys [] w = mkdir-only sys [] w
front-only sys (c ∷ cs) w =
    let v = (mkdir_loop sys (c ∷ []) cs w).1 in
    OnlyDirectories-trans w v (mkdir sys (c ∷ cs) v).1 (loop-only sys (c ∷ []) cs w)
      (mkdir-only sys (c ∷ cs) v)

pub mkdir_p-only :
    (sys : System) (dir : Bytes) (w : World) → OnlyDirectories w (mkdir_p sys dir w).1
unfolding mkdir_p
mkdir_p-only sys dir w = front-only sys (take 1023 dir) w

bytes_eq-append : (d a b : Bytes) → bytes_eq (d ++ a) (d ++ b) ≡ bytes_eq a b
unfolding bytes_eq
bytes_eq-append [] a b = refl
bytes_eq-append (c ∷ d) a b = rw (==_refl c) (bytes_eq-append d a b)

-- Two files of a directory are the same if their names are, where the paths fit into the buffers.
pub path_in-bytes_eq :
    (dir a b : Bytes)
    → length dir + 1 + length a ≤ 1023
    → length dir + 1 + length b ≤ 1023
    → bytes_eq (path_in dir a) (path_in dir b) ≡ bytes_eq a b
unfolding path_in
path_in-bytes_eq dir a b h k =
    rw
      (
        take_all 1023 (dir ++ (b'/' ∷ a)) (omega (arith, length-append dir (b'/' ∷ a))),
        take_all 1023 (dir ++ (b'/' ∷ b)) (omega (arith, length-append dir (b'/' ∷ b))),
      )
      (bytes_eq-append dir (b'/' ∷ a) (b'/' ∷ b) ∙ (unfold bytes_eq in refl))

bytes_eq-Without : (a s b : Bytes) → Without b'/' a → bytes_eq a (s ++ (b'/' ∷ b)) ≡ false
unfolding bytes_eq
bytes_eq-Without [] [] b h = refl
bytes_eq-Without [] (d ∷ s) b h = refl
bytes_eq-Without (c ∷ a) [] b h = rw h.0
bytes_eq-Without (c ∷ a) (d ∷ s) b h = ground (arith, bytes_eq-Without a s b h.1)

-- A file of a directory is no file of one of its subdirectories.
pub path_in-apart :
    (dir sub a b : Bytes)
    → length dir + length sub + length a + length b + 2 ≤ 1023
    → Without b'/' a
    → bytes_eq (path_in dir a) (path_in (path_in dir sub) b) ≡ false
unfolding path_in
path_in-apart dir sub a b h free =
    let deep = dir ++ (b'/' ∷ sub) in
    let e1 = take_all 1023 (dir ++ (b'/' ∷ a)) (omega (arith, length-append dir (b'/' ∷ a))) in
    let e2 = take_all 1023 deep (omega (arith, length-append dir (b'/' ∷ sub))) in
    let e3 =
      take_all 1023 (deep ++ (b'/' ∷ b))
        (omega (arith, length-append dir (b'/' ∷ sub), length-append deep (b'/' ∷ b))) in
    rw (e1, e2, e3, append_assoc dir (b'/' ∷ sub) (b'/' ∷ b))
      (bytes_eq-append dir (b'/' ∷ a) (b'/' ∷ (sub ++ (b'/' ∷ b)))
        ∙ (unfold bytes_eq in bytes_eq-Without a sub b free))

pub length-path_in : (dir file : Bytes) → length (path_in dir file) ≤ length dir + 1 + length file
unfolding path_in
length-path_in dir file =
    omega (arith, length-take 1023 (dir ++ (b'/' ∷ file)), length-append dir (b'/' ∷ file))
