-- ===== src/Forward/Lists.antt =====
-- Facts about `unlink`, `find_forward` and `close_socket` on their lists.
use adb_termux_bridge.Base.{
  ℕ, ◌≤◌, ◌≡◌, refl, ap, ◌∙◌, subst, ◌≢◌, inl, inr, Option, none, some, List, [], ◌∷◌, map, arith,
  ◌==◌, if◌then◌else◌, ==_iff, Bool-cases, Option-cases, All, length,
}
use adb_termux_bridge.Forward.{
  Forward, Socket, close_socket, close_listen_fd, find_forward, unlink, close_all, stop,
}

abbrev pub NotIn : ℕ → List ℕ → Type 0
NotIn a [] = Unit
NotIn a (x ∷ xs) = (x ≢ a) × NotIn a xs

abbrev pub Distinct : List ℕ → Type 0
Distinct [] = Unit
Distinct (x ∷ xs) = NotIn x xs × Distinct xs

abbrev pub ids : List Forward → List ℕ
ids [] = []
ids (f ∷ fs) = f.id ∷ ids fs

abbrev cons_fd : Option ℕ → List ℕ → List ℕ
cons_fd none xs = xs
cons_fd (some x) xs = x ∷ xs

-- The listening sockets that the list owns.
abbrev pub listen_fds : List Forward → List ℕ
listen_fds [] = []
listen_fds (f ∷ fs) = cons_fd f.listen_fd (listen_fds fs)

abbrev pub socket_fds : List Socket → List ℕ
socket_fds [] = []
socket_fds (s ∷ ss) = s.fd ∷ socket_fds ss

pub NotIn-unlink : (a id : ℕ) (fs : List Forward) → NotIn a (ids fs) → NotIn a (ids (unlink id fs))
unfolding unlink
NotIn-unlink a id [] h = tt
NotIn-unlink a id (f ∷ fs) h = ground (arith, NotIn-unlink a id fs)

pub Distinct-unlink :
    (id : ℕ) (fs : List Forward) → Distinct (ids fs) → Distinct (ids (unlink id fs))
unfolding unlink
Distinct-unlink id [] h = tt
Distinct-unlink id (f ∷ fs) h = ground (arith, Distinct-unlink id fs, NotIn-unlink f.id id fs)

pub All-unlink :
    (P : Forward → Type 0) (id : ℕ) (fs : List Forward) → All P fs → All P (unlink id fs)
unfolding unlink
All-unlink P id [] h = tt
All-unlink P id (f ∷ fs) h = elim (Bool-cases (f.id == id)) [
  | inl e ↦ rw e h.1
  | inr e ↦ rw e (h.0, All-unlink P id fs h.1)
]

pub length-unlink : (id : ℕ) (fs : List Forward) → length (unlink id fs) ≤ length fs
unfolding unlink
length-unlink id [] = omega arith
length-unlink id (f ∷ fs) = ground (arith, length-unlink id fs)

pub find-NotIn : (id : ℕ) (fs : List Forward) → NotIn id (ids fs) → find_forward id fs ≡ none
unfolding find_forward
find-NotIn id [] h = refl
find-NotIn id (f ∷ fs) h = ground (arith, find-NotIn id fs)

pub NotIn-self-unlink :
    (id : ℕ) (fs : List Forward) → Distinct (ids fs) → NotIn id (ids (unlink id fs))
unfolding unlink
NotIn-self-unlink id [] h = tt
NotIn-self-unlink id (f ∷ fs) h =
    ground (arith, NotIn-self-unlink id fs, ==_iff f.id id, NotIn_eq f.id id (ids fs))
  where
    NotIn_eq : (a b : ℕ) (xs : List ℕ) → a ≡ b → NotIn a xs → NotIn b xs
    NotIn_eq a b xs e h = subst (λ c. NotIn c xs) e h

-- The others are found as before.
pub find-unlink_ne :
    (id other : ℕ) (fs : List Forward)
    → id ≢ other
    → find_forward other (unlink id fs) ≡ find_forward other fs
unfolding find_forward unlink
find-unlink_ne id other [] h = refl
find-unlink_ne id other (f ∷ fs) h = ground (arith, find-unlink_ne id other fs)

pub find-id : (id : ℕ) (fs : List Forward) (f : Forward) → find_forward id fs ≡ some f → f.id ≡ id
unfolding find_forward
find-id id [] f h = cc
find-id id (g ∷ fs) f h = ground (arith, find-id id fs f)

abbrev pub erase : ℕ → List ℕ → List ℕ
erase a [] = []
erase a (x ∷ xs) = if x == a then xs else x ∷ erase a xs

abbrev erase_fd : Option ℕ → List ℕ → List ℕ
erase_fd none xs = xs
erase_fd (some a) xs = erase a xs

socket_fds-close_socket :
    (fd : ℕ) (ss : List Socket) → socket_fds (close_socket fd ss) ≡ erase fd (socket_fds ss)
unfolding close_socket
socket_fds-close_socket fd [] = refl
socket_fds-close_socket fd (s ∷ ss) = ground (arith, socket_fds-close_socket fd ss)

socket_fds-close_listen_fd :
    (o : Option ℕ) (ss : List Socket)
    → socket_fds (close_listen_fd o ss) ≡ erase_fd o (socket_fds ss)
unfolding close_listen_fd
socket_fds-close_listen_fd none ss = refl
socket_fds-close_listen_fd (some fd) ss = socket_fds-close_socket fd ss

find_fd-ne :
    (id x y : ℕ) (fs : List Forward) (f : Forward)
    → find_forward id fs ≡ some f
    → f.listen_fd ≡ some y
    → NotIn x (listen_fds fs)
    → x ≢ y
unfolding find_forward
find_fd-ne id x y [] f h e n = cc
find_fd-ne id x y (g ∷ fs) f h e n = ground (arith, find_fd-ne id x y fs f)

unlink_fds :
    (id : ℕ) (fs : List Forward) (f : Forward)
    → find_forward id fs ≡ some f
    → Distinct (listen_fds fs)
    → erase_fd f.listen_fd (listen_fds fs) ≡ listen_fds (unlink id fs)
unfolding find_forward unlink
unlink_fds id [] f h d = cc
unlink_fds id (g ∷ fs) f h d = elim (Option-cases f.listen_fd) [
  | inl e ↦ ground (arith, unlink_fds id fs f)
  | inr (y, e) ↦ elim (Option-cases g.listen_fd) [
    | inl k ↦ ground (arith, unlink_fds id fs f)
    | inr (z, k) ↦ ground (arith, unlink_fds id fs f, find_fd-ne id z y fs f)
  ]
]

NotIn-unlink_fds :
    (x id : ℕ) (fs : List Forward) → NotIn x (listen_fds fs) → NotIn x (listen_fds (unlink id fs))
unfolding unlink
NotIn-unlink_fds x id [] h = tt
NotIn-unlink_fds x id (g ∷ fs) h = ground (arith, NotIn-unlink_fds x id fs)

pub Distinct-unlink_fds :
    (id : ℕ) (fs : List Forward) → Distinct (listen_fds fs) → Distinct (listen_fds (unlink id fs))
unfolding unlink
Distinct-unlink_fds id [] h = tt
Distinct-unlink_fds id (g ∷ fs) h = elim (Option-cases g.listen_fd) [
  | inl k ↦ ground (arith, Distinct-unlink_fds id fs)
  | inr (z, k) ↦ ground (arith, Distinct-unlink_fds id fs, NotIn-unlink_fds z id fs)
]

-- Closing the socket of the node that is unlinked leaves the sockets of the others.
pub close-unlink :
    (id : ℕ) (fs : List Forward) (ss : List Socket) (f : Forward)
    → find_forward id fs ≡ some f
    → Distinct (listen_fds fs)
    → socket_fds ss ≡ listen_fds fs
    → socket_fds (close_listen_fd f.listen_fd ss) ≡ listen_fds (unlink id fs)
close-unlink id fs ss f h d e =
    socket_fds-close_listen_fd f.listen_fd ss ∙ ap (erase_fd f.listen_fd) e ∙ unlink_fds id fs f h d

-- Closing every listed socket leaves none.
pub close_all-nil :
    (fs : List Forward) (ss : List Socket) → socket_fds ss ≡ listen_fds fs → close_all fs ss ≡ []
unfolding close_all close_listen_fd close_socket
close_all-nil [] [] e = refl
close_all-nil [] (s ∷ ss) e = cc
close_all-nil (f ∷ fs) [] e = ground (arith, close_all-nil fs [])
close_all-nil (f ∷ fs) (s ∷ ss) e = ground (arith, close_all-nil fs (s ∷ ss), close_all-nil fs ss)

pub listen_fds-stop : (fs : List Forward) → listen_fds (map stop fs) ≡ []
unfolding stop
listen_fds-stop [] = refl
listen_fds-stop (f ∷ fs) = listen_fds-stop fs

pub ids-stop : (fs : List Forward) → ids (map stop fs) ≡ ids fs
unfolding stop
ids-stop [] = refl
ids-stop (f ∷ fs) = ap (◌∷◌ f.id) (ids-stop fs)

-- The socket of the node that is unlinked belongs to no other node.
pub unlink-NotIn_fd :
    (id y : ℕ) (fs : List Forward) (f : Forward)
    → find_forward id fs ≡ some f
    → f.listen_fd ≡ some y
    → Distinct (listen_fds fs)
    → NotIn y (listen_fds (unlink id fs))
unfolding find_forward unlink
unlink-NotIn_fd id y [] f h e d = cc
unlink-NotIn_fd id y (g ∷ fs) f h e d = elim (Option-cases g.listen_fd) [
  | inl k ↦ ground (arith, unlink-NotIn_fd id y fs f)
  | inr (z, k) ↦ ground (arith, unlink-NotIn_fd id y fs f, find_fd-ne id z y fs f)
]
