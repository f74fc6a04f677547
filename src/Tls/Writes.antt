-- ===== src/Tls/Writes.antt =====
-- Writes to files that succeed, in src/tls.c.
use adb_termux_bridge.Base.{
  ℕ, ◌+◌, ◌≡◌, ap, ◌∙◌, inl, inr, true, some, List, if◌then◌else◌, Bool-cases, Bytes, bytes_eq,
  bytes_eq_refl,
}
use adb_termux_bridge.Tls.{
  is_live, touch, free, System, File, World, find_file, put_file, find_file-put_file,
}
use adb_termux_bridge.Tls.Files.{write_file, chmod, opened_mode}

pub touch-disk : (id : ℕ) (w : World) → (touch id w).1.disk ≡ w.disk
unfolding touch
touch-disk id w = elim (Bool-cases (is_live id w.live)) [ inl h ↦ rw h | inr h ↦ rw h ]

pub free-disk : (id : ℕ) (w : World) → (free id w).1.disk ≡ w.disk
unfolding free
free-disk id w = elim (Bool-cases (is_live id w.live)) [ inl h ↦ rw h | inr h ↦ rw h ]

-- Two writes to one file.
find-put_twice :
    (q path : Bytes) (f g : File) (disk : List (Bytes × File))
    → find_file q (put_file path g (put_file path f disk))
      ≡ (if bytes_eq q path then some g else find_file q disk)
find-put_twice q path f g disk = elim (Bool-cases (bytes_eq q path)) [
  | inl h ↦ find_file-put_file q path g (put_file path f disk) ∙ rw h
  | inr h ↦
      find_file-put_file q path g (put_file path f disk)
      ∙ rw h (find_file-put_file q path f disk ∙ rw h)
]

chmod-disk :
    (path : Bytes) (mode : ℕ) (f : File) (w : World)
    → find_file path w.disk ≡ some f
    → (chmod path mode w).1.disk ≡ put_file path (record f { mode = mode }) w.disk
unfolding chmod
chmod-disk path mode f w h = rw (h, chmod)

module _ (sys : System) where
  unfoldable pub written : Bytes → Bytes → World → World
  written path text w = record w {
    calls = w.calls + 1;
    disk =
        put_file path (record { text = text; mode = opened_mode sys (find_file path w.disk) })
          w.disk;
  }

  written-twice :
      (path text : Bytes) (mode : ℕ) (u : World) (q : Bytes)
      → find_file q (put_file path (record { text = text; mode = mode }) (written path text u).disk)
        ≡ (if bytes_eq q path
            then some (record { text = text; mode = mode })
            else find_file q u.disk)
  unfolding written
  written-twice path text mode u q = find-put_twice q path _ _ u.disk

  -- A write with the `chmod` behind it.
  pub chmod-written :
      (path text : Bytes) (mode : ℕ) (u : World) (q : Bytes)
      → find_file q (chmod path mode (written path text u)).1.disk ≡ (
          if bytes_eq q path
          then some (record { text = text; mode = mode })
          else find_file q u.disk)
  chmod-written path text mode u q =
      let f : File = record { text = text; mode = opened_mode sys (find_file path u.disk) } in
      let there : find_file path (written path text u).disk ≡ some f =
        unfold written in find_file-put_file path path f u.disk ∙ rw (bytes_eq_refl path) in
      ap (find_file q) (chmod-disk path mode f (written path text u) there)
      ∙ written-twice path text mode u q

module _ (sys : System) (writes : (n : ℕ) (p : Bytes) → sys.can_write n p ≡ true)
    (arrive : (n : ℕ) (t : Bytes) → sys.arrives n t ≡ (t, true)) where
  pub write_file_lem :
      (path text : Bytes) (w : World)
      → write_file sys path text w ≡ (some true, written sys path text w)
  unfolding write_file written
  write_file_lem path text w = rw (writes w.calls path, arrive w.calls text)
