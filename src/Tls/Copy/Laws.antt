-- ===== src/Tls/Copy/Laws.antt =====
-- What `tls_save_to_fingerprint_dir` of src/tls.c copies.
use adb_termux_bridge.Base.{
  ℕ, ◌+◌, ◌≤◌, ◌≡◌, refl, sym, ap, ◌∙◌, subst, inl, inr, true, false, none, some, List, [], ◌∷◌,
  arith, if◌then◌else◌, Bool-cases, Option-cases, All, length, Bytes, codes, bytes_eq, bytes_eq_iff,
  bytes_eq_refl, Without,
}
use adb_termux_bridge.Tls.{
  Certificate, Openssl, System, File, World, Object, print_out, free, touch, find_file,
}
use adb_termux_bridge.Tls.Files.{read_file, made, pem_file_to_x509-some}
use adb_termux_bridge.Tls.Writes.{touch-disk, free-disk, written, write_file_lem, chmod-written}
use adb_termux_bridge.Tls.Paths.{
  path_in, path_in-bytes_eq, path_in-apart, mkdir_p, mkdir_p-only, known, length-path_in,
}
use adb_termux_bridge.Tls.Hex.{hex_digits, length-hex_digits}
use adb_termux_bridge.Tls.Copy.{
  files, copied, copied_lem, mode_of, close_copy, copy_text, copy_opened, copy_file, copy_files,
  save_opened, tls_save_to_fingerprint_dir,
}

module _ (sys : System) (writes : (n : ℕ) (p : Bytes) → sys.can_write n p ≡ true)
    (arrive : (n : ℕ) (t : Bytes) → sys.arrives n t ≡ (t, true))
    (reads : (n : ℕ) (p : Bytes) → sys.can_read n p ≡ true) where
  copy_text-find :
      (src dst : Bytes) (mode : ℕ) (text q : Bytes) (w : World)
      → bytes_eq src dst ≡ false
      → find_file q (copy_text sys src dst mode text w).1.disk ≡ (
          if bytes_eq q dst then some (record { text = text; mode = mode }) else find_file q w.disk)
  unfolding copy_text
  copy_text-find src dst mode text q w apart =
      let whole : copied (if bytes_eq src dst then [] else text) ≡ text =
        rw apart (copied_lem text) in
      let sent : Bytes = copied (if bytes_eq src dst then [] else text) in
      subst
        (λ t. find_file q (close_copy dst mode t.0 t.1).1.disk ≡ (
          if bytes_eq q dst
          then some (record { text = text; mode = mode })
          else find_file q w.disk))
        (sym (write_file_lem sys writes arrive dst sent w))
        (subst
          (λ t. find_file q (close_copy dst mode (some true) (written sys dst t w)).1.disk ≡ (
            if bytes_eq q dst
            then some (record { text = text; mode = mode })
            else find_file q w.disk))
          (sym whole) (unfold close_copy in chmod-written sys dst text mode w q))

  copy_file-none :
      (dir dest file : Bytes) (w : World)
      → find_file (path_in dir file) w.disk ≡ none
      → (copy_file sys dir dest file w).1.disk ≡ w.disk
  unfolding copy_file copy_opened read_file
  copy_file-none dir dest file w h = rw (reads w.calls (path_in dir file), h)

  copy_file-some :
      (dir dest file q : Bytes) (g : File) (w : World)
      → bytes_eq (path_in dir file) (path_in dest file) ≡ false
      → find_file (path_in dir file) w.disk ≡ some g
      → find_file q (copy_file sys dir dest file w).1.disk ≡ (
          if bytes_eq q (path_in dest file)
          then some (record { text = g.text; mode = mode_of file })
          else find_file q w.disk)
  unfolding copy_file copy_opened read_file
  copy_file-some dir dest file q g w apart h =
      rw (reads w.calls (path_in dir file), h)
        (copy_text-find (path_in dir file) (path_in dest file) (mode_of file) g.text q
          (record w { calls = w.calls + 1 }) apart)

  module _ (dir sub f : Bytes) (g : File) (room : length dir + length sub + 22 ≤ 1023) where
    -- A name of a file, as the table has them.
    abbrev Plain : Bytes → Type 0
    Plain n = (length n ≤ 10) × Without b'/' n

    abbrev Has : World → Type 0
    Has w = find_file (path_in dir f) w.disk ≡ some g

    abbrev CopyDone : World → Type 0
    CopyDone w =
        find_file (path_in (path_in dir sub) f) w.disk
        ≡ some (record { text = g.text; mode = mode_of f })

    apart :
        (n m : Bytes)
        → Plain n
        → Plain m
        → bytes_eq (path_in dir n) (path_in (path_in dir sub) m) ≡ false
    apart n m h k = path_in-apart dir sub n m (omega arith) h.1

    same_name :
        (n m : Bytes)
        → Plain n
        → Plain m
        → bytes_eq (path_in (path_in dir sub) n) (path_in (path_in dir sub) m) ≡ bytes_eq n m
    same_name n m h k =
        let short = length-path_in dir sub in
        path_in-bytes_eq (path_in dir sub) n m (omega arith) (omega arith)

    keeps_source :
        (n : Bytes) (w : World)
        → Plain f
        → Plain n
        → Has w
        → Has (copy_file sys dir (path_in dir sub) n w).1
    keeps_source n w pf pn h = elim (Option-cases (find_file (path_in dir n) w.disk)) [
      | inl e ↦ ap (find_file (path_in dir f)) (copy_file-none dir (path_in dir sub) n w e) ∙ h
      | inr (k, e) ↦
          copy_file-some dir (path_in dir sub) n (path_in dir f) k w (apart n n pn pn) e
          ∙ rw (apart f n pf pn) h
    ]

    makes_copy :
        (w : World) → Plain f → Has w → CopyDone (copy_file sys dir (path_in dir sub) f w).1
    makes_copy w pf h =
        copy_file-some dir (path_in dir sub) f (path_in (path_in dir sub) f) g w (apart f f pf pf) h
        ∙ rw (bytes_eq_refl (path_in (path_in dir sub) f))

    keeps_copy :
        (n : Bytes) (w : World)
        → Plain f
        → Plain n
        → Has w
        → CopyDone w
        → CopyDone (copy_file sys dir (path_in dir sub) n w).1
    keeps_copy n w pf pn h d = elim (Bool-cases (bytes_eq f n)) [
      | inl e ↦
          subst (λ t. CopyDone (copy_file sys dir (path_in dir sub) t w).1) ((bytes_eq_iff f n).0 e)
            (makes_copy w pf h)
      | inr e ↦ elim (Option-cases (find_file (path_in dir n) w.disk)) [
        | inl none_there ↦
            ap (find_file (path_in (path_in dir sub) f))
              (copy_file-none dir (path_in dir sub) n w none_there)
            ∙ d
        | inr (k, there) ↦
            copy_file-some dir (path_in dir sub) n (path_in (path_in dir sub) f) k w
              (apart n n pn pn) there
            ∙ rw (same_name f n pf pn, e) d
      ]
    ]

    keeps_rest :
        (names : List Bytes) (w : World)
        → Plain f
        → All Plain names
        → Has w
        → CopyDone w
        → CopyDone (copy_files sys dir (path_in dir sub) names w).1
    unfolding copy_files
    keeps_rest [] w pf ps h d = d
    keeps_rest (n ∷ names) w pf ps h d =
        keeps_rest names _ pf ps.1 (keeps_source n w pf ps.0 h) (keeps_copy n w pf ps.0 h d)

    copy_files-CopyDone :
        (names : List Bytes) (w : World)
        → Plain f
        → All Plain names
        → known f names ≡ true
        → Has w
        → CopyDone (copy_files sys dir (path_in dir sub) names w).1
    unfolding copy_files known
    copy_files-CopyDone [] w pf ps m h = cc
    copy_files-CopyDone (n ∷ names) w pf ps m h = elim (Bool-cases (bytes_eq f n)) [
      | inl e ↦ keeps_rest names _ pf ps.1 (keeps_source n w pf ps.0 h) (
          subst (λ t. CopyDone (copy_file sys dir (path_in dir sub) t w).1) ((bytes_eq_iff f n).0 e)
            (makes_copy w pf h))
      | inr e ↦ copy_files-CopyDone names _ pf ps.1 (rw e at m) (keeps_source n w pf ps.0 h)
    ]

  files-Plain : All (λ n. (length n ≤ 10) × Without b'/' n) files
  files-Plain = ground arith

  known-All :
      (P : Bytes → Type 0) (f : Bytes) (names : List Bytes)
      → All P names
      → known f names ≡ true
      → P f
  unfolding known
  known-All P f [] h k = cc
  known-All P f (n ∷ names) h k = elim (Bool-cases (bytes_eq f n)) [
    | inl e ↦ subst P (sym ((bytes_eq_iff f n).0 e)) h.0
    | inr e ↦ known-All P f names h.1 (rw e at k)
  ]

  saved :
      (ssl : Openssl) (dir f : Bytes) (g : File) (x : Object (Certificate ssl.Public)) (v : World)
      → length dir ≤ 900
      → length (ssl.sha256 x.value) ≡ 32
      → known f files ≡ true
      → find_file (path_in dir f) v.disk ≡ some g
      → (let r = save_opened ssl sys dir (some x) v in
          (r.0 ≡ true)
          × (find_file (path_in (path_in dir (hex_digits (ssl.sha256 x.value))) f) r.1.disk
              ≡ some (record { text = g.text; mode = mode_of f })))
  unfolding save_opened
  saved ssl dir f g x v h len there source =
      let sub = hex_digits (ssl.sha256 x.value) in
      let u1 = (touch x.id v).1 in
      let u2 = (free x.id u1).1 in
      let u3 = (mkdir_p sys (path_in dir sub) u2).1 in
      let room : length dir + length sub + 22 ≤ 1023 =
        omega (arith, length-hex_digits (ssl.sha256 x.value)) in
      let same : u3.disk ≡ v.disk =
        ap (λ t. t.disk) (mkdir_p-only sys (path_in dir sub) u2)
        ∙ free-disk x.id u1
        ∙ touch-disk x.id v in
      let plain = known-All (λ n. (length n ≤ 10) × Without b'/' n) f files files-Plain there in
      (
        refl,
        (unfold print_out in
            copy_files-CopyDone dir sub f g room files u3 plain files-Plain there
              (ap (find_file (path_in dir f)) same ∙ source)),
      )

  -- The server's certificate can be read and its digest has 32 bytes, no file fails, and the path has
  -- room: each of the six files that is there is found afterwards in the directory that is named by
  -- the digest, with the same bytes, whatever their number, and with the mode for its kind.
  pub tls_save_to_fingerprint_dir-copies :
      (ssl : Openssl) (dir f : Bytes) (g s : File) (x : Certificate ssl.Public) (w : World)
      → length dir ≤ 900
      → length (ssl.sha256 x) ≡ 32
      → find_file (path_in dir (codes "server.crt")) w.disk ≡ some s
      → ssl.pem_to_cert s.text ≡ some x
      → known f files ≡ true
      → find_file (path_in dir f) w.disk ≡ some g
      → (let r = tls_save_to_fingerprint_dir ssl sys dir w in
          (r.0 ≡ true)
          × (find_file (path_in (path_in dir (hex_digits (ssl.sha256 x))) f) r.1.disk
              ≡ some (record { text = g.text; mode = mode_of f })))
  unfolding tls_save_to_fingerprint_dir
  tls_save_to_fingerprint_dir-copies ssl dir f g s x w h len server pem there source =
      let o : Object (Certificate ssl.Public) = record { id = w.next; value = x } in
      subst
        (λ t.
          ((save_opened ssl sys dir t.0 t.1).0 ≡ true)
          × (find_file (path_in (path_in dir (hex_digits (ssl.sha256 x))) f)
                (save_opened ssl sys dir t.0 t.1).1.disk
              ≡ some (record { text = g.text; mode = mode_of f })))
        (sym (
          pem_file_to_x509-some ssl sys (path_in dir (codes "server.crt")) s x w (reads _ _) server
            pem))
        (saved ssl dir f g o (made w) h len there (unfold made in source))
