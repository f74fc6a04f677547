-- ===== src/Handler/Upload/Transfer.antt =====
-- What `handle_upload` of src/handler.c puts into the file.
use adb_termux_bridge.Base.{
  ℕ, zero, suc, ◌+◌, ◌-◌, ◌≤◌, ◌<◌, min, ◌≡◌, refl, sym, ap, ◌∙◌, ◌⊎◌, inl, inr, true, false, none,
  some, [], ◌∷◌, ◌++◌, append-nil, append_assoc, arith, ltb, leb, not-lt→ltb, ltb-false→le,
  Bool-cases, length, take, drop, length-append, length-take, length-drop, take-append-drop, ℤ, pos,
  Bytes, codes,
}
use adb_termux_bridge.Handler.Answers.{send_json}
use adb_termux_bridge.Http.Body.{CutOff}
use adb_termux_bridge.Json.{Cjson, number}
use adb_termux_bridge.Ssl.{
  Ssl, Conn, Outcome, Outcome-cases, Stopped, done, read_bytes_of_Stopped, Receives, stop, more,
}
use adb_termux_bridge.Handler.Upload.{
  size_of_long, chunk_size, query_path, FileCalls, upload_loop, handle_upload,
}

module _ (ssl : Ssl) where
  open ssl use {Session, ssl_read, read_bounds}

  -- What the loop leaves behind: `received` is all that the session handed out.
  pub record Uploads (room total : ℕ) (file : Bytes) (s : Session) (o : Bytes × Session)
      : Type 0 where
    pub received : Bytes
    pub lost : Bytes
    pub joined : o.0 ++ lost ≡ file ++ received
    pub receives : Receives ssl o.1 s received
    pub bounded : length o.0 ≤ total
    pub ends : (length o.0 ≡ total) ⊎ (CutOff ssl ⊎ ((length o.0 ≡ room) × (0 < length lost)))

  upload_loop-Stopped :
      (fuel room total : ℕ) (file : Bytes) (s : Session)
      → ltb (length file) total ≡ true
      → Stopped (ssl_read s (min (total - length file) chunk_size)).0
      → upload_loop ssl (suc fuel) room total file s
        ≡ (file, (ssl_read s (min (total - length file) chunk_size)).1)
  unfolding upload_loop
  upload_loop-Stopped fuel room total file s h k =
      rw (h, upload_loop) (go (ssl_read s (min (total - length file) chunk_size)) k)
    where
      go :
          (r : Outcome Bytes × Session)
          → Stopped r.0
          → elim r.0 as (λ _. Bytes × Session) [
            | done bs ↦ elim (leb (length bs) (room - length file)) [
              | true ↦ upload_loop ssl fuel room total (file ++ bs) r.1
              | false ↦ (file ++ take (room - length file) bs, r.1)
            ]
            | _ ↦ (file, r.1)
          ]
            ≡ (file, r.1)
      go (done bs, s) h = absurd h
      go _ h = refl

  upload_loop-full :
      (fuel room total : ℕ) (file : Bytes) (s : Session)
      → ltb (length file) total ≡ false
      → upload_loop ssl fuel room total file s ≡ (file, s)
  unfolding upload_loop
  upload_loop-full zero room total file s h = refl
  upload_loop-full (suc fuel) room total file s h = rw (h, upload_loop)

  upload_loop-more :
      (fuel room total : ℕ) (file bs : Bytes) (s : Session)
      → ltb (length file) total ≡ true
      → (ssl_read s (min (total - length file) chunk_size)).0 ≡ done bs
      → leb (length bs) (room - length file) ≡ true
      → upload_loop ssl (suc fuel) room total file s
        ≡ upload_loop ssl fuel room total
            (file ++ bs)
            (ssl_read s (min (total - length file) chunk_size)).1
  unfolding upload_loop
  upload_loop-more fuel room total file bs s h e fits =
      rw (h, upload_loop) (rw (e, upload_loop) (rw (fits, upload_loop) refl))

  upload_loop-disk_full :
      (fuel room total : ℕ) (file bs : Bytes) (s : Session)
      → ltb (length file) total ≡ true
      → (ssl_read s (min (total - length file) chunk_size)).0 ≡ done bs
      → leb (length bs) (room - length file) ≡ false
      → upload_loop ssl (suc fuel) room total file s ≡ (
        file ++ take (room - length file) bs,
        (ssl_read s (min (total - length file) chunk_size)).1,
      )
  unfolding upload_loop
  upload_loop-disk_full fuel room total file bs s h e full =
      rw (h, upload_loop) (rw (e, upload_loop) (rw (full, upload_loop) refl))

  Uploads-end :
      (room total : ℕ) (file : Bytes) (s : Session)
      → length file ≡ total
      → Uploads room total file s (file, s)
  Uploads-end room total file s e = record {
    received = [];
    lost = [];
    joined = refl;
    receives = stop refl refl;
    bounded = omega arith;
    ends = inl e;
  }

  Uploads-Stopped :
      (room total asked : ℕ) (file : Bytes) (s : Session)
      → length file ≤ total
      → Stopped (ssl_read s asked).0
      → Uploads room total file s (file, (ssl_read s asked).1)
  Uploads-Stopped room total asked file s le h = record {
    received = [];
    lost = [];
    joined = refl;
    receives =
        more asked [] (stop refl refl) (rw (read_bytes_of_Stopped (ssl_read s asked).0 h) refl);
    bounded = le;
    ends = inr (inl (record { at = s; asked = asked; stopped = h }));
  }

  Uploads-disk_full :
      (room total asked : ℕ) (file bs : Bytes) (s : Session)
      → length file ≤ room
      → length file + length bs ≤ total
      → (ssl_read s asked).0 ≡ done bs
      → room - length file < length bs
      → Uploads room total file s (file ++ take (room - length file) bs, (ssl_read s asked).1)
  Uploads-disk_full room total asked file bs s inside le e h =
      let n = room - length file in
      let kept = length-append file (take n bs) in
      record {
        received = bs;
        lost = drop n bs;
        joined =
            append_assoc file (take n bs) (drop n bs) ∙ ap (λ t. file ++ t) (take-append-drop n bs);
        receives = more asked [] (stop refl refl) (rw e (sym (append-nil bs)));
        bounded = omega (arith, kept, length-take n bs);
        ends = inr (inr (omega (arith, kept, length-take n bs), omega (arith, length-drop n bs)));
      }

  Uploads-more :
      (room total asked : ℕ) (file bs : Bytes) (s : Session) (o : Bytes × Session)
      → (ssl_read s asked).0 ≡ done bs
      → Uploads room total (file ++ bs) (ssl_read s asked).1 o
      → Uploads room total file s o
  Uploads-more room total asked file bs s o e u = record {
    received = bs ++ u.received;
    lost = u.lost;
    joined = u.joined ∙ append_assoc file bs u.received;
    receives = more asked u.received u.receives (rw e refl);
    bounded = u.bounded;
    ends = u.ends;
  }

  pub upload_loop-Uploads :
      (fuel room total : ℕ) (file : Bytes) (s : Session)
      → length file ≤ room
      → length file ≤ total
      → total ≤ length file + fuel
      → Uploads room total file s (upload_loop ssl fuel room total file s)
  upload_loop-Uploads zero room total file s inside le enough =
      rw (upload_loop-full zero room total file s (not-lt→ltb (length file) total (omega arith)))
        (Uploads-end room total file s (omega arith))
  upload_loop-Uploads (suc fuel) room total file s inside le enough =
      let asked = min (total - length file) chunk_size in
      elim (Bool-cases (ltb (length file) total)) [
        | inr at_end ↦
            rw (upload_loop-full (suc fuel) room total file s at_end) (
              Uploads-end room total file s
                (omega (arith, ltb-false→le (length file) total at_end)))
        | inl less ↦ elim (Outcome-cases (ssl_read s asked).0) [
          | inr h ↦
              rw (upload_loop-Stopped fuel room total file s less h)
                (Uploads-Stopped room total asked file s le h)
          | inl (bs, e) ↦
              let bound = read_bounds s asked bs e in
              let len = length-append file bs in
              elim (Bool-cases (leb (length bs) (room - length file))) [
                | inl fits ↦ rw (upload_loop-more fuel room total file bs s less e fits) (
                    Uploads-more room total asked file bs s _ e (
                      upload_loop-Uploads fuel room total (file ++ bs) (ssl_read s asked).1
                        (ground arith) (omega (arith, len)) (omega (arith, len))))
                | inr full ↦ rw (upload_loop-disk_full fuel room total file bs s less e full) (
                    Uploads-disk_full room total asked file bs s inside (omega arith) e
                      (ground arith))
              ]
        ]
      ]

  module _ (json : Cjson) where
    open json use {print_object}

    -- Where the query names a path that can be opened, the file under exactly that path gets what the
    -- session hands out, in order, up to the announced length; it is shorter only if a read was not
    -- positive or the disk is full. The answer is 200 with the number of bytes written.
    pub handle_upload_lem :
        (calls : FileCalls) (query path : Bytes) (content_length : ℤ) (c : Conn Session)
        → query_path query ≡ some path
        → calls.fopen_error path ≡ none
        → (file : Bytes) × (last : Session) × (handle_upload ssl json calls query content_length c
            ≡ (
              send_json ssl 200
                  (print_object ((codes "bytes_written", number (pos (length file))) ∷ []))
                  (record c { session = last }),
              some (path, file),
            ))
          × Uploads calls.disk_room (size_of_long content_length) [] c.session (file, last)
    unfolding handle_upload
    handle_upload_lem calls query path content_length c named opened =
        let total = size_of_long content_length in
        let o = upload_loop ssl total calls.disk_room total [] c.session in
        (
          o.0,
          o.1,
          rw (named, handle_upload) (rw (opened, handle_upload) refl),
          upload_loop-Uploads total calls.disk_room total [] c.session (omega arith) (omega arith)
              (omega arith),
        )
