-- ===== src/Server/Client/Laws.antt =====
-- What `handle_client` of src/server.c guarantees on every path.
use adb_termux_bridge.Base.{
  ◌≡◌, refl, ◌⊎◌, inl, inr, Bool, true, false, Option, none, some, ◌∷◌, Option-cases, ℤ, Bytes,
}
use adb_termux_bridge.Http.Headers.{is_chunked}
use adb_termux_bridge.Http.Reading.{read_until_crnlcrnl}
use adb_termux_bridge.Http.RequestLine.{Layout, RequestLine, parse_request_line}
use adb_termux_bridge.Server.Client.{
  request_buf, ssl_shutdown, released, Fate, over, replaced, unfinished, answered, Handlers, Way,
  to_upload, to_update, to_exec_pipe, to_request, ended, shut_down, other_request, dispatch, serve,
  way, handle_client,
}
use adb_termux_bridge.Ssl.{Ssl, Conn}

module _ (ssl : Ssl) (World : Type 0) (handlers : Handlers ssl.Session World)
    (layout : Layout) where
  open ssl use {Session}

  -- The connection is freed, its descriptor closed and the job freed, each once, in this order, with
  -- a shutdown in front of it or not; or the process was replaced, or a command has not ended.
  abbrev pub Released : Fate Session → Type 0
  Released replaced = Unit
  Released unfinished = Unit
  Released (over e) = (e.cleanup ≡ released) ⊎ (e.cleanup ≡ ssl_shutdown ∷ released)

  dispatch-Released :
      (to : Way) (line : RequestLine) (content_length : ℤ) (headers : Bytes) (w : World)
      (c : Conn Session)
      → Released (dispatch ssl World handlers layout to line content_length headers w c).1
  unfolding dispatch other_request answered ended shut_down
  dispatch-Released to_upload line content_length headers w c = inr refl
  dispatch-Released to_update line content_length headers w c =
      go (handlers.handle_update line.query content_length w c)
    where
      go :
          (r : World × Conn Session × Option Bool)
          → Released
              (elim r.2 as (λ _. World × Fate Session) [
                | none ↦ (r.0, replaced)
                | some true ↦ (r.0, over (shut_down ssl World handlers layout r.1))
                | some false ↦ (r.0, over (ended ssl World handlers layout r.1))
              ]).1
      go (w, c, none) = tt
      go (w, c, some true) = inr refl
      go (w, c, some false) = inl refl
  dispatch-Released to_exec_pipe line content_length headers w c =
      go (handlers.handle_exec_pipe line.query content_length (is_chunked headers) w c)
    where
      go :
          (r : World × Option (Conn Session))
          → Released
              (elim r.1 as (λ _. World × Fate Session) [
                | some done ↦ (r.0, over (shut_down ssl World handlers layout done))
                | none ↦ (r.0, unfinished)
              ]).1
      go (w, none) = tt
      go (w, some c) = inr refl
  dispatch-Released to_request line content_length headers w c = go _
    where
      go : (r : Option (Conn Session × Bool)) → Released (answered ssl World handlers layout r)
      go none = tt
      go (some (c, true)) = inr refl
      go (some (c, false)) = inr refl

  -- On every path of `handle_client`, errors included, the connection is freed, its descriptor closed
  -- and the job freed, in this order, and nothing else is done after the answer but a shutdown in
  -- front of these; the only other ends are a process that `handle_update` replaced, and a handler whose
  -- command has not ended.
  pub handle_client-Released :
      (shaken verified : Bool) (w : World) (c : Conn Session)
      → Released (handle_client ssl World handlers layout shaken verified w c).1
  unfolding handle_client serve ended
  handle_client-Released false verified w c = inl refl
  handle_client-Released true false w c = inl refl
  handle_client-Released true true w c =
      let o = read_until_crnlcrnl ssl request_buf c.session in
      elim (Option-cases o.0) [
        | inl e ↦ rw (e, handle_client) (inl refl)
        | inr (headers, e) ↦ elim (Option-cases (parse_request_line layout headers)) [
          | inl k ↦ rw (e, handle_client) (rw (k, handle_client) (inl refl))
          | inr (line, k) ↦
              rw (e, handle_client)
                (rw (k, handle_client)
                  (dispatch-Released (way line.method line.path) line _ headers w _))
        ]
      ]
