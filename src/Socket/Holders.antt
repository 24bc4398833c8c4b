-- ===== src/Socket/Holders.antt =====
-- src/socket, src/session/session.c: the life of a socket from its initialization on.
use pomelo_udp_webrtc_plugin.Base.{
  ℕ, ◌+◌, ◌≡◌, refl, sym, ◌∙◌, ap, Bool, true, false, Option, none, some, List, [], ◌==◌,
  if◌then◌else◌, arith,
}
use pomelo_udp_webrtc_plugin.Socket.{
  Counter, map_set, server_closed, Socket, plugin_init, wss_init, socket_init, socket_ref,
  wss_close_process, wss_on_closed,
}
use pomelo_udp_webrtc_plugin.Socket.Close.{Counts}
use pomelo_udp_webrtc_plugin.Socket.References.{
  fresh, submitted, lost, gone, is_open, server_holds, flag, releases, System, Step, client_came,
  session_over, stop, worked, ended, Reach, here, next, IsCounted, releases-did,
}
use pomelo_udp_webrtc_plugin.Socket.References.Invariant.{
  unref-IsCounted, did-IsCounted, client-IsCounted, stop-IsCounted,
}

after_work_holds :
    (taken_over : Bool)
    → (server_holds (if taken_over then submitted else lost) ≡ 1)
      × (is_open (if taken_over then submitted else lost) ≡ false)
after_work_holds true = (refl, refl)
after_work_holds false = (refl, refl)

module _ (counter : Counter) (counts : Counts counter) where
  Step-IsCounted :
      {s t : System counter}
      → Step counter s t
      → IsCounted counter counts s
      → IsCounted counter counts t
  unfolding wss_close_process wss_on_closed
  Step-IsCounted {s} (client_came client acquired pushed held) h =
      client-IsCounted counter counts s client acquired pushed held h
  Step-IsCounted {s} (session_over n more) h =
      unref-IsCounted counter counts s n
        (flag s.socket.active + server_holds s.server + n + s.left_behind) s.server h
        (omega (arith, more)) refl refl
  Step-IsCounted {s} (stop spawned) h = stop-IsCounted counter counts s spawned h
  Step-IsCounted {s} (worked taken_over busy) h =
      let (holds, shut) = after_work_holds taken_over in
      did-IsCounted counter counts s (server_closed s.socket.ws_server)
        (if taken_over then submitted else lost) s.sessions s.left_behind refl
        (holds ∙ sym (ap server_holds busy)) (shut ∙ sym (ap is_open busy)) refl h
  Step-IsCounted {s} (ended last) h =
      unref-IsCounted counter counts s s.sessions
        (flag s.socket.active + 0 + s.sessions + s.left_behind) gone h
        (omega (arith, ap server_holds last)) refl (sym (ap is_open last))

  Reach-IsCounted :
      {s t : System counter}
      → Reach counter s t
      → IsCounted counter counts s
      → IsCounted counter counts t
  Reach-IsCounted here h = h
  Reach-IsCounted (next r st) h = Step-IsCounted st (Reach-IsCounted r h)

  socket_init-IsCounted :
      (native nchannels : ℕ) (mode : ℕ → ℕ) (sized : Option (List ℕ)) (mapped : Bool)
      (server : Option ℕ) (s : Socket counter)
      → (socket_init counter native nchannels mode sized mapped server s).1 ≡ true
      → s.deeds ≡ []
      → IsCounted counter counts
          (fresh counter (socket_init counter native nchannels mode sized mapped server s).0)
  unfolding socket_init plugin_init wss_init socket_ref
  socket_init-IsCounted native nchannels mode (some modes) true (some p) s ok none_yet = record {
    counted =
        counts.count-ref counter.ref_init (omega (arith, counts.count-init))
        ∙ omega (arith, counts.count-init);
    released_once =
        releases-did counter counts (map_set native) s ∙ omega (arith, ap releases none_yet);
    active_open = refl;
    wss_open = refl;
  }
  socket_init-IsCounted native nchannels mode (some modes) true none s ok none_yet =
      absurd (ground (arith, ok))
  socket_init-IsCounted native nchannels mode (some modes) false server s ok none_yet =
      absurd (ground (arith, ok))
  socket_init-IsCounted native nchannels mode none mapped server s ok none_yet =
      absurd (ground (arith, ok))

  -- Where the counter of base/ref.h counts: after a socket was initialized without error, in whatever
  -- order clients come, sessions end, the host's socket stops and the close of the WebSocket server
  -- proceeds, the counter has one reference for each holder: the active socket itself, the server until
  -- its last event was handled, each session that was not released, and each reference that a session
  -- kept whose initialization failed. The socket goes back to its pool once as soon as no holder is
  -- left, and not before. A server the close of which was not taken by the context is still a holder.
  pub Reach-holders :
      (native nchannels : ℕ) (mode : ℕ → ℕ) (sized : Option (List ℕ)) (mapped : Bool)
      (server : Option ℕ) (s : Socket counter) {t : System counter}
      → (socket_init counter native nchannels mode sized mapped server s).1 ≡ true
      → s.deeds ≡ []
      → Reach counter
          (fresh counter (socket_init counter native nchannels mode sized mapped server s).0)
          t
      → (counts.count t.socket.ref
          ≡ flag t.socket.active + server_holds t.server + t.sessions + t.left_behind)
        × (releases t.socket.deeds ≡ (
            if flag t.socket.active + server_holds t.server + t.sessions + t.left_behind == 0
            then 1
            else 0))
  Reach-holders native nchannels mode sized mapped server s ok none_yet r =
      let h =
        Reach-IsCounted r
          (socket_init-IsCounted native nchannels mode sized mapped server s ok none_yet) in
      (h.counted, h.released_once)
