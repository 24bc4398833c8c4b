-- ===== src/Socket/References/Invariant.antt =====
-- src/socket, src/session/session.c: each step keeps the count of the holders.
use pomelo_udp_webrtc_plugin.Base.{
  ℕ, ◌+◌, ◌≤◌, ◌≡◌, inl, inr, refl, sym, ◌∙◌, ap, subst, Bool, true, false, not, ◌&&◌, Bool-cases,
  List, [], ◌∷◌, ◌++◌, ◌==◌, if◌then◌else◌, arith,
}
use pomelo_udp_webrtc_plugin.Socket.{
  Counter, Deed, session_closed, client_destroyed, close_spawned, Acquired, session, no_session,
  Socket, did, socket_ref, socket_unref, create_session, on_client,
}
use pomelo_udp_webrtc_plugin.Socket.Close.{Counts, closes, closed, closed_again, socket_close_lem}
use pomelo_udp_webrtc_plugin.Socket.References.{
  Server, serving, closing, submitted, lost, gone, is_open, server_holds, flag, releases,
  releases-append, releases-closes, taken, left, System, arrived, stopped, holders, IsCounted,
  releases-did, unref_facts,
}

-- A flag that is cleared when nothing is left, where it counts among what is left.
kept_flag : (k : ℕ) (a : Bool) → flag a ≤ k → (if k == 0 then false else a) ≡ a
kept_flag k true h = ground (arith, h)
kept_flag k false h = ground arith

serving_if : (server : Server) → is_open server ≡ true → server ≡ serving
serving_if serving h = refl
serving_if closing h = absurd (ground (arith, h))
serving_if submitted h = absurd (ground (arith, h))
serving_if lost h = absurd (ground (arith, h))
serving_if gone h = absurd (ground (arith, h))

-- What a stop makes of the server that serves.
abbrev after_stop : Bool → Server
after_stop spawned = if spawned then closing else lost

after_stop_holds : (spawned : Bool) → server_holds (after_stop spawned) ≡ 1
after_stop_holds true = refl
after_stop_holds false = refl

after_stop_closed : (spawned : Bool) → is_open (after_stop spawned) ≡ false
after_stop_closed true = refl
after_stop_closed false = refl

module _ (counter : Counter) (counts : Counts counter) where
  -- One holder less, when it gives up its reference.
  pub unref-IsCounted :
      (s : System counter) (n k : ℕ) (server : Server)
      → IsCounted counter counts s
      → holders counter counts s ≡ k + 1
      → flag s.socket.active + server_holds server + n + s.left_behind ≡ k
      → is_open server ≡ is_open s.server
      → IsCounted counter counts
          (record s { socket = socket_unref counter s.socket; server = server; sessions = n })
  unref-IsCounted s n k server h before after same =
      let (count, active, wss, once) = unref_facts counter counts s.socket k (h.counted ∙ before) in
      let held : (holders counter counts s == 0) ≡ false = ground (arith, before) in
      let none_yet : releases s.socket.deeds ≡ 0 =
        h.released_once ∙ ap (λ b. if b then 1 else 0) held in
      let equal : s.socket.wss_active ≡ s.socket.active = h.wss_open ∙ sym h.active_open in
      let active1 = active ∙ kept_flag k s.socket.active (omega (arith, after)) in
      let wss1 =
        wss
        ∙ ap (λ b. if k == 0 then false else b) equal
        ∙ kept_flag k s.socket.active (omega (arith, after)) in
      let total : flag (socket_unref counter s.socket).active
            + server_holds server
            + n
            + s.left_behind
          ≡ k =
        ap (λ b. flag b + server_holds server + n + s.left_behind) active1 ∙ after in
      record {
        counted = count ∙ sym total;
        released_once =
            once
            ∙ ap (λ r. r + (if k == 0 then 1 else 0)) none_yet
            ∙ omega arith
            ∙ ap (λ m. if m == 0 then 1 else 0) (sym total);
        active_open = active1 ∙ h.active_open ∙ sym same;
        wss_open = wss1 ∙ h.active_open ∙ sym same;
      }

  -- A step that keeps the holders and the counter, and releases nothing.
  same-IsCounted :
      (s : System counter) (socket : Socket counter) (server : Server) (n m : ℕ)
      → socket.ref ≡ s.socket.ref
      → socket.active ≡ s.socket.active
      → socket.wss_active ≡ s.socket.wss_active
      → releases socket.deeds ≡ releases s.socket.deeds
      → server_holds server ≡ server_holds s.server
      → is_open server ≡ is_open s.server
      → n + m ≡ s.sessions + s.left_behind
      → IsCounted counter counts s
      → IsCounted counter counts
          (record { socket = socket; server = server; sessions = n; left_behind = m })
  same-IsCounted s socket server n m ref active wss deeds holds open_still sum h =
      let total : flag socket.active + server_holds server + n + m ≡ holders counter counts s =
        omega (arith, ap flag active, holds, sum) in
      record {
        counted = ap counts.count ref ∙ h.counted ∙ sym total;
        released_once = deeds ∙ h.released_once ∙ ap (λ t. if t == 0 then 1 else 0) (sym total);
        active_open = active ∙ h.active_open ∙ sym open_still;
        wss_open = wss ∙ h.wss_open ∙ sym open_still;
      }

  -- One holder more, which takes a reference.
  ref-IsCounted :
      (s : System counter) (n m : ℕ) (sessions : List ℕ)
      → n + m ≡ s.sessions + s.left_behind + 1
      → 1 ≤ holders counter counts s
      → IsCounted counter counts s
      → IsCounted counter counts (record s {
        socket = record (socket_ref counter s.socket) { sessions = sessions };
        sessions = n;
        left_behind = m;
      })
  unfolding socket_ref
  ref-IsCounted s n m sessions more held h =
      let old : (holders counter counts s == 0) ≡ false = ground (arith, held) in
      let now : (flag s.socket.active + server_holds s.server + n + m == 0) ≡ false =
        ground (arith, held, more) in
      record {
        counted =
            counts.count-ref s.socket.ref (omega (arith, held, h.counted))
            ∙ omega (arith, more, h.counted);
        released_once =
            h.released_once
            ∙ ap (λ b. if b then 1 else 0) old
            ∙ sym (ap (λ b. if b then 1 else 0) now);
        active_open = h.active_open;
        wss_open = h.wss_open;
      }

  -- The close of a socket that serves.
  closed-IsCounted :
      (s : System counter) (spawned : Bool)
      → s.socket.active ≡ true
      → IsCounted counter counts s
      → IsCounted counter counts
          (record s { socket = closed counter spawned s.socket; server = after_stop spawned })
  closed-IsCounted s spawned on h =
      let serves : s.server ≡ serving = serving_if s.server (sym h.active_open ∙ on) in
      let one : server_holds s.server ≡ 1 = ap server_holds serves in
      let own : flag s.socket.active ≡ 1 = ap flag on in
      let n = server_holds s.server + s.sessions + s.left_behind in
      let (less, last) = counts.count-unref s.socket.ref n (omega (arith, h.counted, own)) in
      let extra = if s.socket.wss_active && spawned then close_spawned ∷ [] else [] in
      let old : (holders counter counts s == 0) ≡ false = ground (arith, own) in
      let now : (0 + server_holds (after_stop spawned) + s.sessions + s.left_behind == 0) ≡ false =
        ground (arith, after_stop_holds spawned) in
      let no_more : releases extra ≡ 0 = ground arith in
      record {
        counted = less ∙ omega (arith, one, after_stop_holds spawned);
        released_once =
            releases-append (s.socket.deeds ++ closes s.socket.sessions) extra
            ∙ omega (
              arith,
              releases-append s.socket.deeds (closes s.socket.sessions),
              releases-closes s.socket.sessions,
              no_more,
            )
            ∙ h.released_once
            ∙ ap (λ b. if b then 1 else 0) old
            ∙ sym (ap (λ b. if b then 1 else 0) now);
        active_open = sym (after_stop_closed spawned);
        wss_open = sym (after_stop_closed spawned);
      }

  pub stop-IsCounted :
      (s : System counter) (spawned : Bool)
      → IsCounted counter counts s
      → IsCounted counter counts (stopped counter spawned s)
  stop-IsCounted s spawned h = elim (Bool-cases s.socket.active) [
    | inl on ↦
        let serves : s.server ≡ serving = serving_if s.server (sym h.active_open ∙ on) in
        let both : (s.socket.active && s.socket.wss_active) ≡ true =
          ground (arith, on, h.wss_open ∙ ap is_open serves) in
        let shared : 2 ≤ counts.count s.socket.ref =
          omega (arith, h.counted, ap flag on, ap server_holds serves) in
        subst (IsCounted counter counts)
          (sym (
            ap
              (λ t. record s {
                socket = t;
                server =
                    if s.socket.active && s.socket.wss_active then after_stop spawned else s.server;
              })
              (socket_close_lem counter counts spawned s.socket on shared)
            ∙ ap
                (λ b. record s {
                  socket = closed counter spawned s.socket;
                  server = if b then after_stop spawned else s.server;
                })
                both))
          (closed-IsCounted s spawned on h)
    | inr off ↦
        let neither : (s.socket.active && s.socket.wss_active) ≡ false = ground (arith, off) in
        subst (IsCounted counter counts)
          (sym (
            ap
              (λ t. record s {
                socket = t;
                server =
                    if s.socket.active && s.socket.wss_active then after_stop spawned else s.server;
              })
              (closed_again counter counts spawned s.socket off)
            ∙ ap (λ b. record s { server = if b then after_stop spawned else s.server }) neither))
          h
  ]

  pub did-IsCounted :
      (s : System counter) (d : Deed) (server : Server) (n m : ℕ)
      → releases (d ∷ []) ≡ 0
      → server_holds server ≡ server_holds s.server
      → is_open server ≡ is_open s.server
      → n + m ≡ s.sessions + s.left_behind
      → IsCounted counter counts s
      → IsCounted counter counts (record {
        socket = did counter d s.socket;
        server = server;
        sessions = n;
        left_behind = m;
      })
  did-IsCounted s d server n m no_release holds open_still sum h =
      same-IsCounted s (did counter d s.socket) server n m refl refl refl
        (releases-did counter counts d s.socket ∙ omega (arith, no_release)) holds open_still sum h

  -- A client that comes while the server is active.
  admitted-IsCounted :
      (s : System counter) (acquired : Acquired) (pushed : Bool)
      → server_holds s.server ≡ 1
      → IsCounted counter counts s
      → IsCounted counter counts (record s {
        socket = (create_session counter acquired pushed s.socket).0;
        sessions = s.sessions + taken true acquired;
        left_behind = s.left_behind + left true acquired;
      })
  unfolding create_session socket_ref
  admitted-IsCounted s (session p) true held h =
      ref-IsCounted s (s.sessions + 1) (s.left_behind + 0) (s.socket.sessions ++ p ∷ [])
        (omega arith) (omega (arith, held)) h
  admitted-IsCounted s (session p) false held h =
      let s1 : System counter = record s {
        socket = socket_ref counter s.socket;
        sessions = s.sessions + 1;
        left_behind = s.left_behind + 0;
      } in
      did-IsCounted s1 (session_closed p) s.server (s.sessions + 1) (s.left_behind + 0) refl refl
        refl refl
        (ref-IsCounted s (s.sessions + 1) (s.left_behind + 0) s.socket.sessions (omega arith)
          (omega (arith, held)) h)
  admitted-IsCounted s (no_session true) pushed held h =
      ref-IsCounted s (s.sessions + 0) (s.left_behind + 1) s.socket.sessions (omega arith)
        (omega (arith, held)) h
  admitted-IsCounted s (no_session false) pushed held h =
      same-IsCounted s s.socket s.server (s.sessions + 0) (s.left_behind + 0) refl refl refl refl
        refl refl (omega arith) h

  pub client-IsCounted :
      (s : System counter) (client : ℕ) (acquired : Acquired) (pushed : Bool)
      → server_holds s.server ≡ 1
      → IsCounted counter counts s
      → IsCounted counter counts (arrived counter client acquired pushed s)
  unfolding on_client
  client-IsCounted s client acquired pushed held h =
      let came : Bool → System counter = λ w. record s {
        socket =
            if not w
            then did counter (client_destroyed client) s.socket
            else (create_session counter acquired pushed s.socket).0;
        sessions = s.sessions + taken w acquired;
        left_behind = s.left_behind + left w acquired;
      } in
      elim (Bool-cases s.socket.wss_active) [
        | inl on ↦
            subst (λ w. IsCounted counter counts (came w)) (sym on)
              (admitted-IsCounted s acquired pushed held h)
        | inr off ↦
            subst (λ w. IsCounted counter counts (came w)) (sym off)
              (did-IsCounted s (client_destroyed client) s.server
                (s.sessions + taken false acquired) (s.left_behind + left false acquired) refl refl
                refl (omega arith) h)
      ]
