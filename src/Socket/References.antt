-- ===== src/Socket/References.antt =====
-- src/socket, src/session/session.c: who holds the socket, over all that can happen to it.
use pomelo_udp_webrtc_plugin.Base.{
  ℕ, zero, suc, ◌+◌, ◌-◌, ◌≤◌, ◌≡◌, ◌≢◌, inl, inr, refl, sym, ◌∙◌, ap, subst, Bool, true, false,
  not, ◌&&◌, Bool-cases, Option, none, some, Option-cases, List, [], ◌∷◌, ◌++◌, ◌==◌, if◌then◌else◌,
  arith,
}
use pomelo_udp_webrtc_plugin.Socket.{
  Counter, Deed, session_closed, client_destroyed, server_destroyed, server_closed, close_spawned,
  map_set, map_deleted, released, Acquired, session, no_session, Socket, did, socket_ref,
  socket_unref, socket_on_finalize, socket_cleanup, wss_cleanup, plugin_cleanup, plugin_init,
  wss_init, socket_init, socket_close, create_session, on_client, wss_close_process, wss_on_closed,
}
use pomelo_udp_webrtc_plugin.Socket.Close.{
  Counts, closes, closed, socket_unref_lem, socket_close_lem,
}
pub mod Invariant

-- Where the close of the WebSocket server stands: it serves, a worker has its close, the worker has
-- submitted its last event, or that event was handled. `lost` means that the context did not take the
-- task of one of these steps.
pub data Server : Type 0 where
  serving closing submitted lost gone : Server

abbrev pub is_open : Server → Bool
is_open serving = true
is_open _ = false

abbrev pub server_holds : Server → ℕ
server_holds gone = 0
server_holds _ = 1

abbrev pub flag : Bool → ℕ
flag true = 1
flag false = 0

abbrev pub releases : List Deed → ℕ
releases [] = 0
releases (released ∷ l) = releases l + 1
releases (_ ∷ l) = releases l

pub releases-append : (xs ys : List Deed) → releases (xs ++ ys) ≡ releases xs + releases ys
releases-append [] ys = omega arith
releases-append (session_closed p ∷ xs) ys = releases-append xs ys
releases-append (client_destroyed p ∷ xs) ys = releases-append xs ys
releases-append (server_destroyed p ∷ xs) ys = releases-append xs ys
releases-append (server_closed p ∷ xs) ys = releases-append xs ys
releases-append (close_spawned ∷ xs) ys = releases-append xs ys
releases-append (map_set p ∷ xs) ys = releases-append xs ys
releases-append (map_deleted p ∷ xs) ys = releases-append xs ys
releases-append (released ∷ xs) ys = omega (arith, releases-append xs ys)

pub releases-closes : (ps : List ℕ) → releases (closes ps) ≡ 0
releases-closes [] = refl
releases-closes (p ∷ ps) = releases-closes ps

-- What a client's arrival adds to the sessions that hold the socket, and to the references that are
-- left by sessions that could not be initialized.
abbrev pub taken : Bool → Acquired → ℕ
taken true (session p) = 1
taken _ _ = 0

abbrev pub left : Bool → Acquired → ℕ
left true (no_session true) = 1
left _ _ = 0

module _ (counter : Counter) where
  -- The socket, its server, the sessions that hold a reference, and the references left behind.
  pub record System : Type 0 where
    pub socket : Socket counter
    pub server : Server
    pub sessions : ℕ
    pub left_behind : ℕ

  -- A socket that was just initialized.
  abbrev pub fresh : Socket counter → System
  fresh socket = record { socket = socket; server = serving; sessions = 0; left_behind = 0 }

  abbrev pub arrived : ℕ → Acquired → Bool → System → System
  arrived client acquired pushed s = record s {
    socket = on_client counter client acquired pushed s.socket;
    sessions = s.sessions + taken s.socket.wss_active acquired;
    left_behind = s.left_behind + left s.socket.wss_active acquired;
  }

  abbrev pub stopped : Bool → System → System
  stopped spawned s = record s {
    socket = socket_close counter spawned s.socket;
    server =
        if s.socket.active && s.socket.wss_active
        then (if spawned then closing else lost)
        else s.server;
  }

  -- What can happen: a client comes while the server is not gone, a session gives up its reference,
  -- the host's socket stops, the worker closes the server, and the server's last event is handled.
  pub data Step (s : System) : System → Type 0 where
    client_came :
        (client : ℕ) (acquired : Acquired) (pushed : Bool)
        → server_holds s.server ≡ 1
        → Step s (arrived client acquired pushed s)
    session_over :
        (n : ℕ)
        → s.sessions ≡ suc n
        → Step s (record s { socket = socket_unref counter s.socket; sessions = n })
    stop : (spawned : Bool) → Step s (stopped spawned s)
    worked :
        (taken_over : Bool)
        → s.server ≡ closing
        → Step s (record s {
          socket = wss_close_process counter s.socket;
          server = if taken_over then submitted else lost;
        })
    ended :
        s.server ≡ submitted
        → Step s (record s { socket = wss_on_closed counter s.socket; server = gone })

  pub data Reach (s : System) : System → Type 0 where
    here : Reach s s
    next : {t u : System} → Reach s t → Step t u → Reach s u

  module _ (counts : Counts counter) where
    abbrev pub holders : System → ℕ
    holders s = flag s.socket.active + server_holds s.server + s.sessions + s.left_behind

    -- The counter has one reference for each holder, and the socket is released when none is left.
    pub record IsCounted (s : System) : Type 0 where
      pub counted : counts.count s.socket.ref ≡ holders s
      pub released_once : releases s.socket.deeds ≡ (if holders s == 0 then 1 else 0)
      pub active_open : s.socket.active ≡ is_open s.server
      pub wss_open : s.socket.wss_active ≡ is_open s.server

    pub releases-did :
        (d : Deed) (s : Socket counter)
        → releases (did counter d s).deeds ≡ releases s.deeds + releases (d ∷ [])
    releases-did d s = releases-append s.deeds (d ∷ [])

    -- The cleanups keep the counter, and release nothing.
    abbrev Keeps : Socket counter → Socket counter → Type 0
    Keeps t s = (t.ref ≡ s.ref) × (releases t.deeds ≡ releases s.deeds)

    plugin_cleanup-Keeps : (s : Socket counter) → Keeps (plugin_cleanup counter s) s
    unfolding plugin_cleanup
    plugin_cleanup-Keeps s = elim (Option-cases s.native_socket) [
      | inl no_native ↦ rw no_native (refl, refl)
      | inr (native, has_native) ↦
          rw has_native (refl, releases-did (map_deleted native) s ∙ omega arith)
    ]

    wss_cleanup-Keeps : (s : Socket counter) → Keeps (wss_cleanup counter s) s
    unfolding wss_cleanup
    wss_cleanup-Keeps s = elim (Option-cases s.ws_server) [
      | inl no_server ↦ rw no_server (refl, refl)
      | inr (server, has_server) ↦
          rw has_server (refl, releases-did (server_destroyed server) s ∙ omega arith)
    ]

    cleanup-Keeps : (s : Socket counter) → Keeps (socket_cleanup counter s) s
    unfolding socket_cleanup
    cleanup-Keeps s =
        let plugin = plugin_cleanup-Keeps (wss_cleanup counter s) in
        let wss = wss_cleanup-Keeps s in (plugin.0 ∙ wss.0, plugin.1 ∙ wss.1)

    on_finalize-cleaned :
        (s : Socket counter)
        → ((socket_on_finalize counter s).ref ≡ s.ref)
          × ((socket_on_finalize counter s).active ≡ false)
          × ((socket_on_finalize counter s).wss_active ≡ false)
          × (releases (socket_on_finalize counter s).deeds ≡ releases s.deeds + 1)
    unfolding socket_on_finalize socket_cleanup
    on_finalize-cleaned s =
        let kept = cleanup-Keeps (did counter released s) in
        (kept.0, refl, refl, kept.1 ∙ releases-did released s ∙ omega arith)

    -- One reference less.
    pub unref_facts :
        (s : Socket counter) (n : ℕ)
        → counts.count s.ref ≡ n + 1
        → (counts.count (socket_unref counter s).ref ≡ n)
          × ((socket_unref counter s).active ≡ (if n == 0 then false else s.active))
          × ((socket_unref counter s).wss_active ≡ (if n == 0 then false else s.wss_active))
          × (releases (socket_unref counter s).deeds ≡ releases s.deeds + (if n == 0 then 1 else 0))
    unfolding socket_unref
    unref_facts s n h =
        let (less, last) = counts.count-unref s.ref n h in
        elim (Bool-cases (n == 0)) [
          | inl none_left ↦
              let (ref, inactive, stopped, once) =
                on_finalize-cleaned (record s { ref = (counter.ref_unref s.ref).0 }) in
              rw (last, none_left) (ap counts.count ref ∙ less, inactive, stopped, once)
          | inr more ↦ rw (last, more) (less, refl, refl, omega arith)
        ]
