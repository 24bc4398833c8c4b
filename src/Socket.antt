-- ===== src/Socket.antt =====
-- The plugin's socket: its sessions, its WebSocket server and its life (src/socket/socket.c,
-- src/socket/socket-wss.c, src/socket/socket-plugin.c).
--
-- The counter of base/ref.h is an argument, and so are the answers of the other libraries. What a
-- session does when it is closed is modelled with the sessions; here the close of one is a deed, and
-- its references to the socket are taken and given up in steps of their own.
use pomelo_udp_webrtc_plugin.Base.{
  ℕ, zero, suc, ◌+◌, Bool, true, false, not, Option, none, some, List, [], ◌∷◌, ◌++◌, ◌==◌,
  if◌then◌else◌,
}
pub mod Close
pub mod References
pub mod Holders
pub mod Executor

-- `pomelo_reference_t` of base/ref.h; `unref` says whether the finalizer is called.
pub record Counter : Type 1 where
  pub Ref : Type 0
  pub ref_init : Ref
  pub ref_ref : Ref → Ref
  pub ref_unref : Ref → Ref × Bool

-- What the socket does outside of itself.
pub data Deed : Type 0 where
  session_closed : ℕ → Deed
  client_destroyed : ℕ → Deed
  server_destroyed : ℕ → Deed
  server_closed : Option ℕ → Deed
  close_spawned : Deed
  map_set map_deleted : ℕ → Deed
  released : Deed

-- How the session pool answers: with an initialized session, or none. A session that could not be
-- initialized may keep its reference to the socket.
pub data Acquired : Type 0 where
  session : ℕ → Acquired
  no_session : Bool → Acquired

module _ (counter : Counter) where
  -- `pomelo_webrtc_socket_t`: the flags are Booleans; `deeds` has the last one at its end.
  pub record Socket : Type 0 where
    pub ref : counter.Ref
    pub active : Bool
    pub wss_active : Bool
    pub channel_modes : List ℕ
    pub sessions : List ℕ
    pub native_socket : Option ℕ
    pub ws_server : Option ℕ
    pub deeds : List Deed

  abbrev pub did : Deed → Socket → Socket
  did d s = record s { deeds = s.deeds ++ d ∷ [] }

  -- `pomelo_webrtc_socket_wss_cleanup`
  unfoldable pub wss_cleanup : Socket → Socket
  wss_cleanup s = elim s.ws_server [
    | none ↦ s
    | some server ↦ record (did (server_destroyed server) s) { ws_server = none }
  ]

  -- `pomelo_webrtc_socket_plugin_cleanup`
  unfoldable pub plugin_cleanup : Socket → Socket
  plugin_cleanup s = elim s.native_socket [
    | none ↦ s
    | some native ↦ did (map_deleted native) (record s { native_socket = none })
  ]

  -- `pomelo_webrtc_socket_cleanup`
  unfoldable pub socket_cleanup : Socket → Socket
  socket_cleanup s = record (plugin_cleanup (wss_cleanup s)) {
    sessions = [];
    channel_modes = [];
    active = false;
    wss_active = false;
    native_socket = none;
    ws_server = none;
  }

  -- `pomelo_webrtc_socket_on_finalize`; the pool calls the cleanup of what is released to it.
  unfoldable pub socket_on_finalize : Socket → Socket
  socket_on_finalize s = socket_cleanup (did released s)

  -- `pomelo_webrtc_socket_ref`
  unfoldable pub socket_ref : Socket → Socket
  socket_ref s = record s { ref = counter.ref_ref s.ref }

  -- `pomelo_webrtc_socket_unref`
  unfoldable pub socket_unref : Socket → Socket
  socket_unref s =
      let (r, last) = counter.ref_unref s.ref in
      let s1 = record s { ref = r } in if last then socket_on_finalize s1 else s1

  -- The loop of `pomelo_webrtc_socket_plugin_init` over the channels of the native socket.
  unfoldable pub append_modes : (ℕ → ℕ) → ℕ → ℕ → List ℕ → List ℕ
  append_modes mode i zero modes = modes
  append_modes mode i (suc n) modes = append_modes mode (i + 1) n (modes ++ mode i ∷ [])

  -- `pomelo_webrtc_socket_plugin_init`: `sized` is the array that `pomelo_array_ensure_size` leaves, or
  -- `none` for an error, and `mapped` says whether the map took the socket.
  unfoldable pub plugin_init : ℕ → ℕ → (ℕ → ℕ) → Option (List ℕ) → Bool → Socket → Socket × Bool
  plugin_init native nchannels mode sized mapped s =
      let s1 = record s { native_socket = some native } in
      elim sized [
        | none ↦ (socket_on_finalize s1, false)
        | some modes ↦
            let s2 = record s1 { channel_modes = append_modes mode 0 nchannels modes } in
            if not mapped then (socket_on_finalize s2, false) else (did (map_set native) s2, true)
      ]

  -- `pomelo_webrtc_socket_wss_init`, given the server that the wrapper creates
  unfoldable pub wss_init : Option ℕ → Socket → Socket × Bool
  wss_init server s = elim server [
    | none ↦ (record s { ws_server = none }, false)
    | some p ↦ (socket_ref (record s { ws_server = some p; wss_active = true }), true)
  ]

  -- `pomelo_webrtc_socket_init`
  unfoldable pub socket_init :
      ℕ → ℕ → (ℕ → ℕ) → Option (List ℕ) → Bool → Option ℕ → Socket → Socket × Bool
  socket_init native nchannels mode sized mapped server s =
      let (s1, ok) =
        plugin_init native nchannels mode sized mapped (record s { ref = counter.ref_init }) in
      let (s2, ok2) = wss_init server s1 in
      if not ok
      then (s1, false)
      else if not ok2
      then (s2, false)
      else (record s2 { active = true }, true)

  -- `pomelo_webrtc_socket_wss_close`; `spawned` says whether the context took the worker task.
  unfoldable pub wss_close : Bool → Socket → Socket
  wss_close spawned s =
      if not s.wss_active
      then s
      else (let s1 = record s { wss_active = false } in
          if spawned then did close_spawned s1 else s1)

  -- The loop of `pomelo_webrtc_socket_close`: the front is taken off, and the session closed.
  unfoldable pub close_sessions : List ℕ → Socket → Socket
  close_sessions [] s = s
  close_sessions (p ∷ rest) s =
      close_sessions rest (did (session_closed p) (record s { sessions = rest }))

  -- `pomelo_webrtc_socket_close`
  unfoldable pub socket_close : Bool → Socket → Socket
  socket_close spawned s =
      if not s.active
      then s
      else socket_unref
          (wss_close spawned (close_sessions s.sessions (record s { active = false })))

  -- `pomelo_webrtc_socket_create_session`; `pushed` says whether the list took the session.
  unfoldable pub create_session : Acquired → Bool → Socket → Socket × Option ℕ
  create_session acquired pushed s = elim acquired [
    | no_session kept ↦ (if kept then socket_ref s else s, none)
    | session p ↦
        let s1 = socket_ref s in
        if pushed
        then (record s1 { sessions = s1.sessions ++ p ∷ [] }, some p)
        else (did (session_closed p) s1, none)
  ]

  -- `pomelo_webrtc_socket_wss_on_client_callback`
  unfoldable pub on_client : ℕ → Acquired → Bool → Socket → Socket
  on_client client acquired pushed s =
      if not s.wss_active
      then did (client_destroyed client) s
      else (create_session acquired pushed s).0

  -- `pomelo_webrtc_socket_wss_close_process`, on a worker thread; the event that it submits at its end is
  -- `wss_on_closed`, a step of its own.
  unfoldable pub wss_close_process : Socket → Socket
  wss_close_process s = did (server_closed s.ws_server) s

  -- `pomelo_webrtc_socket_wss_on_closed`
  unfoldable pub wss_on_closed : Socket → Socket
  wss_on_closed s = socket_unref s

  -- `pomelo_webrtc_plugin_socket_on_stopped_callback`, given the socket that the map has
  unfoldable pub on_stopped_callback : Bool → Option Socket → Option Socket
  on_stopped_callback spawned none = none
  on_stopped_callback spawned (some s) = some (socket_close spawned s)
