-- ===== src/Session/Open.antt =====
-- The start of a session: `pomelo_webrtc_session_init` in src/session/session.c, which the session pool
-- calls, with the initializers of its parts; and the calls of the host on an open session
-- (src/session/session-plugin.c).
use pomelo_udp_webrtc_plugin.Base.{ℕ, Bool, true, false, not, Option, none, some, if◌then◌else◌}
use pomelo_udp_webrtc_plugin.Env.{Env, Call, Mode}
use pomelo_udp_webrtc_plugin.World.{World, emit, update_session, update_flags}
use pomelo_udp_webrtc_plugin.Session.Close.{session_close, schedule_timeout}

-- `POMELO_AUTH_TIMEOUT_MS`
abbrev pub auth_timeout_ms : ℕ
auth_timeout_ms = 5000

module _ (env : Env) where
  -- `pomelo_webrtc_session_ws_init`
  unfoldable pub ws_init : Option ℕ → World env → World env
  ws_init client w = emit env Call.session_ref (
      emit env (Call.ws_set_data client) (
        update_flags env (λ f. record f { ws_active = true })
          (update_session env (λ s. record s { ws_client = client }) w)))

  -- `pomelo_webrtc_session_pc_init`
  unfoldable pub pc_init : World env → World env × Bool
  pc_init w =
      let pc = env.pointer w.log Call.pc_create in
      let w1 = update_session env (λ s. record s { pc = pc }) (emit env Call.pc_create w) in
      elim pc [
        | none ↦ (w1, false)
        | some p ↦ (
          emit env Call.session_ref (update_flags env (λ f. record f { pc_active = true }) w1),
          true,
        )
      ]

  -- `pomelo_webrtc_session_init`; `false` is an error. The plugin's part has nothing to initialize.
  unfoldable pub session_init : Option ℕ → Option ℕ → World env → World env × Bool
  session_init socket client w =
      let w1 = emit env (Call.socket_ref socket) (
        update_flags env (λ f. record f { active = true })
          (update_session env (λ s. record s { socket = socket })
            (emit env Call.session_ref_init w))) in
      let (w2, ok) = pc_init (ws_init client w1) in
      let (w3, scheduled) = schedule_timeout env auth_timeout_ms w2 in
      if not ok then (w2, false) else (w3, scheduled)

  -- `pomelo_webrtc_plugin_session_disconnect_callback`, with the session that the host keeps
  unfoldable pub session_disconnect_callback : World env → World env
  session_disconnect_callback w = session_close env w

  -- `pomelo_webrtc_channel_set_mode`, which does nothing yet
  unfoldable pub channel_set_mode : ℕ → Mode → World env → World env
  channel_set_mode p mode w = w

  -- `pomelo_webrtc_plugin_session_set_mode_callback`
  unfoldable pub session_set_mode_callback : ℕ → Mode → World env → World env
  session_set_mode_callback index mode w = elim (env.pointers.get w.session.channels index) [
    | none ↦ w
    | some none ↦ w
    | some (some p) ↦ channel_set_mode p mode w
  ]
