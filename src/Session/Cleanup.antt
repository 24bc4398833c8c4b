-- ===== src/Session/Cleanup.antt =====
-- The end of a session: `pomelo_webrtc_session_cleanup` and `..._unref` in src/session/session.c, with
-- the cleanups of its parts. The session pool calls the cleanup when the session is released to it.
use pomelo_udp_webrtc_plugin.Base.{none, some, if◌then◌else◌}
use pomelo_udp_webrtc_plugin.Decimal.{pos}
use pomelo_udp_webrtc_plugin.Env.{Env, Call}
use pomelo_udp_webrtc_plugin.World.{no_flags, Session, World, emit, update_session, unschedule_task}

module _ (env : Env) where
  -- `pomelo_webrtc_session_ws_cleanup`
  unfoldable pub ws_cleanup : World env → World env
  ws_cleanup w = elim w.session.ws_client [
    | none ↦ w
    | some client ↦
        update_session env (λ s. record s { ws_client = none })
          (emit env (Call.ws_destroy (some client)) w)
  ]

  -- `pomelo_webrtc_session_pc_cleanup`
  unfoldable pub pc_cleanup : World env → World env
  pc_cleanup w = elim w.session.pc [
    | none ↦ w
    | some pc ↦
        update_session env (λ s. record s { pc = none }) (emit env (Call.pc_destroy (some pc)) w)
  ]

  -- `pomelo_webrtc_session_plugin_destroy_native_session`, which is also the plugin part's cleanup and
  -- its close.
  unfoldable pub destroy_native_session : World env → World env
  destroy_native_session w = elim w.session.native_session [
    | none ↦ w
    | some native ↦
        update_session env (λ s. record s { native_session = none })
          (emit env (Call.submit_session_destroy native) w)
  ]

  -- `pomelo_webrtc_session_unschedule_timeout`; the cleanup has the same lines.
  unfoldable pub unschedule_timeout : World env → World env
  unfolding unschedule_task
  unschedule_timeout w = elim w.session.task_timeout [
    | none ↦ w
    | some task ↦
        update_session env (λ s. record s { task_timeout = none }) (unschedule_task env task w)
  ]

  -- The assignments at the end of the cleanup.
  unfoldable pub reset : Session env → Session env
  reset s = record s {
    channels = env.pointers.clear s.channels;
    system_channel = none;
    flags = no_flags;
    socket = none;
    list_entry = none;
    opened_channels = 0;
    ping_task = none;
    client_id = pos 0;
  }

  unfoldable pub session_cleanup : World env → World env
  unfolding ws_cleanup pc_cleanup destroy_native_session unschedule_timeout reset
  session_cleanup w =
      let socket = w.session.socket in
      let w1 = unschedule_timeout (destroy_native_session (pc_cleanup (ws_cleanup w))) in
      emit env (Call.socket_unref socket) (emit env Call.rtt_init (update_session env reset w1))

  -- `pomelo_webrtc_session_on_finalize`
  unfoldable pub session_on_finalize : World env → World env
  session_on_finalize w = session_cleanup (emit env Call.release_session w)

  -- The counter calls the finalizer when its last reference goes.
  unfoldable pub session_unref : World env → World env
  session_unref w =
      let w1 = emit env Call.session_unref w in
      if env.succeeds w.log Call.session_unref then session_on_finalize w1 else w1
