-- ===== src/Session/Handshake.antt =====
-- From open channels to a connected session (src/session/session.c, src/session/session-plugin.c).
pub mod Once
pub mod StalePing
use pomelo_udp_webrtc_plugin.Base.{
  ℕ, zero, suc, ◌+◌, Bool, true, false, not, ◌&&◌, Option, none, some, u64, ◌==◌, if◌then◌else◌,
}
use pomelo_udp_webrtc_plugin.Env.{Env, Call, Timer}
use pomelo_udp_webrtc_plugin.World.{
  SessionFlags, World, emit, update_session, update_flags, schedule_task,
}
use pomelo_udp_webrtc_plugin.Channel.{channel_enable_receiving}
use pomelo_udp_webrtc_plugin.Session.Cleanup.{unschedule_timeout, session_unref}
use pomelo_udp_webrtc_plugin.Session.Close.{session_close}
use pomelo_udp_webrtc_plugin.Session.Send.{ws_send_ready, ws_send_connected}

abbrev pub ping_interval_ms : ℕ
ping_interval_ms = 100

-- `pomelo_webrtc_session_is_connected`: both bits of the mask are set.
abbrev pub is_connected : SessionFlags → Bool
is_connected f = f.ready_signal_received && f.all_channels_opened

module _ (env : Env) where
  -- `pomelo_webrtc_session_start_ping`
  unfoldable pub start_ping : World env → World env
  unfolding schedule_task
  start_ping w =
      let (w1, task) = schedule_task env Timer.ping_callback ping_interval_ms w in
      update_session env (λ s. record s { ping_task = task }) w1

  -- `pomelo_webrtc_session_plugin_open`: the session is referenced until the host has answered.
  unfoldable pub plugin_open : World env → World env
  plugin_open w =
      let w1 = emit env Call.session_ref w in
      let w2 = emit env Call.submit_session_create w1 in
      elim w.session.native_session [
        | some native ↦ emit env Call.undefined_behaviour w
        | none ↦ if env.succeeds w1.log Call.submit_session_create then w2 else session_unref env w2
      ]

  -- `pomelo_webrtc_session_on_ready`, with `pomelo_webrtc_session_pc_address`
  unfoldable pub on_ready : World env → World env
  on_ready w =
      let w1 = unschedule_timeout env w in
      plugin_open (emit env (Call.pc_remote_address w1.session.pc) w1)

  -- `pomelo_webrtc_session_recv_ready`
  unfoldable pub recv_ready : World env → World env
  recv_ready w =
      let w1 = update_flags env (λ f. record f { ready_signal_received = true }) w in
      if w.session.flags.ready_signal_received
      then w
      else if is_connected w1.session.flags
      then on_ready w1
      else w1

  -- `pomelo_webrtc_session_on_all_channels_opened`
  unfoldable pub on_all_channels_opened : World env → World env
  on_all_channels_opened w =
      let w1 = start_ping (ws_send_ready env w) in
      let w2 = update_flags env (λ f. record f { all_channels_opened = true }) w1 in
      if is_connected w2.session.flags then on_ready w2 else w2

  -- `pomelo_webrtc_session_on_channel_opened`: the system channel counts too.
  unfoldable pub on_channel_opened : World env → World env
  on_channel_opened w =
      let w1 =
        update_session env (λ s. record s { opened_channels = u64 (s.opened_channels + 1) }) w in
      if w1.session.opened_channels == u64 (env.pointers.size w1.session.channels + 1)
      then on_all_channels_opened w1
      else w1

  -- The loop of `pomelo_webrtc_session_on_connected`; `false` where an element is NULL, which the
  -- callee asserts that it is not.
  unfoldable pub enable_channels : ℕ → ℕ → World env → World env × Bool
  enable_channels zero i w = (w, true)
  enable_channels (suc rounds) i w = elim (env.pointers.get w.session.channels i) [
    | none ↦ (w, false)
    | some none ↦ (w, false)
    | some (some p) ↦ enable_channels rounds (i + 1) (channel_enable_receiving env p w)
  ]

  -- `pomelo_webrtc_session_on_connected`
  unfoldable pub on_connected : World env → World env
  on_connected w =
      let (w1, all_there) = enable_channels (env.pointers.size w.session.channels) 0 w in
      if not all_there
      then emit env Call.undefined_behaviour w1
      else elim w1.session.system_channel [
        | none ↦ emit env Call.undefined_behaviour w1
        | some p ↦ ws_send_connected env (channel_enable_receiving env p w1)
      ]

  -- `pomelo_webrtc_session_plugin_on_created`, with the native session or NULL
  unfoldable pub plugin_on_created : Option ℕ → World env → World env
  plugin_on_created none w = session_close env w
  plugin_on_created (some native) w = on_connected (
      emit env (Call.session_set_private native)
        (update_session env (λ s. record s { native_session = some native }) w))

  -- `pomelo_webrtc_plugin_session_create_callback`
  unfoldable pub session_create_callback : Option ℕ → World env → World env
  session_create_callback native w = session_unref env (plugin_on_created native w)
