-- ===== src/Session/Close.antt =====
-- Closing a session: `pomelo_webrtc_session_close` in src/session/session.c, the closes of its parts,
-- `pomelo_webrtc_socket_remove_session` in src/socket/socket.c, and what leads to a close.
pub mod Quiet
pub mod Remote
use pomelo_udp_webrtc_plugin.Base.{
  ℕ, zero, suc, ◌+◌, Bool, true, false, not, Option, none, some, if◌then◌else◌,
}
use pomelo_udp_webrtc_plugin.Env.{Env, Call, Timer}
use pomelo_udp_webrtc_plugin.World.{
  World, emit, update_session, update_flags, schedule_task, unschedule_task,
}
use pomelo_udp_webrtc_plugin.Channel.{channel_close}
use pomelo_udp_webrtc_plugin.Session.Cleanup.{
  destroy_native_session, unschedule_timeout, session_unref,
}

module _ (env : Env) where
  -- `pomelo_webrtc_session_stop_ping`
  unfoldable pub stop_ping : World env → World env
  unfolding unschedule_task
  stop_ping w = elim w.session.ping_task [
    | none ↦ w
    | some task ↦
        update_session env (λ s. record s { ping_task = none }) (unschedule_task env task w)
  ]

  -- One round of the loop over the channels: what `pomelo_array_get` gives, closed if not NULL.
  unfoldable pub close_element : Option (Option ℕ) → World env → World env
  close_element none w = w
  close_element (some none) w = w
  close_element (some (some p)) w = channel_close env p w

  -- The loop: `rounds` from index `i` on.
  unfoldable pub close_channels : ℕ → ℕ → World env → World env
  close_channels zero i w = w
  close_channels (suc rounds) i w =
      close_channels rounds (i + 1) (close_element (env.pointers.get w.session.channels i) w)

  unfoldable pub close_system_channel : World env → World env
  unfolding close_element
  close_system_channel w = close_element (some w.session.system_channel) w

  -- `pomelo_webrtc_session_ws_close`
  unfoldable pub ws_close : World env → World env
  ws_close w =
      if not w.session.flags.ws_active
      then w
      else emit env (Call.ws_close w.session.ws_client)
          (update_flags env (λ f. record f { ws_active = false }) w)

  -- `pomelo_webrtc_session_pc_close`
  unfoldable pub pc_close : World env → World env
  pc_close w =
      if not w.session.flags.pc_active
      then w
      else emit env (Call.pc_close w.session.pc)
          (update_flags env (λ f. record f { pc_active = false }) w)

  -- `pomelo_webrtc_socket_remove_session`
  unfoldable pub socket_remove_session : World env → World env
  socket_remove_session w = elim w.session.list_entry [
    | none ↦ w
    | some entry ↦
        update_session env (λ s. record s { list_entry = none })
          (emit env (Call.remove_list_entry entry) w)
  ]

  -- The session is deactivated first; `close_parts` is all that lies between that and the last unref.
  unfoldable pub close_parts : World env → World env
  close_parts w =
      let w1 = stop_ping w in
      let w2 = close_channels (env.pointers.size w1.session.channels) 0 w1 in
      let w3 = close_system_channel w2 in
      socket_remove_session (destroy_native_session env (pc_close (ws_close w3)))

  unfoldable pub session_close : World env → World env
  session_close w =
      if not w.session.flags.active
      then w
      else session_unref env (close_parts (update_flags env (λ f. record f { active = false }) w))

  -- `pomelo_webrtc_session_ws_on_closed` and `pomelo_webrtc_session_pc_on_closed`, which have the same
  -- body: the part no longer references the session.
  unfoldable pub ws_on_closed : World env → World env
  ws_on_closed w = session_unref env (session_close w)

  unfoldable pub pc_on_closed : World env → World env
  pc_on_closed w = session_unref env (session_close w)

  -- `pomelo_webrtc_session_on_timeout`
  unfoldable pub on_timeout : World env → World env
  on_timeout w = session_close (unschedule_timeout env w)

  -- `pomelo_webrtc_session_schedule_timeout`; `false` is NULL.
  unfoldable pub schedule_timeout : ℕ → World env → World env × Bool
  unfolding schedule_task
  schedule_timeout timeout_ms w =
      let (w1, task) = schedule_task env Timer.on_timeout timeout_ms w in
      let w2 = update_session env (λ s. record s { task_timeout = task }) w1 in
      elim task [ none ↦ (w2, false) | some t ↦ (w2, true) ]
