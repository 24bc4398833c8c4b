-- ===== src/Session/Send.antt =====
-- What the session sends over its WebSocket (src/session/session-ws.c).
use pomelo_udp_webrtc_plugin.Base.{not, none, some, Bytes, if◌then◌else◌}
use pomelo_udp_webrtc_plugin.Env.{Env, Call}
use pomelo_udp_webrtc_plugin.World.{World, emit}
use pomelo_udp_webrtc_plugin.StringBuffer.{Outcome, done, failed, overrun, to_binary}
use pomelo_udp_webrtc_plugin.Message.{
  opcode_description, opcode_candidate, opcode_ready, opcode_connected, compose,
  compose_auth_success,
}

module _ (env : Env) where
  -- The composed bytes are sent, and the buffer goes back to its pool.
  unfoldable pub send_composed : Outcome → World env → World env
  send_composed (done b) w =
      emit env Call.release_string_buffer
        (emit env (Call.ws_send w.session.ws_client (to_binary b)) w)
  send_composed (failed b) w =
      emit env Call.release_string_buffer
        (emit env (Call.ws_send w.session.ws_client (to_binary b)) w)
  send_composed overrun w = emit env Call.undefined_behaviour w

  -- `pomelo_webrtc_session_ws_send_description`
  unfoldable pub ws_send_description : Bytes → Bytes → World env → World env
  unfolding send_composed
  ws_send_description sdp type w =
      let w1 = emit env Call.acquire_string_buffer w in
      if not w.session.flags.ws_active then w else elim (env.string_buffer w.log) [
        | none ↦ w1
        | some b ↦ send_composed (compose (env.malloc w1.log) opcode_description type sdp b) w1
      ]

  -- `pomelo_webrtc_session_ws_send_candidate`
  unfoldable pub ws_send_candidate : Bytes → Bytes → World env → World env
  unfolding send_composed
  ws_send_candidate cand mid w =
      let w1 = emit env Call.acquire_string_buffer w in
      if not w.session.flags.ws_active then w else elim (env.string_buffer w.log) [
        | none ↦ w1
        | some b ↦ send_composed (compose (env.malloc w1.log) opcode_candidate mid cand b) w1
      ]

  -- `pomelo_webrtc_session_ws_send_ready`
  unfoldable pub ws_send_ready : World env → World env
  ws_send_ready w =
      if not w.session.flags.ws_active
      then w
      else emit env (Call.ws_send w.session.ws_client opcode_ready) w

  -- `pomelo_webrtc_session_ws_send_connected`
  unfoldable pub ws_send_connected : World env → World env
  ws_send_connected w =
      if not w.session.flags.ws_active
      then w
      else emit env (Call.ws_send w.session.ws_client opcode_connected) w

  -- `pomelo_webrtc_session_ws_send_auth_success`
  unfoldable pub ws_send_auth_success : World env → World env
  unfolding send_composed
  ws_send_auth_success w =
      let w1 = emit env Call.acquire_string_buffer w in
      let time = env.number w1.log Call.socket_time in
      let w2 = emit env Call.socket_time w1 in
      elim (env.string_buffer w.log) [
        | none ↦ w1
        | some b ↦
            send_composed (compose_auth_success (env.malloc w2.log) w.session.client_id time b) w2
      ]
