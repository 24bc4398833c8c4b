-- ===== src/Session/Receive.antt =====
-- The callbacks of the WebSocket client and of the peer connection, as the plugin's thread runs them
-- (src/session/session-ws.c, src/session/session-pc.c).
use pomelo_udp_webrtc_plugin.Base.{ℕ, Option, none, some, Bytes, if◌then◌else◌}
use pomelo_udp_webrtc_plugin.Env.{Env, Call}
use pomelo_udp_webrtc_plugin.World.{World, emit}
use pomelo_udp_webrtc_plugin.Message.{
  Request, ignored, overread, auth, description, candidate, ready, read_unauthenticated,
  read_authenticated, copy_part,
}
use pomelo_udp_webrtc_plugin.Channel.{channel_set_incoming}
use pomelo_udp_webrtc_plugin.Session.Close.{session_close, pc_on_closed}
use pomelo_udp_webrtc_plugin.Session.Send.{ws_send_candidate}
use pomelo_udp_webrtc_plugin.Session.Handshake.{recv_ready}
use pomelo_udp_webrtc_plugin.Session.Auth.{recv_auth}

-- `rtc_peer_connection_state`, as far as the source tells them apart.
pub data PcState : Type 0 where
  connected disconnected pc_failed closed other : PcState

module _ (env : Env) where
  -- The end of the description and of the candidate handler: the part in front of the separator goes
  -- through a buffer of the pool, and both parts go to the peer connection, the copy as NULL if it failed.
  unfoldable pub remote_parts :
      (Bytes → Option Bytes → Call) → Bytes → Bytes → World env → World env
  remote_parts call first second w =
      let w1 = emit env Call.acquire_string_buffer w in
      elim (env.string_buffer w.log) [
        | none ↦ w1
        | some b ↦ elim (copy_part (env.malloc w1.log) b first) [
          | none ↦ emit env Call.undefined_behaviour w1
          | some copy ↦ emit env Call.release_string_buffer (emit env (call second copy) w1)
        ]
      ]

  unfoldable pub perform : Request → World env → World env
  unfolding remote_parts
  perform ignored w = w
  perform overread w = emit env Call.undefined_behaviour w
  perform (auth token) w = recv_auth env token w
  perform (description type sdp) w =
      remote_parts (Call.pc_set_remote_description w.session.pc) type sdp w
  perform (candidate mid cand) w =
      remote_parts (Call.pc_add_remote_candidate w.session.pc) mid cand w
  perform ready w = recv_ready env w

  -- `pomelo_webrtc_session_ws_process_message`
  unfoldable pub process_message : Bytes → World env → World env
  process_message message w =
      if w.session.flags.ws_authenticated
      then perform (read_authenticated message) w
      else perform (read_unauthenticated message) w

  -- `pomelo_webrtc_ws_on_message_callback`, for a client whose data is the session
  unfoldable pub ws_on_message_callback : ℕ → Bytes → World env → World env
  ws_on_message_callback buffer message w =
      emit env (Call.buffer_unref buffer)
        (if w.session.flags.ws_active then process_message message w else w)

  -- `pomelo_webrtc_handle_pc_on_local_candidate_callback`, with the two buffers and their texts
  unfoldable pub pc_on_local_candidate_callback : ℕ → ℕ → Bytes → Bytes → World env → World env
  pc_on_local_candidate_callback cand_buffer mid_buffer cand mid w =
      emit env (Call.buffer_unref mid_buffer) (
        emit env (Call.buffer_unref cand_buffer)
          (if w.session.flags.pc_active then ws_send_candidate env cand mid w else w))

  -- `pomelo_webrtc_pc_on_state_changed_callback`
  unfoldable pub pc_on_state_changed_callback : PcState → World env → World env
  pc_on_state_changed_callback connected w = w
  pc_on_state_changed_callback disconnected w = emit env (Call.pc_close w.session.pc) w
  pc_on_state_changed_callback pc_failed w = emit env (Call.pc_close w.session.pc) w
  pc_on_state_changed_callback closed w = pc_on_closed env w
  pc_on_state_changed_callback other w = w

  -- The element that the client's label names.
  unfoldable pub set_incoming_at : Option (Option ℕ) → ℕ → World env → World env
  set_incoming_at none dc w = w
  set_incoming_at (some none) dc w = w
  set_incoming_at (some (some p)) dc w = channel_set_incoming env p dc w

  -- `pomelo_webrtc_pc_on_data_channel_callback`, with the result of the label's parser
  unfoldable pub pc_on_data_channel_callback : Option ℕ → ℕ → World env → World env
  pc_on_data_channel_callback none dc w = session_close env w
  pc_on_data_channel_callback (some index) dc w =
      set_incoming_at (env.pointers.get w.session.channels index) dc w
