-- ===== src/Session/System.antt =====
-- Pings and pongs on the system channel (src/session/session.c).
pub mod Echo
use pomelo_udp_webrtc_plugin.Base.{ℕ, none, some, [], ◌∷◌, Bytes, ◌==◌, if◌then◌else◌}
use pomelo_udp_webrtc_plugin.Env.{Env, Call}
use pomelo_udp_webrtc_plugin.World.{World, emit}
use pomelo_udp_webrtc_plugin.Frame.{
  opcode_ping, opcode_pong, opcode_of, ping_frame, pong_frame, decode_ping, decode_pong,
}
use pomelo_udp_webrtc_plugin.Channel.{channel_send}

module _ (env : Env) where
  -- `pomelo_webrtc_channel_send` on the system channel, which asserts that there is one.
  unfoldable pub system_send : Bytes → World env → World env
  system_send bytes w = elim w.session.system_channel [
    | none ↦ emit env Call.undefined_behaviour w
    | some p ↦ channel_send env p bytes w
  ]

  -- `pomelo_webrtc_session_send_ping`: the calculator numbers the ping.
  unfoldable pub send_ping : World env → World env
  send_ping w =
      let now = env.number w.log Call.hrtime in
      let w1 = emit env Call.hrtime w in
      let sequence = env.number w1.log (Call.rtt_next_entry now) in
      system_send (ping_frame env.payload sequence) (emit env (Call.rtt_next_entry now) w1)

  -- `pomelo_webrtc_session_process_ping` with `..._send_pong`
  unfoldable pub process_ping : Bytes → World env → World env
  process_ping message w =
      let time = env.number w.log Call.socket_time in
      elim (decode_ping env.payload message) [
        | none ↦ w
        | some sequence ↦
            system_send (pong_frame env.payload sequence time) (emit env Call.socket_time w)
      ]

  -- `pomelo_webrtc_session_process_pong` with `..._recv_pong`
  unfoldable pub process_pong : Bytes → ℕ → World env → World env
  process_pong message recv_time w = elim (decode_pong env.payload message) [
    | none ↦ w
    | some sequence ↦
        let w1 = emit env (Call.rtt_find_entry sequence) w in
        elim (env.pointer w.log (Call.rtt_find_entry sequence)) [
          | none ↦ w1
          | some entry ↦ emit env (Call.rtt_submit_entry recv_time) w1
        ]
  ]

  -- `pomelo_webrtc_session_process_system_message`
  unfoldable pub process_system_message : Bytes → ℕ → World env → World env
  process_system_message [] recv_time w = w
  process_system_message (header ∷ rest) recv_time w =
      if opcode_of header == opcode_ping
      then process_ping (header ∷ rest) w
      else if opcode_of header == opcode_pong
      then process_pong (header ∷ rest) recv_time w
      else w
