-- ===== src/Session/System/Echo.antt =====
-- src/session/session.c: what the session does with a well-formed ping and a well-formed pong.
use pomelo_udp_webrtc_plugin.Base.{ℕ, ◌^◌, ◌<◌, ◌≡◌, ap, ◌∙◌, none, some, [], ◌∷◌, Bytes, arith}
use pomelo_udp_webrtc_plugin.Env.{Env, Call}
use pomelo_udp_webrtc_plugin.World.{World, emit}
use pomelo_udp_webrtc_plugin.Frame.{
  opcode_ping, opcode_pong, ping_frame, pong_frame, decode_ping, decode_pong,
}
use pomelo_udp_webrtc_plugin.Frame.RoundTrip.{
  PayloadLaws, HasOpcode, pong_bytes, pong_frame_lem, decode_ping-ping_frame,
  decode_pong-pong_frame,
}
use pomelo_udp_webrtc_plugin.Channel.{channel_send}
use pomelo_udp_webrtc_plugin.Session.System.{
  system_send, process_ping, process_pong, process_system_message,
}

module _ (env : Env) (laws : PayloadLaws env.payload) where
  dispatch_ping :
      (message : Bytes) (recv_time : ℕ) (w : World env)
      → HasOpcode opcode_ping message
      → process_system_message env message recv_time w ≡ process_ping env message w
  unfolding process_system_message
  dispatch_ping [] recv_time w h = absurd h
  dispatch_ping (header ∷ rest) recv_time w h = ground arith

  dispatch_pong :
      (message : Bytes) (recv_time : ℕ) (w : World env)
      → HasOpcode opcode_pong message
      → process_system_message env message recv_time w ≡ process_pong env message recv_time w
  unfolding process_system_message
  dispatch_pong [] recv_time w h = absurd h
  dispatch_pong (header ∷ rest) recv_time w h = ground arith

  system_send-pong_frame :
      (p sequence time : ℕ) (w : World env)
      → w.session.system_channel ≡ some p
      → system_send env (pong_frame env.payload sequence time) w
        ≡ emit env (Call.dc_send (w.channel p).outgoing_dc (pong_frame env.payload sequence time)) w
  unfolding system_send channel_send pong_frame
  system_send-pong_frame p sequence time w h = ground arith

  -- Where the packed integers keep to their documentation: a ping of a 64-bit sequence number, received
  -- by a session with a system channel, is answered there by the pong of the same sequence number and of
  -- the socket's time, and nothing else is done: a byte with the opcode 1 and the two sizes, less one
  -- each, in three bits, then the sequence number and then the time.
  pub process_system_message-ping_frame :
      (p sequence recv_time : ℕ) (w : World env)
      → sequence < 2 ^ 64
      → w.session.system_channel ≡ some p
      → process_system_message env (ping_frame env.payload sequence) recv_time w
        ≡ emit env
            (Call.dc_send
              (w.channel p).outgoing_dc
              (pong_bytes env.payload sequence (env.number w.log Call.socket_time)))
            (emit env Call.socket_time w)
  process_system_message-ping_frame p sequence recv_time w small h =
      let (opcode, decoded) = decode_ping-ping_frame env.payload laws sequence small in
      let time = env.number w.log Call.socket_time in
      dispatch_ping (ping_frame env.payload sequence) recv_time w opcode
      ∙ answered decoded
      ∙ system_send-pong_frame p sequence time (emit env Call.socket_time w) h
      ∙ ap
          (λ bytes.
            emit env (Call.dc_send (w.channel p).outgoing_dc bytes) (emit env Call.socket_time w))
          (pong_frame_lem env.payload laws sequence time)
    where
      answered :
          decode_ping env.payload (ping_frame env.payload sequence) ≡ some sequence
          → process_ping env (ping_frame env.payload sequence) w
            ≡ system_send env
                (pong_frame env.payload sequence (env.number w.log Call.socket_time))
                (emit env Call.socket_time w)
      answered e = unfold process_ping in ground arith

  -- Where the packed integers keep to their documentation: a pong of a 64-bit sequence number makes the
  -- session look that number up among its pings, and submit the time of receipt exactly if the number is
  -- found there.
  process_system_message-pong_frame :
      (sequence time recv_time : ℕ) (w : World env)
      → sequence < 2 ^ 64
      → process_system_message env (pong_frame env.payload sequence time) recv_time w
        ≡ elim (env.pointer w.log (Call.rtt_find_entry sequence)) [
          | none ↦ emit env (Call.rtt_find_entry sequence) w
          | some entry ↦
              emit env (Call.rtt_submit_entry recv_time) (emit env (Call.rtt_find_entry sequence) w)
        ]
  process_system_message-pong_frame sequence time recv_time w small =
      let (opcode, decoded) = decode_pong-pong_frame env.payload laws sequence time small in
      dispatch_pong (pong_frame env.payload sequence time) recv_time w opcode ∙ looked_up decoded
    where
      looked_up :
          decode_pong env.payload (pong_frame env.payload sequence time) ≡ some sequence
          → process_pong env (pong_frame env.payload sequence time) recv_time w
            ≡ elim (env.pointer w.log (Call.rtt_find_entry sequence)) [
              | none ↦ emit env (Call.rtt_find_entry sequence) w
              | some entry ↦
                  emit env
                    (Call.rtt_submit_entry recv_time)
                    (emit env (Call.rtt_find_entry sequence) w)
            ]
      looked_up e = unfold process_pong in ground arith
