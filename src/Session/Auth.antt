-- ===== src/Session/Auth.antt =====
-- Authentication and the start of the negotiation (src/session/session-ws.c, src/session/session.c,
-- src/session/session-pc.c).
pub mod Accept
pub mod Untouched
pub mod Reject
pub mod Remote
pub mod Channels
pub mod Openings
use pomelo_udp_webrtc_plugin.Base.{
  ℕ, zero, suc, ◌+◌, ◌*◌, Bool, true, false, not, ◌&&◌, Option, none, some, Bytes, length, ◌==◌,
  if◌then◌else◌,
}
use pomelo_udp_webrtc_plugin.Env.{Env, Call, Mode}
use pomelo_udp_webrtc_plugin.World.{World, emit, update_session, update_flags}
use pomelo_udp_webrtc_plugin.Decimal.{ℤ, pos, negsuc}
use pomelo_udp_webrtc_plugin.Label.{system_index}
use pomelo_udp_webrtc_plugin.Message.{result_auth_failed}
use pomelo_udp_webrtc_plugin.Channel.{acquire_channel}
use pomelo_udp_webrtc_plugin.Session.Cleanup.{unschedule_timeout}
use pomelo_udp_webrtc_plugin.Session.Close.{session_close, schedule_timeout}
use pomelo_udp_webrtc_plugin.Session.Send.{ws_send_description, ws_send_auth_success}

module _ (env : Env) where
  -- One round of the loop of `pomelo_webrtc_session_create_channels`: the mode that the socket has for
  -- the index, a channel, and its place in the array. (The mode is read in range.)
  unfoldable pub create_channel : ℕ → World env → World env × Bool
  create_channel i w = elim (env.modes.get w.channel_modes i) [
    | none ↦ (emit env Call.undefined_behaviour w, false)
    | some mode ↦
        let (w1, channel) = acquire_channel env i mode w in
        elim channel [
          | none ↦ (w1, false)
          | some p ↦ (
            update_session env (λ s. record s { channels = env.pointers.set s.channels i (some p) })
                w1,
            true,
          )
        ]
  ]

  -- The loop ends at the first failure.
  unfoldable pub create_loop : ℕ → ℕ → World env → World env × Bool
  create_loop zero i w = (w, true)
  create_loop (suc rounds) i w =
      let (w1, created) = create_channel i w in
      let rest = create_loop rounds (i + 1) w1 in if created then rest else (w1, false)

  unfoldable pub create_system_channel : World env → World env × Bool
  create_system_channel w =
      let (w1, channel) = acquire_channel env system_index Mode.unreliable w in
      let w2 = update_session env (λ s. record s { system_channel = channel }) w1 in
      elim channel [ none ↦ (w2, false) | some p ↦ (w2, true) ]

  -- `pomelo_webrtc_session_create_channels`; `false` is the error.
  unfoldable pub create_channels : World env → World env × Bool
  create_channels w =
      let n = env.modes.size w.channel_modes in
      elim (env.pointers.resize w.session.channels n) [
        | none ↦ (w, false)
        | some channels ↦
            let w1 =
              update_session env (λ s. record s { channels = env.pointers.fill_zero channels }) w in
            let (w2, created) = create_loop n 0 w1 in
            let rest = create_system_channel w2 in if created then rest else (w2, false)
      ]

  -- `pomelo_webrtc_session_pc_negotiate`
  unfoldable pub pc_negotiate : World env → World env
  pc_negotiate w =
      let pc = w.session.pc in
      let w1 = emit env (Call.pc_set_local_description pc) w in
      let w2 = emit env (Call.pc_local_sdp pc) w1 in
      let w3 = emit env (Call.pc_local_type pc) w2 in
      ws_send_description env (env.text w1.log (Call.pc_local_sdp pc))
        (env.text w2.log (Call.pc_local_type pc)) w3

  -- The timeout of a negotiation is scheduled if it is positive; `1000ULL * timeout` milliseconds.
  unfoldable pub schedule_negotiation : ℤ → World env → World env × Bool
  schedule_negotiation (negsuc n) w = (w, true)
  schedule_negotiation (pos zero) w = (w, true)
  schedule_negotiation (pos (suc n)) w = schedule_timeout env (1000 * suc n) w

  -- `pomelo_webrtc_session_on_auth_result`, with the timeout of the token or NULL
  unfoldable pub on_auth_result : Option ℤ → World env → World env
  on_auth_result none w = session_close env (unschedule_timeout env w)
  on_auth_result (some timeout) w =
      let (w1, created) = create_channels (unschedule_timeout env w) in
      let (w2, scheduled) = schedule_negotiation timeout w1 in
      if not created
      then session_close env w1
      else if not scheduled
      then session_close env w2
      else pc_negotiate w2

  -- `pomelo_webrtc_session_ws_auth_result`
  unfoldable pub ws_auth_result : Option ℤ → World env → World env
  ws_auth_result none w =
      on_auth_result none (emit env (Call.ws_send w.session.ws_client result_auth_failed) w)
  ws_auth_result (some timeout) w =
      on_auth_result (some timeout)
        (ws_send_auth_success env (update_flags env (λ f. record f { ws_authenticated = true }) w))

  -- The end of `pomelo_webrtc_session_ws_recv_auth`, with the answer of the host.
  unfoldable pub auth_decoded : Option (ℤ × ℤ) → World env → World env
  auth_decoded none w = ws_auth_result none w
  auth_decoded (some (client_id, timeout)) w =
      ws_auth_result (some timeout) (update_session env (λ s. record s { client_id = client_id }) w)

  -- `pomelo_webrtc_session_ws_recv_auth`
  unfoldable pub recv_auth : Bytes → World env → World env
  recv_auth auth w =
      if not (length auth == env.token_base64_length)
        && not (length auth == env.token_base64_no_padding_length)
      then ws_auth_result none w
      else elim (env.base64_decode auth) [
        | none ↦ ws_auth_result none w
        | some token ↦
            auth_decoded (env.token_info w.log token) (emit env (Call.token_decode token) w)
      ]
