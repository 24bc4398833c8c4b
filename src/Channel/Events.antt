-- ===== src/Channel/Events.antt =====
-- The callbacks of the data channels, as the plugin's thread runs them (src/channel/channel-dc.c,
-- src/channel/channel-plugin.c).
use pomelo_udp_webrtc_plugin.Base.{
  ℕ, Bool, false, not, Option, none, some, Bytes, ◌==◌, if◌then◌else◌,
}
use pomelo_udp_webrtc_plugin.Env.{Env, Call}
use pomelo_udp_webrtc_plugin.World.{World, emit, update_session}
use pomelo_udp_webrtc_plugin.Channel.{
  channel_close, channel_unref, channel_receive, channel_send_buffer,
}
use pomelo_udp_webrtc_plugin.Session.Handshake.{on_channel_opened}
use pomelo_udp_webrtc_plugin.Session.System.{process_system_message}

-- Two pointers are the same, neither being NULL.
abbrev pub same_pointer : Option ℕ → ℕ → Bool
same_pointer none q = false
same_pointer (some p) q = p == q

module _ (env : Env) where
  -- `rtc_data_channel_get_data`: the channel of a data channel, or NULL
  abbrev pub channel_of : ℕ → World env → Option ℕ
  channel_of dc w = env.pointer w.log (Call.dc_get_data dc)

  -- `pomelo_webrtc_dc_on_open_callback`
  unfoldable pub dc_on_open_callback : ℕ → World env → World env
  dc_on_open_callback dc w =
      let w1 = emit env (Call.dc_get_data dc) w in
      elim (channel_of dc w) [
        | none ↦ w1
        | some p ↦
            if same_pointer (w1.channel p).outgoing_dc dc then on_channel_opened env w1 else w1
      ]

  -- `pomelo_webrtc_session_remove_channel`
  unfoldable pub remove_channel : ℕ → World env → World env
  remove_channel p w =
      update_session env
        (λ s. record s { channels = env.pointers.set s.channels (w.channel p).index none }) w

  -- `pomelo_webrtc_dc_on_closed_callback`
  unfoldable pub dc_on_closed_callback : ℕ → World env → World env
  unfolding remove_channel
  dc_on_closed_callback dc w =
      let w1 = emit env (Call.dc_get_data dc) w in
      elim (channel_of dc w) [ none ↦ w1 | some p ↦ channel_unref env p (remove_channel p w1) ]

  -- `pomelo_webrtc_dc_on_error_callback`
  unfoldable pub dc_on_error_callback : ℕ → World env → World env
  dc_on_error_callback dc w =
      let w1 = emit env (Call.dc_get_data dc) w in
      elim (channel_of dc w) [ none ↦ w1 | some p ↦ channel_close env p w1 ]

  -- `pomelo_webrtc_channel_dc_process_message`, with the buffer and its bytes
  unfoldable pub dc_process_message : ℕ → ℕ → Bytes → ℕ → World env → World env
  dc_process_message p buffer message recv_time w =
      if not (w.channel p).dc_active
      then w
      else if not (w.channel p).dc_receive
      then w
      else if same_pointer w.session.system_channel p
      then process_system_message env message recv_time w
      else channel_receive env p buffer w

  -- `pomelo_webrtc_dc_on_message_callback`
  unfoldable pub dc_on_message_callback : ℕ → ℕ → Bytes → World env → World env
  dc_on_message_callback dc buffer message w =
      let recv_time = env.number w.log Call.hrtime in
      let w1 = emit env Call.hrtime w in
      let w2 = emit env (Call.dc_get_data dc) w1 in
      elim (channel_of dc w1) [
        | none ↦ w2
        | some p ↦
            if not (same_pointer (w2.channel p).incoming_dc dc)
            then w2
            else emit env (Call.buffer_unref buffer)
                (dc_process_message p buffer message recv_time w2)
      ]

  -- The element at the index that the host names, unless it is the system channel.
  unfoldable pub send_at : Option (Option ℕ) → ℕ → World env → World env
  send_at none buffer w = w
  send_at (some none) buffer w = w
  send_at (some (some p)) buffer w =
      if same_pointer w.session.system_channel p then w else channel_send_buffer env p buffer w

  -- `pomelo_webrtc_plugin_session_send_callback`
  unfoldable pub session_send_callback : ℕ → ℕ → World env → World env
  session_send_callback index buffer w =
      emit env (Call.buffer_unref buffer)
        (send_at (env.pointers.get w.session.channels index) buffer w)
