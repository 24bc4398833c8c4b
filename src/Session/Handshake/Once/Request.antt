-- ===== src/Session/Handshake/Once/Request.antt =====
-- src/session/session.c: the signal that completes the handshake.
use pomelo_udp_webrtc_plugin.Base.{◌+◌, ◌<◌, ◌^◌, ◌≡◌, true, false, arith}
use pomelo_udp_webrtc_plugin.Env.{Env}
use pomelo_udp_webrtc_plugin.World.{World, update_session, update_flags}
use pomelo_udp_webrtc_plugin.Session.Send.{ws_send_ready}
use pomelo_udp_webrtc_plugin.Session.Handshake.{
  start_ping, on_ready, recv_ready, on_all_channels_opened, on_channel_opened,
}
use pomelo_udp_webrtc_plugin.Session.Handshake.Once.Signals.{u64_lem, ready_and_ping_lem}

module _ (env : Env) where
  pub last_channel :
      (w : World env)
      → w.session.opened_channels + 1 < 2 ^ 64
      → env.pointers.size w.session.channels + 1 < 2 ^ 64
      → w.session.opened_channels ≡ env.pointers.size w.session.channels
      → on_channel_opened env w
        ≡ on_all_channels_opened env
            (update_session env (λ s. record s { opened_channels = s.opened_channels + 1 }) w)
  unfolding on_channel_opened
  last_channel w fits size_fits last =
      rw
        (
          u64_lem (w.session.opened_channels + 1) fits,
          u64_lem (env.pointers.size w.session.channels + 1) size_fits,
        )
        (ground arith)

  pub on_all_channels_opened_last :
      (w : World env)
      → w.session.flags.ready_signal_received ≡ true
      → on_all_channels_opened env w
        ≡ on_ready env (
            update_flags env
              (λ f. record f { all_channels_opened = true })
              (start_ping env (ws_send_ready env w)))
  unfolding on_all_channels_opened
  on_all_channels_opened_last w ready = let same = ready_and_ping_lem env w in ground (arith, same)

  pub recv_ready_last :
      (w : World env)
      → w.session.flags.ready_signal_received ≡ false
      → w.session.flags.all_channels_opened ≡ true
      → recv_ready env w
        ≡ on_ready env (update_flags env (λ f. record f { ready_signal_received = true }) w)
  unfolding recv_ready
  recv_ready_last w first all = ground arith
