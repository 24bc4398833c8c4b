-- ===== src/Session/Handshake/Once/Signals.antt =====
-- src/session/session.c: what the ready message and the ping leave alone.
use pomelo_udp_webrtc_plugin.Base.{ℕ, ◌<◌, ◌^◌, ◌≡◌, u64, arith}
use pomelo_udp_webrtc_plugin.Env.{Env}
use pomelo_udp_webrtc_plugin.World.{World, schedule_task}
use pomelo_udp_webrtc_plugin.Session.Send.{ws_send_ready}
use pomelo_udp_webrtc_plugin.Session.Handshake.{start_ping}
use pomelo_udp_webrtc_plugin.Session.Handshake.Once.{requests}

pub u64_lem : (n : ℕ) → n < 2 ^ 64 → u64 n ≡ n
u64_lem n h = omega arith

module _ (env : Env) where
  -- Neither the ready message nor the ping touches what the handshake looks at.
  pub ready_and_ping_lem :
      (w : World env)
      → (requests (start_ping env (ws_send_ready env w)).log ≡ requests w.log)
        × ((start_ping env (ws_send_ready env w)).session.flags ≡ w.session.flags)
        × ((start_ping env (ws_send_ready env w)).session.channels ≡ w.session.channels)
        × ((start_ping env (ws_send_ready env w)).session.opened_channels
            ≡ w.session.opened_channels)
        × ((start_ping env (ws_send_ready env w)).session.native_session ≡ w.session.native_session)
  unfolding start_ping schedule_task ws_send_ready
  ready_and_ping_lem w = ground arith
