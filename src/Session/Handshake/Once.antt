-- ===== src/Session/Handshake/Once.antt =====
-- src/session/session.c: how often the native session is requested, in the orders in which the channels
-- open and the client's ready signal comes.
pub mod Exactly
pub mod Heard
pub mod Request
pub mod Signals
use pomelo_udp_webrtc_plugin.Base.{
  ℕ, zero, suc, ◌+◌, ◌-◌, ◌<◌, ◌≤◌, ◌^◌, ◌≡◌, ◌≢◌, ◌⊎◌, refl, sym, ap, ◌∙◌, inl, inr, Bool, true,
  false, not, ◌&&◌, Bool-cases, Option-cases, Option, none, some, List, [], ◌∷◌, u64, length, ◌==◌,
  if◌then◌else◌, arith,
}
use pomelo_udp_webrtc_plugin.Env.{Env, Call, Timer}
use pomelo_udp_webrtc_plugin.World.{
  no_flags, SessionFlags, Session, World, emit, update_session, update_flags, schedule_task,
  unschedule_task,
}
use pomelo_udp_webrtc_plugin.Session.Cleanup.{
  unschedule_timeout, session_cleanup, session_on_finalize, session_unref,
}
use pomelo_udp_webrtc_plugin.Session.Send.{ws_send_ready}
use pomelo_udp_webrtc_plugin.Session.Handshake.{
  start_ping, plugin_open, on_ready, recv_ready, on_all_channels_opened, on_channel_opened,
  is_connected,
}

-- The requests for a native session since the session object last went to its pool.
abbrev pub requests : List Call → ℕ
requests [] = 0
requests (Call.release_session ∷ l) = 0
requests (Call.submit_session_create ∷ l) = requests l + 1
requests (_ ∷ l) = requests l

abbrev pub bit : Bool → ℕ
bit true = 1
bit false = 0

-- What the handshake waits for.
pub data Signal : Type 0 where
  channel_opened ready_received : Signal

module _ (env : Env) where
  -- One of the two signals, as the plugin's thread handles it.
  unfoldable pub signal : Signal → World env → World env
  signal channel_opened w = on_channel_opened env w
  signal ready_received w = recv_ready env w

  unfoldable pub signals : List Signal → World env → World env
  signals [] w = w
  signals (e ∷ es) w = signals es (signal e w)
