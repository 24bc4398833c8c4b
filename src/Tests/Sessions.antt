-- ===== src/Tests/Sessions.antt =====
-- Runs of the theorems on sessions and channels.
use pomelo_udp_webrtc_plugin.Base.{
  ltb, ◌&&◌, ◌++◌, ℕ, ◌+◌, ◌≡◌, ◌⊎◌, inr, refl, Bool, true, false, none, some, List, [], ◌∷◌, codes,
  arith,
}
use pomelo_udp_webrtc_plugin.Env.{Call, Mode}
use pomelo_udp_webrtc_plugin.World.{emit, World, update_flags, update_session}
use pomelo_udp_webrtc_plugin.Channel.{channel_close}
use pomelo_udp_webrtc_plugin.Channel.Events.{dc_on_closed_callback}
use pomelo_udp_webrtc_plugin.Channel.Release.{
  releases, IsReset, close_then_dc_closed, dc_closed_then_close,
}
use pomelo_udp_webrtc_plugin.Session.Cleanup.{session_cleanup}
use pomelo_udp_webrtc_plugin.Session.Close.{session_close}
use pomelo_udp_webrtc_plugin.Session.Close.Quiet.{IsQuiet, session_close-IsQuiet}
use pomelo_udp_webrtc_plugin.World.{schedule_task}
use pomelo_udp_webrtc_plugin.Session.Close.{schedule_timeout}
use pomelo_udp_webrtc_plugin.Session.Open.{ws_init, pc_init, session_init}
use pomelo_udp_webrtc_plugin.Session.References.{refs, unrefs, channel_releases, flag}
use pomelo_udp_webrtc_plugin.Session.References.Trace.{
  ended, ws_over, pc_over, run, session_references,
}
use pomelo_udp_webrtc_plugin.Session.Auth.{create_channels, recv_auth}
use pomelo_udp_webrtc_plugin.Session.Auth.Channels.{openings, opening, openings_from}
use pomelo_udp_webrtc_plugin.Session.Auth.Openings.{ChannelsLack, create_channels-openings}
use pomelo_udp_webrtc_plugin.Label.{system_index}
use pomelo_udp_webrtc_plugin.Tests.Arrays.{list_array-ArrayLaws}
use pomelo_udp_webrtc_plugin.Session.Auth.Reject.{recv_auth_rejects}
use pomelo_udp_webrtc_plugin.Session.Handshake.{on_channel_opened}
use pomelo_udp_webrtc_plugin.Session.Handshake.StalePing.{stops, late_open_leaks_ping}
use pomelo_udp_webrtc_plugin.Session.Handshake.Once.{
  requests, bit, Signal, channel_opened, ready_received, signals,
}
use pomelo_udp_webrtc_plugin.Session.Handshake.Once.Heard.{ready_among, opened_among}
use pomelo_udp_webrtc_plugin.Session.Handshake.Once.Exactly.{signals-ready_among}
use pomelo_udp_webrtc_plugin.Frame.{ping_frame}
use pomelo_udp_webrtc_plugin.Session.System.{process_system_message}
use pomelo_udp_webrtc_plugin.Session.System.Echo.{process_system_message-ping_frame}
use pomelo_udp_webrtc_plugin.Tests.Fixture.{
  zeros, eight_payload, eight_payload-PayloadLaws, test_env, test_env-CountsChannels, the_world,
  the_channel, the_task,
}

session_close-IsQuiet_example : IsQuiet test_env (session_close test_env the_world).session
session_close-IsQuiet_example = session_close-IsQuiet test_env the_world refl

session_references_example :
    (refs
        (run test_env
          (ended ∷ ws_over ∷ pc_over ∷ [])
          (session_init test_env (some 2) (some 3) the_world).0).log
      ≡ refs (the_world).log + 2 + 0)
    × (unrefs
            (run test_env
              (ended ∷ ws_over ∷ pc_over ∷ [])
              (session_init test_env (some 2) (some 3) the_world).0).log
          + channel_releases (the_world).log
          + flag
              (run test_env
                (ended ∷ ws_over ∷ pc_over ∷ [])
                (session_init test_env (some 2) (some 3) the_world).0).session.flags.active
        ≡ unrefs (the_world).log
          + channel_releases
              (run test_env
                (ended ∷ ws_over ∷ pc_over ∷ [])
                (session_init test_env (some 2) (some 3) the_world).0).log
          + 2
          + 1)
unfolding session_init ws_init pc_init schedule_timeout schedule_task
session_references_example =
    session_references test_env (some 2) (some 3) the_world (ended ∷ ws_over ∷ pc_over ∷ []) refl

recv_auth_rejects_example :
    IsQuiet test_env (recv_auth test_env (codes "abcd") the_world).session
    × ((recv_auth test_env (codes "abcd") the_world).session.flags.ws_authenticated ≡ false)
recv_auth_rejects_example =
    recv_auth_rejects test_env (codes "abcd") the_world refl refl
      (inr (inr (codes "abcd", refl, refl)))

close_then_dc_closed_example :
    (releases the_channel (channel_close test_env the_channel the_world).log ≡ 0)
    × (releases the_channel
          (dc_on_closed_callback test_env 12 (channel_close test_env the_channel the_world)).log
        ≡ 1)
    × IsReset test_env the_channel (
        (dc_on_closed_callback test_env 12 (channel_close test_env the_channel the_world)).channel
          the_channel)
close_then_dc_closed_example =
    close_then_dc_closed test_env the_channel 12 the_world test_env-CountsChannels refl refl refl

dc_closed_then_close_example :
    (releases the_channel (dc_on_closed_callback test_env 12 the_world).log ≡ 0)
    × (releases the_channel
          (channel_close test_env the_channel (dc_on_closed_callback test_env 12 the_world)).log
        ≡ 1)
    × IsReset test_env the_channel (
        (channel_close test_env the_channel (dc_on_closed_callback test_env 12 the_world)).channel
          the_channel)
dc_closed_then_close_example =
    dc_closed_then_close test_env the_channel 12 the_world test_env-CountsChannels refl refl refl

-- A ready message between the two channels, one that is repeated, and the system channel.
abbrev order : List Signal
order = channel_opened ∷ ready_received ∷ channel_opened ∷ ready_received ∷ channel_opened ∷ []

signals-ready_among_example :
    requests (signals test_env order the_world).log
    ≡ bit (
        ready_among order
        && ltb (test_env.pointers.size the_world.session.channels) (opened_among order))
signals-ready_among_example =
    signals-ready_among test_env (λ calls. refl) order the_world (omega arith) (omega arith) refl
      refl refl refl refl

-- All channels but the last one are open.
abbrev nearly : World test_env
nearly = update_session test_env (λ s. record s { opened_channels = 2 }) the_world

abbrev nearly_ready : World test_env
nearly_ready = update_flags test_env (λ f. record f { ready_signal_received = true }) nearly

-- The same of a session that was closed.
abbrev closed_nearly : World test_env
closed_nearly = update_flags test_env (λ f. record f { active = false; ws_active = false }) nearly

abbrev late : World test_env
late = on_channel_opened test_env closed_nearly

late_open_leaks_ping_example :
    (late.session.flags.active ≡ false)
    × (late.session.ping_task ≡ some the_task)
    × ((session_cleanup test_env late).session.ping_task ≡ none)
    × (stops the_task (session_cleanup test_env late).log ≡ stops the_task closed_nearly.log)
late_open_leaks_ping_example =
    late_open_leaks_ping test_env the_task closed_nearly refl refl refl (λ e. cc) refl
      (refl, refl, refl)

process_system_message-ping_frame_example :
    process_system_message test_env (ping_frame eight_payload 4) 70 the_world
    ≡ emit test_env
        (Call.dc_send (some 12) (127 ∷ 4 ∷ zeros 7 ++ 0 ∷ zeros 7))
        (emit test_env Call.socket_time the_world)
process_system_message-ping_frame_example =
    process_system_message-ping_frame test_env eight_payload-PayloadLaws 5 4 70 the_world
      (omega arith) refl

abbrev created : World test_env × Bool
created = create_channels test_env the_world

create_channels-openings_example :
    ((created.1 ≡ false) × ChannelsLack test_env the_world.channel_modes)
    ⊎ ((created.1 ≡ true)
        × (test_env.pointers.size created.0.session.channels ≡ 2)
        × ((p : ℕ) × (test_env.pointers.get created.0.session.channels 1 ≡ some (some p)))
        × ((q : ℕ) × (created.0.session.system_channel ≡ some q))
        × (openings created.0.log
            ≡ opening system_index Mode.unreliable
              ∷ (openings_from test_env the_world.channel_modes 0 2 ++ [])))
create_channels-openings_example =
    create_channels-openings test_env (list_array-ArrayLaws none) the_world 1 (omega arith)
