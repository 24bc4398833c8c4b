-- ===== src/Tests/Channels.antt =====
-- Runs of the theorems on the messages that go through channels.
use pomelo_udp_webrtc_plugin.Base.{true, some, List, [], ◌∷◌, codes}
use pomelo_udp_webrtc_plugin.World.{World, update_channel}
use pomelo_udp_webrtc_plugin.Channel.Receiving.{ledger}
use pomelo_udp_webrtc_plugin.Channel.Receiving.Balance.{
  Balanced, Passing, received, completed, sent, pass_all, passed, pass_all-Balanced,
}
use pomelo_udp_webrtc_plugin.Tests.Fixture.{test_env, the_world, the_channel}

-- The channel receives from the data channel 20.
abbrev receiving_world : World test_env
receiving_world =
    update_channel test_env the_channel (λ c. record c { incoming_dc = some 20; dc_receive = true })
      the_world

-- The second message comes on another data channel.
abbrev traffic : List Passing
traffic =
    received 20 31 (codes "hello")
    ∷ received 21 32 (codes "stray")
    ∷ sent 0 33
    ∷ completed the_channel 31
    ∷ []

pass_all-Balanced_example :
    Balanced
      (passed test_env 31 the_channel traffic receiving_world)
      (ledger test_env 31 the_channel receiving_world.log)
      (ledger test_env 31 the_channel (pass_all test_env traffic receiving_world).log)
pass_all-Balanced_example = pass_all-Balanced test_env 31 the_channel traffic receiving_world
