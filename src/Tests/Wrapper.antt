-- ===== src/Tests/Wrapper.antt =====
-- Runs of the theorems on the context of the wrapper, its clients and the bytes of messages.
use pomelo_udp_webrtc_plugin.Base.{
  List, arith, ◌≡◌, ◌⊎◌, ◌++◌, refl, Bool, true, false, some, none, [], ◌∷◌, codes, leb, ◌==◌,
  if◌then◌else◌,
}
use pomelo_udp_webrtc_plugin.Rtc.Buffer.{Buffer, ref, on_message_binary, on_message_string}
use pomelo_udp_webrtc_plugin.Rtc.Client.{Peer, send_binary, dc_send_buffer, no_handlers, wsc_init}
use pomelo_udp_webrtc_plugin.Rtc.Context.{
  LogLevel, level_number, debug, error, rtc_log_handler, handle_exception, library_message, Pool,
  pool_pc, pools, RtcContext, no_context, returned, thrown, rtc_context_create, rtc_context_destroy,
}
use pomelo_udp_webrtc_plugin.Rtc.Context.Logging.{plugin_context, plugin_context-logged}
use pomelo_udp_webrtc_plugin.Rtc.Context.Pools.{AllMade, StopsBehind, rtc_context_create_cases}
use pomelo_udp_webrtc_plugin.Rtc.DataChannel.{new_peer, websocket_client_destroy}
use pomelo_udp_webrtc_plugin.Rtc.DataChannel.Lives.{
  Lives, made, more, given, destroyed, IsSettled, lives-IsSettled,
}
use pomelo_udp_webrtc_plugin.Dispatch.Messages.{
  HostMessage, submitted, message_buffer, plugin_channel_receive, messages_pass,
}

-- A logger as it is documented.
abbrev up_to : LogLevel → LogLevel → Bool
up_to limit level = leb (level_number level) (level_number limit)

plugin_context-logged_example :
    (library_message up_to (plugin_context pools) error (codes "lost") ≡ (
      if level_number error == level_number debug
      then record { level = error; message = codes "lost" } ∷ []
      else []))
    × (handle_exception (plugin_context pools) (codes "closed")
        ≡ record { level = debug; message = codes "closed" } ∷ [])
plugin_context-logged_example =
    plugin_context-logged up_to pools error (codes "lost") (codes "closed") (λ limit level. refl)

-- There is no memory for the pool of peer connections.
abbrev some_pools : Pool → Bool
some_pools pool_pc = false
some_pools _ = true

rtc_context_create_cases_example :
    ((true ≡ false)
      × (rtc_context_create true some_pools debug (some rtc_log_handler) ≡ no_context))
    ⊎ (((c : RtcContext) × (rtc_context_create true some_pools debug (some rtc_log_handler)
            ≡ returned c)
          × AllMade some_pools pools
          × (c.made_pools ≡ rtc_context_destroy c))
        ⊎ ((gone : List Pool) × (rtc_context_create true some_pools debug (some rtc_log_handler)
              ≡ thrown gone)
            × StopsBehind some_pools gone pools))
rtc_context_create_cases_example =
    rtc_context_create_cases true some_pools debug (some rtc_log_handler)

-- The object came back to the pool with the client 4 in its field, when its `init` threw.
abbrev given_twice : Peer
given_twice = wsc_init no_handlers 5 (wsc_init no_handlers 4 (new_peer none))

abbrev freed_after_both : Peer
freed_after_both = websocket_client_destroy false given_twice

one_life : Lives 2 1 0 freed_after_both
unfolding wsc_init
one_life =
    more (more (more (made none) (given no_handlers 4)) (given no_handlers 5)) (destroyed false)

lives-IsSettled_example : IsSettled 2 1 0 freed_after_both
lives-IsSettled_example = lives-IsSettled one_life

abbrev pooled_buffer : Buffer
pooled_buffer = record {
  ref_counter = 0;
  is_binary = false;
  binary_data = [];
  string_data = codes "old";
  released = 0;
}

abbrev open_peer : Peer
open_peer = record (new_peer none) { library = some 5 }

abbrev greeting : HostMessage
greeting = record { native_session = some 9; channel_index = 1; bytes = codes "hi" }

messages_pass_example :
    ((b : Buffer) × (message_buffer (some pooled_buffer) true (codes "hi") ≡ submitted b)
      × ((dc_send_buffer b (some true) open_peer).0.requests
          ≡ send_binary (codes "hi") ∷ open_peer.requests))
    × ((b : Buffer) × (on_message_binary (some pooled_buffer) (codes "hi") ref ≡ some b)
        × (plugin_channel_receive (some 7) true (some 9) 1 b [] ≡ greeting ∷ []))
    × ((b : Buffer) × (on_message_string (some pooled_buffer) (codes "hi") ref ≡ some b)
        × (plugin_channel_receive (some 7) true (some 9) 1 b []
            ≡ record greeting { bytes = codes "hi" ++ 0 ∷ [] } ∷ []))
messages_pass_example =
    messages_pass pooled_buffer (codes "hi") 5 (some true) open_peer 7 1 (some 9) []
      (λ e. absurd (ground (arith, e))) refl
