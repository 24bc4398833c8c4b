-- ===== src/Rtc/DataChannel.antt =====
-- How the wrapper makes data channels and gives back its objects (src/rtc-api/rtc-peer-connection.cpp,
-- rtc-object.cpp, and the functions of rtc-api.cpp for data channels and WebSocket clients).
--
-- The objects are handed out by a pool of another repository, so that each is an argument, `none` if there
-- is none. `thrown` says that the library throws while its callbacks are set.
use pomelo_udp_webrtc_plugin.Base.{
  ℕ, Bool, true, false, Option, none, some, List, [], ◌∷◌, Bytes, if◌then◌else◌,
}
use pomelo_udp_webrtc_plugin.Decimal.{ℤ, pos, negsuc}
use pomelo_udp_webrtc_plugin.Rtc.Buffer.{Buffer}
use pomelo_udp_webrtc_plugin.Rtc.Client.{
  Peer, Handlers, no_handlers, dc_init, dc_finalize, wsc_finalize, dc_send_bytes, dc_send_buffer,
  wsc_send_text, wsc_send_bytes,
}
use pomelo_udp_webrtc_plugin.Rtc.Server.{Creation, no_object, returned, put_back}
pub mod Lives

-- The constructors `RTCDataChannel` and `RTCWSClient`; the data is not set by them.
abbrev pub new_peer : Option ℕ → Peer
new_peer pointer = record {
  user_data = pointer;
  library = none;
  handlers = no_handlers;
  label = [];
  requests = [];
}

-- `RTCObject::set_data`
unfoldable pub set_data : Option ℕ → Peer → Peer
set_data pointer p = record p { user_data = pointer }

-- The end of `RTCPeerConnection::create_data_channel`, with the library's data channel
unfoldable pub create_data_channel :
    Handlers → Option ℕ → Bool → Option ℕ → Option Peer → Creation Peer
create_data_channel handlers pointer thrown library acquired = elim library [
  | none ↦ no_object
  | some l ↦ elim acquired [
    | none ↦ no_object
    | some p ↦
        let p1 = dc_init handlers l p in
        if thrown then put_back p1 else returned (set_data pointer p1)
  ]
]

-- `RTCPeerConnection::on_data_channel`: the data channel that the callback gets.
unfoldable pub on_data_channel : Handlers → Bool → ℕ → Option Peer → Creation Peer
on_data_channel handlers thrown library acquired = elim acquired [
  | none ↦ no_object
  | some p ↦ let p1 = dc_init handlers library p in if thrown then put_back p1 else returned p1
]

-- `rtc_data_channel_destroy`: what goes back to the pool.
unfoldable pub data_channel_destroy : Peer → Peer
data_channel_destroy p = dc_finalize p

-- `rtc_websocket_client_destroy`
unfoldable pub websocket_client_destroy : Bool → Peer → Peer
websocket_client_destroy thrown p = wsc_finalize thrown p

-- What the functions that send return: 0, or -1 for an error.
abbrev result_of : Bool → ℤ
result_of true = pos 0
result_of false = negsuc 0

-- `rtc_data_channel_send`, `rtc_data_channel_send_buffer`
unfoldable pub data_channel_send : Bytes → Option Bool → Peer → Peer × ℤ
data_channel_send message answer p =
    let (p1, ok) = dc_send_bytes message answer p in (p1, result_of ok)

unfoldable pub data_channel_send_buffer : Buffer → Option Bool → Peer → Peer × ℤ
data_channel_send_buffer buffer answer p =
    let (p1, ok) = dc_send_buffer buffer answer p in (p1, result_of ok)

-- `rtc_websocket_client_send_string`, `rtc_websocket_client_send_binary`
unfoldable pub client_send_string : Bytes → Option Bool → Peer → Peer × ℤ
client_send_string message answer p =
    let (p1, ok) = wsc_send_text message answer p in (p1, result_of ok)

unfoldable pub client_send_binary : Bytes → Option Bool → Peer → Peer × ℤ
client_send_binary message answer p =
    let (p1, ok) = wsc_send_bytes message answer p in (p1, result_of ok)
