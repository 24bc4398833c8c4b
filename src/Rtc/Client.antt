-- ===== src/Rtc/Client.antt =====
-- The wrapper's data channels and WebSocket clients (src/rtc-api/rtc-data-channel.cpp,
-- rtc-ws-client.cpp): which callbacks the library gets, what is sent, and how they end.
--
-- The library's object is a number, and what is asked of it a list of requests, the last one first. An
-- answer `none` is an exception, which is logged and has no other effect; a request of an object that
-- the wrapper has no more is `through_null`.
use pomelo_udp_webrtc_plugin.Base.{
  ℕ, Bool, false, Option, none, some, List, ◌∷◌, Bytes, if◌then◌else◌,
}
use pomelo_udp_webrtc_plugin.Rtc.Buffer.{Buffer, data_of}

pub data LibraryRequest : Type 0 where
  on_open on_closed on_error on_message : LibraryRequest
  request_close force_close reset_callbacks through_null : LibraryRequest
  send_text send_binary : Bytes → LibraryRequest

-- The callbacks of `rtc_options_t` for data channels, and those for WebSocket clients
pub record Handlers : Type 0 where
  pub open_callback : Option ℕ
  pub closed_callback : Option ℕ
  pub error_callback : Option ℕ
  pub message_callback : Option ℕ

abbrev pub no_handlers : Handlers
no_handlers = record {
  open_callback = none;
  closed_callback = none;
  error_callback = none;
  message_callback = none;
}

-- `RTCDataChannel`, `RTCWSClient`
pub record Peer : Type 0 where
  pub user_data : Option ℕ
  pub library : Option ℕ
  pub handlers : Handlers
  pub label : Bytes
  pub requests : List LibraryRequest

abbrev pub request : LibraryRequest → Peer → Peer
request r p = elim p.library [
  | none ↦ record p { requests = LibraryRequest.through_null ∷ p.requests }
  | some l ↦ record p { requests = r ∷ p.requests }
]

abbrev pub register : Option ℕ → LibraryRequest → Peer → Peer
register callback r p = elim callback [ none ↦ p | some f ↦ request r p ]

-- `RTCDataChannel::init`
unfoldable pub dc_init : Handlers → ℕ → Peer → Peer
dc_init h l p = register h.message_callback on_message (
    register h.error_callback on_error (
      register h.closed_callback on_closed
        (register h.open_callback on_open (record p { library = some l; handlers = h }))))

-- `RTCWSClient::init`
unfoldable pub wsc_init : Handlers → ℕ → Peer → Peer
wsc_init h l p = register h.message_callback on_message (
    register h.error_callback on_error (
      register h.closed_callback on_closed
        (register h.open_callback on_open (record p { library = some l; handlers = h }))))

-- `RTCDataChannel::finalize`
unfoldable pub dc_finalize : Peer → Peer
dc_finalize p =
    let p1 = record p { user_data = none } in
    elim p.library [
      | none ↦ p1
      | some l ↦ record (request request_close p1) { library = none; handlers = no_handlers }
    ]

-- `RTCWSClient::finalize`; an exception of the first request leaves out the second one.
unfoldable pub wsc_finalize : Bool → Peer → Peer
wsc_finalize thrown p =
    let p1 = record p { user_data = none } in
    let p2 = request force_close p1 in
    elim p.library [
      | none ↦ p1
      | some l ↦ record (if thrown then p2 else request reset_callbacks p2) {
        library = none;
        handlers = no_handlers;
      }
    ]

-- `RTCDataChannel::close`
unfoldable pub dc_close_request : Peer → Peer
dc_close_request p = request request_close p

-- `RTCWSClient::close`
unfoldable pub wsc_close_request : Peer → Peer
wsc_close_request p = request request_close p

abbrev pub answer_or_false : Option Bool → Bool
answer_or_false none = false
answer_or_false (some b) = b

-- `RTCDataChannel::send` of bytes
unfoldable pub dc_send_bytes : Bytes → Option Bool → Peer → Peer × Bool
dc_send_bytes message answer p =
    (request (LibraryRequest.send_binary message) p, answer_or_false answer)

-- `RTCDataChannel::send` of a buffer
unfoldable pub dc_send_buffer : Buffer → Option Bool → Peer → Peer × Bool
dc_send_buffer b answer p = dc_send_bytes (data_of b) answer p

-- `RTCDataChannel::get_label`, with the library's answer
unfoldable pub get_label : Bytes → Peer → Peer × Bytes
get_label answer p = (record p { label = answer }, answer)

-- `RTCWSClient::send` of a C string
unfoldable pub wsc_send_text : Bytes → Option Bool → Peer → Peer × Bool
wsc_send_text message answer p =
    (request (LibraryRequest.send_text message) p, answer_or_false answer)

-- `RTCWSClient::send` of bytes
unfoldable pub wsc_send_bytes : Bytes → Option Bool → Peer → Peer × Bool
wsc_send_bytes message answer p =
    (request (LibraryRequest.send_binary message) p, answer_or_false answer)
