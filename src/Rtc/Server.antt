-- ===== src/Rtc/Server.antt =====
-- The wrapper's WebSocket server (src/rtc-api/rtc-ws-server.cpp, and the functions of rtc-api.cpp that
-- create, close and destroy it).
use pomelo_udp_webrtc_plugin.Base.{
  ℕ, Bool, true, false, Option, none, some, List, ◌∷◌, if◌then◌else◌,
}
use pomelo_udp_webrtc_plugin.Rtc.Client.{Peer, Handlers, wsc_init}

-- What is asked of the library's server: to call back for clients or no more, and to stop.
pub data ServerRequest : Type 0 where
  on_client_set on_client_null stop_server : ServerRequest

-- `RTCWSServer`; the requests stand with the last one first.
pub record WsServer : Type 0 where
  pub user_data : Option ℕ
  pub ws_server : Option ℕ
  pub callback : Option ℕ
  pub requests : List ServerRequest

-- `RTCWSServer::init`, given the library's server for the configuration; `false` is an exception.
unfoldable pub server_init : Option ℕ → Option ℕ → Option ℕ → WsServer → WsServer × Bool
server_init callback data_pointer library s =
    let s1 = record s { user_data = data_pointer } in
    elim library [
      | none ↦ (s1, false)
      | some l ↦
          let s2 = record s1 { ws_server = some l; callback = callback } in
          elim callback [
            | none ↦ (s2, true)
            | some f ↦ (record s2 { requests = on_client_set ∷ s2.requests }, true)
          ]
    ]

abbrev pub stopped_requests : List ServerRequest → List ServerRequest
stopped_requests l = stop_server ∷ on_client_null ∷ l

-- `RTCWSServer::close`
unfoldable pub server_close : WsServer → WsServer
server_close s = elim s.ws_server [
  | none ↦ s
  | some l ↦ record s { requests = stopped_requests s.requests }
]

-- `RTCWSServer::finalize`; an exception of the last request has no effect.
unfoldable pub server_finalize : WsServer → WsServer
server_finalize s =
    let s1 = record s { user_data = none } in
    elim s.ws_server [
      | none ↦ s1
      | some l ↦ record s1 {
        requests = stopped_requests s1.requests;
        ws_server = none;
        callback = none;
      }
    ]

-- What a creation ends with: no object, the object that is returned, or the one that goes back to the
-- pool.
pub data Creation (A : Type 0) : Type 0 where
  no_object : Creation A
  returned : A → Creation A
  put_back : A → Creation A

-- `rtc_websocket_server_create`, given the object that the pool hands out
unfoldable pub websocket_server_create :
    Option ℕ → Option ℕ → Option WsServer → Option ℕ → Creation WsServer
websocket_server_create callback data_pointer acquired library = elim acquired [
  | none ↦ no_object
  | some s ↦
      let (s1, ok) = server_init callback data_pointer library s in
      if ok then returned s1 else put_back s1
]

-- `rtc_websocket_server_destroy`: what goes back to the pool.
unfoldable pub websocket_server_destroy : WsServer → WsServer
websocket_server_destroy s = server_finalize s

-- `RTCWSServer::on_client`: the client that the callback gets; `thrown` is an
-- exception at the end of its `init`.
unfoldable pub server_on_client : Handlers → Bool → Option Peer → ℕ → Creation Peer
server_on_client handlers thrown acquired library = elim acquired [
  | none ↦ no_object
  | some p ↦ let p1 = wsc_init handlers library p in if thrown then put_back p1 else returned p1
]
