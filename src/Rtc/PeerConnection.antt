-- ===== src/Rtc/PeerConnection.antt =====
-- A peer connection of the wrapper (src/rtc-api/rtc-peer-connection.cpp, rtc-peer-connection.hpp, and
-- the functions of rtc-api.cpp that create and destroy it).
--
-- The library's connection is a number. What its functions return is an argument, `none` for an
-- exception or an empty pointer. Exceptions that are handled are logged and have no other effect.
use pomelo_udp_webrtc_plugin.Base.{
  ℕ, ◌+◌, Bool, true, false, Option, none, some, List, [], ◌∷◌, Bytes, if◌then◌else◌,
}
use pomelo_udp_webrtc_plugin.Rtc.Buffer.{Buffer, set_string, unref, acquire}
pub mod LocalDescription
pub mod Requests

-- `rtc::Description`: its text and its type.
pub record Description : Type 0 where
  pub sdp : Bytes
  pub kind : Bytes

-- The callbacks of `rtc_options_t` for peer connections
pub record Callbacks : Type 0 where
  pub local_candidate : Option ℕ
  pub state_change : Option ℕ
  pub data_channel : Option ℕ

abbrev pub no_callbacks : Callbacks
no_callbacks = record { local_candidate = none; state_change = none; data_channel = none }

-- `RTCPeerConnection`
pub record PeerConnection : Type 0 where
  pub user_data : Option ℕ
  pub library : Option ℕ
  pub callbacks : Callbacks
  pub local_description : Option Description
  pub local_description_sdp : Bytes
  pub local_description_type : Bytes

-- The constructor
abbrev pub constructed : PeerConnection
constructed = record {
  user_data = none;
  library = none;
  callbacks = no_callbacks;
  local_description = none;
  local_description_sdp = [];
  local_description_type = [];
}

-- `RTCPeerConnection::init`, given the library's connection for the configuration; `false` is an exception.
unfoldable pub init_connection :
    Callbacks → Option ℕ → Option ℕ → PeerConnection → PeerConnection × Bool
init_connection callbacks user_data library pc =
    let pc1 = record pc { user_data = user_data; callbacks = callbacks } in
    elim library [ none ↦ (pc1, false) | some l ↦ (record pc1 { library = some l }, true) ]

unfoldable pub clear_local_description : PeerConnection → PeerConnection
clear_local_description pc = record pc { local_description = none }

unfoldable pub finalize : PeerConnection → PeerConnection
finalize pc =
    let pc1 = record pc { user_data = none } in
    elim pc.library [
      | none ↦ pc1
      | some l ↦ clear_local_description (record pc1 { library = none; callbacks = no_callbacks })
    ]

-- `rtc_peer_connection_create`, given the object that the pool hands out: the connection, or the object
-- that goes back to the pool.
pub data Created : Type 0 where
  no_object : Created
  returned : PeerConnection → Created
  refused : PeerConnection → Created

unfoldable pub peer_connection_create :
    Callbacks → Option ℕ → Option PeerConnection → Option ℕ → Created
peer_connection_create callbacks user_data acquired library = elim acquired [
  | none ↦ no_object
  | some pc ↦
      let (pc1, ok) = init_connection callbacks user_data library pc in
      if ok then returned pc1 else refused pc1
]

-- `rtc_peer_connection_destroy`: what goes back to the pool.
unfoldable pub peer_connection_destroy : PeerConnection → PeerConnection
peer_connection_destroy pc = finalize pc

-- `fetch_local_description`, given the library's answer
unfoldable pub fetch_local_description : Option Description → PeerConnection → PeerConnection
fetch_local_description answer pc = elim pc.local_description [
  | some d ↦ pc
  | none ↦ elim answer [
    | none ↦ record pc { local_description = none }
    | some d ↦ record pc {
      local_description = some d;
      local_description_sdp = d.sdp;
      local_description_type = d.kind;
    }
  ]
]

unfoldable pub get_local_description_sdp :
    Option Description → PeerConnection → PeerConnection × Bytes
get_local_description_sdp answer pc =
    let pc1 = fetch_local_description answer pc in (pc1, pc1.local_description_sdp)

unfoldable pub get_local_description_type :
    Option Description → PeerConnection → PeerConnection × Bytes
get_local_description_type answer pc =
    let pc1 = fetch_local_description answer pc in (pc1, pc1.local_description_type)

-- `on_local_candidate`: the buffers that the pool handed out, as they are left; a first buffer that has
-- no second one goes back to the pool at once.
unfoldable pub on_local_candidate :
    Option Buffer
    → Option Buffer
    → Bytes
    → Bytes
    → (Buffer × Buffer → Buffer × Buffer)
    → Option Buffer × Option Buffer
on_local_candidate first second candidate mid callback = elim (acquire first) [
  | none ↦ (none, second)
  | some cand_buff ↦ elim (acquire second) [
    | none ↦ (some (record cand_buff { released = cand_buff.released + 1 }), none)
    | some mid_buff ↦
        let (cand_buff1, mid_buff1) =
          callback (set_string candidate cand_buff, set_string mid mid_buff) in
        (some (unref cand_buff1), some (unref mid_buff1))
  ]
]
