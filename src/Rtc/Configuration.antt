-- ===== src/Rtc/Configuration.antt =====
-- The configurations that are passed to libdatachannel (src/rtc-api/rtc-peer-connection.cpp,
-- rtc-ws-server.cpp), from the options of the C interface (rtc-api.h).
--
-- A `const char *` is its text or `none` for NULL, an enumeration its number; the library's own
-- configuration starts with its defaults, which are an argument.
use pomelo_udp_webrtc_plugin.Base.{
  ℕ, suc, ◌-◌, ◌^◌, Bool, true, false, ◌||◌, Option, none, some, List, [], ◌++◌, Bytes, ltb,
  if◌then◌else◌, u64,
}
use pomelo_udp_webrtc_plugin.Decimal.{ℤ, pos, negsuc}

-- `static_cast<size_t>` of an `int`
unfoldable pub size_of_int : ℤ → ℕ
size_of_int (pos n) = n
size_of_int (negsuc n) = u64 (2 ^ 64 - suc n)

abbrev pub is_positive : ℤ → Bool
is_positive (pos n) = ltb 0 n
is_positive (negsuc n) = false

abbrev pub is_not_zero : ℤ → Bool
is_not_zero (pos n) = ltb 0 n
is_not_zero (negsuc n) = true

abbrev pub text_or_empty : Option Bytes → Bytes
text_or_empty none = []
text_or_empty (some s) = s

-- `rtc_peer_connection_options_t`; the array of servers is the list of as many as it counts.
pub record PeerOptions : Type 0 where
  pub ice_servers : List Bytes
  pub proxy_server : Option Bytes
  pub bind_address : Option Bytes
  pub certificate_type : ℕ
  pub ice_transport_policy : ℕ
  pub enable_ice_tcp : Bool
  pub enable_ice_udp_mux : Bool
  pub force_media_transport : Bool
  pub port_range_begin : ℕ
  pub port_range_end : ℕ
  pub mtu : ℤ
  pub max_message_size : ℤ

-- `rtc::Configuration`, as far as it is set here
pub record Configuration : Type 0 where
  pub ice_servers : List Bytes
  pub proxy_server : Option Bytes
  pub bind_address : Option Bytes
  pub certificate_type : ℕ
  pub ice_transport_policy : ℕ
  pub enable_ice_tcp : Bool
  pub enable_ice_udp_mux : Bool
  pub disable_auto_negotiation : Bool
  pub force_media_transport : Bool
  pub port_range_begin : ℕ
  pub port_range_end : ℕ
  pub mtu : Option ℕ
  pub max_message_size : Option ℕ

-- The part of `RTCPeerConnection::init` that fills in the configuration
unfoldable pub peer_configuration : Configuration → PeerOptions → Configuration
peer_configuration c o =
    let ports = ltb 0 o.port_range_begin || ltb 0 o.port_range_end in
    record {
      ice_servers = c.ice_servers ++ o.ice_servers;
      proxy_server = elim o.proxy_server [ none ↦ c.proxy_server | some s ↦ some s ];
      bind_address = elim o.bind_address [ none ↦ c.bind_address | some s ↦ some s ];
      certificate_type = o.certificate_type;
      ice_transport_policy = o.ice_transport_policy;
      enable_ice_tcp = o.enable_ice_tcp;
      enable_ice_udp_mux = o.enable_ice_udp_mux;
      disable_auto_negotiation = true;
      force_media_transport = o.force_media_transport;
      port_range_begin = if ports then o.port_range_begin else c.port_range_begin;
      port_range_end = if ports then o.port_range_end else c.port_range_end;
      mtu = if is_positive o.mtu then some (size_of_int o.mtu) else c.mtu;
      max_message_size =
          if is_not_zero o.max_message_size
          then some (size_of_int o.max_message_size)
          else c.max_message_size;
    }

-- `rtc_data_channel_options_t` with its reliability
pub record ChannelOptions : Type 0 where
  pub label : Option Bytes
  pub unordered : Bool
  pub unreliable : Bool
  pub max_packet_life_time : ℕ
  pub max_retransmits : ℕ
  pub protocol : Option Bytes
  pub negotiated : Bool
  pub manual_stream : Bool
  pub stream : ℕ

-- `rtc::DataChannelInit`
pub record ChannelInit : Type 0 where
  pub unordered : Bool
  pub max_packet_life_time : Option ℕ
  pub max_retransmits : Option ℕ
  pub negotiated : Bool
  pub id : Option ℕ
  pub protocol : Bytes

-- The first part of `RTCPeerConnection::create_data_channel`
unfoldable pub channel_init_of : ChannelOptions → ChannelInit
channel_init_of o = record {
  unordered = o.unordered;
  max_packet_life_time =
      if o.unreliable
      then (if ltb 0 o.max_packet_life_time then some o.max_packet_life_time else none)
      else none;
  max_retransmits =
      if o.unreliable
      then (if ltb 0 o.max_packet_life_time then none else some o.max_retransmits)
      else none;
  negotiated = o.negotiated;
  id = if o.manual_stream then some o.stream else none;
  protocol = text_or_empty o.protocol;
}

-- `rtc_websocket_server_options_t`
pub record ServerOptions : Type 0 where
  pub port : ℕ
  pub enable_tls : Bool
  pub certificate_pem_file : Option Bytes
  pub key_pem_file : Option Bytes
  pub key_pem_pass : Option Bytes
  pub bind_address : Option Bytes
  pub connection_timeout_ms : ℤ
  pub max_message_size : ℤ

-- `rtc::WebSocketServer::Configuration`
pub record ServerConfiguration : Type 0 where
  pub port : ℕ
  pub enable_tls : Bool
  pub certificate_pem_file : Option Bytes
  pub key_pem_file : Option Bytes
  pub key_pem_pass : Option Bytes
  pub bind_address : Option Bytes
  pub connection_timeout : Option ℕ
  pub max_message_size : Option ℕ

-- The part of `RTCWSServer::init` that fills in the configuration; the timeout is not passed on.
unfoldable pub server_configuration : ServerConfiguration → ServerOptions → ServerConfiguration
server_configuration c o = record {
  port = o.port;
  enable_tls = o.enable_tls;
  certificate_pem_file = o.certificate_pem_file;
  key_pem_file = o.key_pem_file;
  key_pem_pass = o.key_pem_pass;
  bind_address = o.bind_address;
  connection_timeout = c.connection_timeout;
  max_message_size =
      if is_positive o.max_message_size
      then some (size_of_int o.max_message_size)
      else c.max_message_size;
}
