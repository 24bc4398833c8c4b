-- ===== src/Env.antt =====
-- What the plugin calls outside this repository, and what it is answered: the RTC library behind
-- src/rtc-api, libuv, and the host's headers (`base/ref.h`, `utils/array.h`, `utils/pool.h`, the plugin
-- interface, base64, the packed integers). None of it is defined here: `Env` is a parameter of the model,
-- and an answer may depend on every call made before.
use pomelo_udp_webrtc_plugin.Base.{ℕ, Bool, Option, List, Bytes}
use pomelo_udp_webrtc_plugin.Decimal.{ℤ}
use pomelo_udp_webrtc_plugin.Frame.{Payload}
use pomelo_udp_webrtc_plugin.StringBuffer.{StringBuffer}

-- `pomelo_channel_mode`, as far as the source names it.
pub data Mode : Type 0 where
  unreliable sequenced reliable : Mode

-- `rtc_data_channel_options_t.reliability`
pub record Reliability : Type 0 where
  pub is_unreliable : Bool
  pub is_unordered : Bool

-- The functions that a timer task calls.
pub data Timer : Type 0 where
  ping_callback on_timeout : Timer

-- The calls, in the order of the headers that declare them. A pointer is a number; an argument that
-- may be NULL is an option.
pub data Call : Type 0 where
  -- base/ref.h
  session_ref_init session_ref session_unref : Call
  channel_ref_init channel_ref channel_unref : ℕ → Call
  socket_ref socket_unref : Option ℕ → Call
  -- utils/pool.h, one pool for each type
  release_session : Call
  acquire_channel : Call
  release_channel channel_init_failed : ℕ → Call
  acquire_string_buffer release_string_buffer : Call
  acquire_timer_task : Call
  release_timer_task : ℕ → Call
  acquire_command release_command : Call
  -- utils/list.h
  remove_list_entry : ℕ → Call
  -- utils/rtt.h
  rtt_init : Call
  rtt_next_entry rtt_find_entry rtt_submit_entry : ℕ → Call
  -- atomics and libuv
  load_thread_running : Call
  timer_start : ℕ → Timer → ℕ → Call
  timer_stop : ℕ → Call
  hrtime : Call
  -- rtc-api.h: WebSocket client
  ws_set_data ws_close ws_destroy : Option ℕ → Call
  ws_send : Option ℕ → Bytes → Call
  -- rtc-api.h: peer connection
  pc_create : Call
  pc_close pc_destroy pc_remote_address : Option ℕ → Call
  pc_set_local_description pc_local_sdp pc_local_type : Option ℕ → Call
  pc_set_remote_description pc_add_remote_candidate : Option ℕ → Bytes → Option Bytes → Call
  -- rtc-api.h: data channel and buffer
  dc_create : Option ℕ → ℕ → Bytes → Reliability → Call
  dc_close dc_destroy : Option ℕ → Call
  dc_set_data : ℕ → ℕ → Call
  dc_get_data : ℕ → Call
  dc_send : Option ℕ → Bytes → Call
  dc_send_buffer : Option ℕ → ℕ → Call
  buffer_ref buffer_unref : ℕ → Call
  -- the plugin interface
  socket_time : Call
  submit_session_create : Call
  submit_session_destroy : ℕ → Call
  -- with the channel, the message and the native session of its command
  submit_session_receive : ℕ → ℕ → Option ℕ → Call
  session_set_private : ℕ → Call
  token_decode : Bytes → Call
  -- an `assert` that does not hold, or a write or read past a block: what follows is undefined
  undefined_behaviour : Call

-- `pomelo_array_t` for one type of element. `get` is `none` where the C function reports an error.
pub record ArrayLib (A : Type 0) : Type 1 where
  pub Array : Type 0
  pub size : Array → ℕ
  pub get : Array → ℕ → Option A
  pub set : Array → ℕ → A → Array
  pub resize : Array → ℕ → Option Array
  pub fill_zero : Array → Array
  pub clear : Array → Array

pub record Env : Type 1 where
  -- `session->channels` and `socket->channel_modes`
  pub pointers : ArrayLib (Option ℕ)
  pub modes : ArrayLib Mode
  pub payload : Payload
  -- a pointer result, or NULL
  pub pointer : List Call → Call → Option ℕ
  -- an `int` result that is not an error; of an unref, that the counter called its finalizer
  pub succeeds : List Call → Call → Bool
  -- a result that is a number, or the two parts of a text
  pub number : List Call → Call → ℕ
  pub text : List Call → Call → Bytes
  -- the buffer that the string buffer pool hands out, and the allocator behind it
  pub string_buffer : List Call → Option StringBuffer
  pub malloc : List Call → ℕ → Option Bytes
  -- base64 and the connect token
  pub token_base64_length : ℕ
  pub token_base64_no_padding_length : ℕ
  pub base64_decode : Bytes → Option Bytes
  -- the client id and the timeout in seconds of a token that the host accepts
  pub token_info : List Call → Bytes → Option (ℤ × ℤ)
