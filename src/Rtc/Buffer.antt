-- ===== src/Rtc/Buffer.antt =====
-- The buffers of received and of prepared messages (src/rtc-api/rtc-buffer.cpp, rtc-buffer-pool.cpp,
-- and the receivers of messages in rtc-data-channel.cpp and rtc-ws-client.cpp).
--
-- The pool belongs to another repository: the object that it hands out is an argument, and `released`
-- counts how often the buffer was given back to it. The counter is an `int` of 32 bits.
use pomelo_udp_webrtc_plugin.Base.{
  ℕ, zero, suc, ◌+◌, ◌%◌, ◌^◌, Bool, true, false, Option, none, some, List, [], ◌∷◌, ◌++◌, ◌==◌,
  if◌then◌else◌, Bytes, length, take,
}
pub mod Count
pub mod Interleaved

abbrev pub u32 : ℕ → ℕ
u32 n = n % 2 ^ 32

-- `RTCBuffer`
pub record Buffer : Type 0 where
  pub ref_counter : ℕ
  pub is_binary : Bool
  pub binary_data : Bytes
  pub string_data : Bytes
  pub released : ℕ

-- The bytes at the pointer that is returned, as many as `size`: those of `c_str()` end with a NUL.
unfoldable pub data_of : Buffer → Bytes
data_of b = if b.is_binary then b.binary_data else b.string_data ++ 0 ∷ []

unfoldable pub size : Buffer → ℕ
size b = if b.is_binary then length b.binary_data else length b.string_data + 1

unfoldable pub set_string : Bytes → Buffer → Buffer
set_string s b = record b { is_binary = false; string_data = s }

unfoldable pub set_binary : Bytes → Buffer → Buffer
set_binary s b = record b { is_binary = true; binary_data = s }

-- `std::vector::resize`: cut off, or filled up with zeros.
abbrev pub resize : ℕ → Bytes → Bytes
resize zero xs = []
resize (suc n) [] = 0 ∷ resize n []
resize (suc n) (x ∷ xs) = x ∷ resize n xs

unfoldable pub prepare : ℕ → Buffer → Buffer
prepare capacity b = record b { is_binary = true; binary_data = resize capacity b.binary_data }

unfoldable pub reset_ref : Buffer → Buffer
reset_ref b = record b { ref_counter = 1 }

-- `RTCBuffer::ref`, whose loop ends with the exchange of the value that it has read.
unfoldable pub ref : Buffer → Buffer
ref b = if b.ref_counter == 0 then b else record b { ref_counter = u32 (b.ref_counter + 1) }

-- `RTCBuffer::unref`
unfoldable pub unref : Buffer → Buffer
unref b =
    let b1 = record b { ref_counter = u32 (b.ref_counter + 1) } in
    if b.ref_counter == 1 then record b1 { released = b.released + 1 } else b1

-- `RTCBufferPool::acquire`, given what the pool hands out.
unfoldable pub acquire : Option Buffer → Option Buffer
acquire none = none
acquire (some b) = some (reset_ref b)

-- `rtc_buffer_prepare`
unfoldable pub buffer_prepare : Option Buffer → ℕ → Option Buffer
buffer_prepare acquired capacity =
    if capacity == 0
    then none
    else elim (acquire acquired) [ none ↦ none | some b ↦ some (prepare capacity b) ]

-- `on_message_string` and `on_message_binary`, of a data channel and of a WebSocket client; `callback` is
-- what the callback does with the buffer.
unfoldable pub on_message_string : Option Buffer → Bytes → (Buffer → Buffer) → Option Buffer
on_message_string acquired message callback = elim (acquire acquired) [
  | none ↦ none
  | some b ↦ some (unref (callback (set_string message b)))
]

unfoldable pub on_message_binary : Option Buffer → Bytes → (Buffer → Buffer) → Option Buffer
on_message_binary acquired message callback = elim (acquire acquired) [
  | none ↦ none
  | some b ↦ some (unref (callback (set_binary message b)))
]
