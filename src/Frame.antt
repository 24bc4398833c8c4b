-- ===== src/Frame.antt =====
-- Frames of the system channel, ping and pong (src/session/session.c).
--
-- The packed integers of `base/payload.h` belong to another repository: their size, their writer and
-- their reader are the parameter `Payload`.
use Prim.Native.Nat.{bit_or}
use pomelo_udp_webrtc_plugin.Base.{
  ℕ, ◌+◌, ◌-◌, ◌*◌, ◌/◌, ◌%◌, ◌^◌, Bool, true, false, ◌||◌, Option, none, some, List, [], ◌∷◌, ◌++◌,
  Bytes, ltb, u64, if◌then◌else◌, length,
}
pub mod RoundTrip

pub record Payload : Type 0 where
  -- `pomelo_payload_calc_packed_uint64_bytes`
  pub packed_bytes : ℕ → ℕ
  -- `pomelo_payload_write_packed_uint64_unsafe`: the bytes that it writes, given their number
  pub write_packed : ℕ → ℕ → Bytes
  -- `pomelo_payload_read_packed_uint64`, from the bytes that are left
  pub read_packed : Bytes → ℕ → Option ℕ

abbrev pub opcode_ping : ℕ
opcode_ping = 0

abbrev pub opcode_pong : ℕ
opcode_pong = 1

abbrev pub ping_data_capacity : ℕ
ping_data_capacity = 9

abbrev pub pong_data_capacity : ℕ
pong_data_capacity = 17

abbrev pub ping_min_length : ℕ
ping_min_length = 2

abbrev pub pong_min_length : ℕ
pong_min_length = 3

-- `(n - 1) & 0x07` for a `size_t`
abbrev pub size_bits : ℕ → ℕ
size_bits n = u64 (n + 2 ^ 64 - 1) % 8

-- `header >> 6`
abbrev pub opcode_of : ℕ → ℕ
opcode_of header = header / 64

-- `((header >> 3) & 0x07) + 1`
abbrev pub sequence_bytes_of : ℕ → ℕ
sequence_bytes_of header = header / 8 % 8 + 1

unfoldable pub ping_header : ℕ → ℕ
ping_header bytes = bit_or (opcode_ping * 64) (size_bits bytes * 8)

unfoldable pub pong_header : ℕ → ℕ → ℕ
pong_header sequence_bytes time_bytes =
    bit_or (bit_or (opcode_pong * 64) (size_bits sequence_bytes * 8)) (size_bits time_bytes)

module _ (payload : Payload) where
  open payload use {packed_bytes, write_packed, read_packed}

  -- The data that `pomelo_webrtc_session_send_ping` sends.
  unfoldable pub ping_frame : ℕ → Bytes
  ping_frame sequence =
      let bytes = packed_bytes sequence in ping_header bytes ∷ write_packed bytes sequence

  -- The data that `pomelo_webrtc_session_send_pong` sends.
  unfoldable pub pong_frame : ℕ → ℕ → Bytes
  pong_frame sequence time =
      let sequence_bytes = packed_bytes sequence in
      let time_bytes = packed_bytes time in
      pong_header sequence_bytes time_bytes
      ∷ (write_packed sequence_bytes sequence ++ write_packed time_bytes time)

  -- The sequence number behind the header; both handlers decode it in this way.
  unfoldable pub read_sequence : Bytes → Option ℕ
  read_sequence [] = none
  read_sequence (header ∷ rest) = read_packed rest (sequence_bytes_of header)

  -- The part of `pomelo_webrtc_session_process_ping` that decodes; `none` discards the message.
  unfoldable pub decode_ping : Bytes → Option ℕ
  decode_ping message =
      if ltb (length message) ping_min_length || ltb ping_data_capacity (length message)
      then none
      else read_sequence message

  -- The same of `pomelo_webrtc_session_process_pong`.
  unfoldable pub decode_pong : Bytes → Option ℕ
  decode_pong message =
      if ltb (length message) pong_min_length || ltb pong_data_capacity (length message)
      then none
      else read_sequence message
