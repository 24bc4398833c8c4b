-- ===== src/Message.antt =====
-- The text protocol over the WebSocket (src/session/session-ws.c, the macros of
-- src/session/session-int.h): composing the server's messages and reading a client's, apart from
-- what the session then does.
--
-- A received message is the block of `rtc_buffer_size` bytes: a text has its NUL as the last one.
-- Where the code reads past the end of the block, which is undefined in C, the reader says `overread`.
use pomelo_udp_webrtc_plugin.Base.{
  ℕ, ◌+◌, ◌-◌, ◌^◌, Bool, true, false, ◌||◌, Option, none, some, List, [], ◌∷◌, ◌++◌, Bytes, codes,
  u64, ltb, leb, ◌==◌, if◌then◌else◌, length, take, drop,
}
use pomelo_udp_webrtc_plugin.Decimal.{ℤ}
use pomelo_udp_webrtc_plugin.Label.{bytes_eq}
use pomelo_udp_webrtc_plugin.StringBuffer.{
  StringBuffer, Outcome, done, failed, overrun, append_bin, append_str, append_chr, append_i64,
  append_u64, to_string,
}
pub mod Compose
pub mod Read
pub mod Token

abbrev pub separator : ℕ
separator = b'|'

abbrev pub opcode_auth : Bytes
opcode_auth = codes "AUTH"

abbrev pub opcode_description : Bytes
opcode_description = codes "DESC"

abbrev pub opcode_candidate : Bytes
opcode_candidate = codes "CAND"

abbrev pub opcode_ready : Bytes
opcode_ready = codes "READY"

abbrev pub opcode_connected : Bytes
opcode_connected = codes "CONN"

abbrev pub result_auth_ok : Bytes
result_auth_ok = codes "AUTH|OK"

abbrev pub result_auth_failed : Bytes
result_auth_failed = codes "AUTH|FAILED"

-- The next append works on the buffer that the last one left; its result is not looked at.
infixl 5 ◌and_then◌
abbrev pub ◌and_then◌ : Outcome → (StringBuffer → Outcome) → Outcome
done b and_then f = f b
failed b and_then f = f b
overrun and_then f = overrun

module _ (malloc : ℕ → Option Bytes) where
  -- `<opcode>|<first>|<second>`, as the description and the candidate are composed.
  unfoldable pub compose : Bytes → Bytes → Bytes → StringBuffer → Outcome
  compose opcode first second b =
      append_str malloc b opcode
      and_then (λ c. append_chr malloc c separator)
      and_then (λ c. append_str malloc c first)
      and_then (λ c. append_chr malloc c separator)
      and_then (λ c. append_str malloc c second)

  -- `AUTH|OK|<client id>|<socket time>`
  unfoldable pub compose_auth_success : ℤ → ℕ → StringBuffer → Outcome
  compose_auth_success client_id time b =
      append_str malloc b result_auth_ok
      and_then (λ c. append_chr malloc c separator)
      and_then (λ c. append_i64 malloc c client_id)
      and_then (λ c. append_chr malloc c separator)
      and_then (λ c. append_u64 malloc c time)

-- `opcode_cmp`: `memcmp` of as many bytes as the opcode has; `none` reads past the message.
unfoldable pub opcode_cmp : Bytes → Bytes → Option Bool
opcode_cmp message opcode =
    if ltb (length message) (length opcode)
    then none
    else some (bytes_eq (take (length opcode) message) opcode)

-- The bytes of a C string, up to its NUL; `none` reads past the block.
unfoldable pub c_str : Bytes → Option Bytes
c_str [] = none
c_str (c ∷ s) = elim (c == 0) [
  | true ↦ some []
  | false ↦ elim (c_str s) [ none ↦ none | some t ↦ some (c ∷ t) ]
]

pub data Search : Type 0 where
  found : Bytes → Bytes → Search
  absent : Search
  past_end : Search

-- `strchr(message, '|')`: the bytes before the separator and those behind it.
unfoldable pub strchr : Bytes → Search
strchr [] = past_end
strchr (c ∷ s) = elim (c == separator) [
  | true ↦ found [] s
  | false ↦ elim (c == 0) [
    | true ↦ absent
    | false ↦ elim (strchr s) [
      | found before behind ↦ found (c ∷ before) behind
      | absent ↦ absent
      | past_end ↦ past_end
    ]
  ]
]

-- What a client's message asks for.
pub data Request : Type 0 where
  ignored : Request
  overread : Request
  auth : Bytes → Request
  description : Bytes → Bytes → Request
  candidate : Bytes → Bytes → Request
  ready : Request

-- `pomelo_webrtc_session_ws_on_message_unauthenticated`, up to the call of `recv_auth`. The length
-- is one less than the size of the block, in 64 bits.
unfoldable pub read_unauthenticated : Bytes → Request
read_unauthenticated message =
    let message_length = u64 (length message + 2 ^ 64 - 1) in
    if leb message_length (length opcode_auth + 1)
    then ignored
    else elim (opcode_cmp message opcode_auth) [
      | none ↦ overread
      | some false ↦ ignored
      | some true ↦
          auth (
            take (message_length - (length opcode_auth + 1))
              (drop (length opcode_auth + 1) message))
    ]

-- The two parts behind the opcode and its separator, where both strings end within the block.
unfoldable pub read_parts : (Bytes → Bytes → Request) → Bytes → Request
read_parts request message = elim (strchr message) [
  | past_end ↦ overread
  | absent ↦ ignored
  | found first behind ↦ elim (c_str behind) [
    | none ↦ overread
    | some second ↦ request first second
  ]
]

-- `..._process_description_message`; `size` is the number that the caller passes.
unfoldable pub read_description : Bytes → ℕ → Request
read_description message size = if size == 0 then ignored else read_parts description message

-- `..._process_candidate_message`
unfoldable pub read_candidate : Bytes → Request
read_candidate message = read_parts candidate message

unfoldable pub read_ready : Bytes → Request
read_ready message = elim (opcode_cmp message opcode_ready) [
  | none ↦ overread
  | some false ↦ ignored
  | some true ↦ ready
]

-- `pomelo_webrtc_session_ws_on_message_authenticated`: the three opcodes in turn.
unfoldable pub read_authenticated : Bytes → Request
read_authenticated message =
    let message_length = u64 (length message + 2 ^ 64 - 1) in
    elim (opcode_cmp message opcode_description) [
      | none ↦ overread
      | some true ↦
          read_description (drop (length opcode_description + 1) message)
            (u64 (message_length + 2 ^ 64 - (length opcode_description + 1)))
      | some false ↦ elim (opcode_cmp message opcode_candidate) [
        | none ↦ overread
        | some true ↦ read_candidate (drop (length opcode_candidate + 1) message)
        | some false ↦ read_ready message
      ]
    ]

-- What `to_string` leaves in its output: the C string at the data pointer, or NULL as before its call where
-- it fails. The outer `none` is a write or a read past the block.
unfoldable pub output_of : Outcome → Option (Option Bytes)
output_of (done b) = elim (c_str b.block) [ none ↦ none | some s ↦ some (some s) ]
output_of (failed b) = some none
output_of overrun = none

-- The part in front of the separator, copied with its NUL into a string buffer; both results are
-- not looked at.
unfoldable pub copy_part : (ℕ → Option Bytes) → StringBuffer → Bytes → Option (Option Bytes)
copy_part malloc b part = elim (append_bin malloc b part) [
  | done c ↦ output_of (to_string malloc c)
  | failed c ↦ output_of (to_string malloc c)
  | overrun ↦ none
]
