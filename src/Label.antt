-- ===== src/Label.antt =====
-- Labels of data channels: the one that the server gives to a channel (`pomelo_webrtc_channel_dc_init`
-- in src/channel/channel-dc.c) and the parser of a client's (`pomelo_webrtc_pc_parse_channel_label`
-- in src/session/session-pc.c). A label is the text before its NUL.
use pomelo_udp_webrtc_plugin.Base.{
  ℕ, zero, suc, ◌+◌, ◌-◌, ◌*◌, ◌^◌, ◌%◌, ◌≤◌, ◌<◌, ◌≡◌, ◌≢◌, refl, sym, ap, ◌∙◌, Bool, true, false,
  ◌&&◌, ◌||◌, ◌↔◌, inl, inr, Bool-cases, Option, none, some, List, [], ◌∷◌, ◌++◌, Bytes, codes, ltb,
  leb, ◌==◌, u64, if◌then◌else◌, length, take, drop, length-append, take-append, drop-append, All,
  arith,
}
use pomelo_udp_webrtc_plugin.Decimal.{print_u64}
pub mod Parse

-- `SIZE_MAX`
abbrev pub system_index : ℕ
system_index = 2 ^ 64 - 1

abbrev pub server_prefix : Bytes
server_prefix = codes "server-channel-"

abbrev pub client_prefix : Bytes
client_prefix = codes "client-channel-"

abbrev pub system_label : Bytes
system_label = codes "system"

-- `sizeof(POMELO_SERVER_CHANNEL_PREFIX) + 11`
abbrev pub channel_name_capacity : ℕ
channel_name_capacity = length server_prefix + 1 + 11

-- The label of the channel with an index.
unfoldable pub server_label : ℕ → Bytes
server_label index =
    if index == system_index then system_label else server_prefix ++ print_u64 index

-- `memcmp(a, b, length(b)) == 0`, on at least as many bytes.
unfoldable pub bytes_eq : Bytes → Bytes → Bool
bytes_eq [] [] = true
bytes_eq [] (y ∷ ys) = false
bytes_eq (x ∷ xs) [] = false
bytes_eq (x ∷ xs) (y ∷ ys) = (x == y) && bytes_eq xs ys

-- The loop over the characters behind the prefix; `index` is a `size_t`.
unfoldable pub scan : Bytes → ℕ → Option ℕ
scan [] index = some index
scan (c ∷ s) index =
    let rest = scan s (u64 (index * 10 + (c - b'0'))) in
    if ltb c b'0' || ltb b'9' c then none else rest

unfoldable pub parse_channel_label : Bytes → Option ℕ
parse_channel_label label =
    if leb (length label) (length client_prefix)
    then none
    else if bytes_eq (take (length client_prefix) label) client_prefix
    then scan (drop (length client_prefix) label) 0
    else none
