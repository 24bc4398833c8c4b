-- ===== src/Tests/Rtc.antt =====
-- Runs of the theorems on the wrapper around libdatachannel.
use pomelo_udp_webrtc_plugin.Base.{
  List, ◌+◌, ◌≡◌, ◌⊎◌, true, false, none, some, [], ◌∷◌, Bytes, codes, drop, if◌then◌else◌, arith,
}
use pomelo_udp_webrtc_plugin.Message.{
  opcode_description, opcode_candidate, overread, description, candidate, read_authenticated,
}
use pomelo_udp_webrtc_plugin.Message.Compose.{joined}
use pomelo_udp_webrtc_plugin.Rtc.Buffer.{
  Buffer, data_of, set_string, set_binary, on_message_string, on_message_binary,
}
use pomelo_udp_webrtc_plugin.Rtc.Buffer.Count.{Use, used, on_message_released}
use pomelo_udp_webrtc_plugin.Rtc.Buffer.Interleaved.{
  in_front, Action, load, exchange, unref_once, Users, act_all,
}
use pomelo_udp_webrtc_plugin.Rtc.Buffer.Interleaved.Refine.{all_at_once, references, act_all-used}
use pomelo_udp_webrtc_plugin.Rtc.Frames.{read_authenticated-frames}
use pomelo_udp_webrtc_plugin.Rtc.Address.{
  exception, Wrote, ws_remote_address, pc_remote_address, remote_address-Wrote,
}
use pomelo_udp_webrtc_plugin.Rtc.PeerConnection.{
  PeerConnection, no_callbacks, returned, peer_connection_create, get_local_description_sdp,
  get_local_description_type,
}
use pomelo_udp_webrtc_plugin.Rtc.PeerConnection.LocalDescription.{
  Life, asked, pooled, get_local_description-first_texts,
}

abbrev some_buffer : Buffer
some_buffer = record {
  ref_counter = 0;
  is_binary = true;
  binary_data = [];
  string_data = [];
  released = 0;
}

-- The callback keeps the buffer, and gives it up later.
on_message_released_example :
    ((r : Buffer) × (on_message_string
          (some some_buffer)
          (codes "READY")
          (used (Use.reference ∷ []))
        ≡ some r)
      × ((used (Use.unreference ∷ []) r).released ≡ 0 + (if false then 1 else 0)))
    × ((r : Buffer) × (on_message_binary
            (some some_buffer)
            (codes "READY")
            (used (Use.reference ∷ []))
          ≡ some r)
        × ((used (Use.unreference ∷ []) r).released ≡ 0 + (if false then 1 else 0)))
on_message_released_example =
    on_message_released some_buffer (codes "READY") (Use.reference ∷ []) (Use.unreference ∷ [])
      (omega arith)

abbrev offer : Bytes
offer = codes "offer"

abbrev sdp : Bytes
sdp = codes "v=0"

read_authenticated-frames_example :
    (read_authenticated (data_of (set_string (joined opcode_description offer sdp) some_buffer))
      ≡ description offer sdp)
    × (read_authenticated (data_of (set_string (joined opcode_candidate offer sdp) some_buffer))
        ≡ candidate offer sdp)
    × (read_authenticated (data_of (set_binary (joined opcode_description offer sdp) some_buffer))
        ≡ overread)
    × (read_authenticated (data_of (set_binary (joined opcode_candidate offer sdp) some_buffer))
        ≡ overread)
read_authenticated-frames_example =
    read_authenticated-frames some_buffer offer sdp (ground arith) (ground arith) (omega arith)
      (omega arith)

abbrev old_bytes : Bytes
old_bytes = 1 ∷ 2 ∷ 3 ∷ 4 ∷ 5 ∷ 6 ∷ []

remote_address-Wrote_example :
    Wrote [] old_bytes (ws_remote_address exception 6 old_bytes)
    × ((pc_remote_address exception 6 old_bytes ≡ ws_remote_address exception 6 old_bytes)
        ⊎ (exception ≡ exception)
          × (pc_remote_address exception 6 old_bytes ≡ some (10 ∷ drop 1 old_bytes)))
remote_address-Wrote_example =
    remote_address-Wrote exception 6 old_bytes tt (omega arith) (omega arith)

abbrev old_life : Life
old_life = record { library = 3; answers = some (record { sdp = sdp; kind = offer }) ∷ [] }

get_local_description-first_texts_example :
    (pc : PeerConnection) × (peer_connection_create no_callbacks none
        (some (pooled no_callbacks none (old_life ∷ [])))
        (some 4)
      ≡ returned pc)
    × (◌≡◌ {A = Bytes × Bytes}
        (
          (get_local_description_sdp none (asked [] pc)).1,
          (get_local_description_type none (asked [] pc)).1,
        )
        (sdp, offer))
get_local_description-first_texts_example =
    get_local_description-first_texts no_callbacks none (old_life ∷ []) 4 [] none

-- Two threads have read the same value; the exchange of the second one fails, and it starts again.
abbrev two_threads : Users
two_threads = record {
  buffer = record some_buffer { ref_counter = 1 };
  phase = λ t. in_front;
  calls = 0;
}

abbrev crossing : List Action
crossing =
    load 1
    ∷ load 2
    ∷ exchange 1 false
    ∷ exchange 2 false
    ∷ unref_once
    ∷ load 2
    ∷ exchange 2 true
    ∷ load 2
    ∷ exchange 2 false
    ∷ []

act_all-used_example :
    ((act_all crossing two_threads).buffer
      ≡ used (all_at_once crossing two_threads) two_threads.buffer)
    × (two_threads.calls + references (all_at_once crossing two_threads)
        ≡ (act_all crossing two_threads).calls)
act_all-used_example = act_all-used crossing two_threads (λ t prev e. absurd (ground (arith, e)))
