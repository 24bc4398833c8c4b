-- ===== src/Dispatch/Messages.antt =====
-- The bytes of a message on their way from the host to a data channel and back
-- (src/channel/channel-plugin.c, with the buffers and the data channels of src/rtc-api).
--
-- The host's message is its bytes. Whether the host reads or writes it is an argument, and so are the
-- objects that the pools hand out.
use pomelo_udp_webrtc_plugin.Base.{
  ℕ, ◌≡◌, ◌≢◌, refl, ap, ◌∙◌, Bool, true, not, ◌==◌, Option, none, some, List, [], ◌∷◌, ◌++◌, Bytes,
  length, if◌then◌else◌, arith,
}
use pomelo_udp_webrtc_plugin.Rtc.Buffer.{
  Buffer, data_of, set_string, set_binary, prepare, reset_ref, resize, acquire, buffer_prepare, ref,
  unref, on_message_string, on_message_binary,
}
use pomelo_udp_webrtc_plugin.Rtc.Client.{Peer, send_binary, dc_send_bytes, dc_send_buffer}

-- A write of bytes behind the data pointer of a block; `none` is a write past its end.
unfoldable pub write_behind : Bytes → Bytes → Option Bytes
write_behind [] block = some block
write_behind (x ∷ xs) [] = none
write_behind (x ∷ xs) (y ∷ ys) = elim (write_behind xs ys) [ none ↦ none | some zs ↦ some (x ∷ zs) ]

-- What becomes of the buffer: there is none to submit, the host writes past its end, or it is submitted.
pub data Prepared : Type 0 where
  not_submitted overrun : Prepared
  submitted : Buffer → Prepared

-- The first part of `pomelo_webrtc_plugin_session_send`: the buffer that is handed to the plugin's thread.
-- The host writes its message behind the data pointer of the buffer.
unfoldable pub message_buffer : Option Buffer → Bool → Bytes → Prepared
message_buffer acquired is_read message =
    if length message == 0 then not_submitted else elim (buffer_prepare acquired (length message)) [
      | none ↦ not_submitted
      | some b ↦ if not is_read then not_submitted else elim (write_behind message b.binary_data) [
        | none ↦ overrun
        | some written ↦ submitted (record b { binary_data = written })
      ]
    ]

-- What the host gets: the index of a channel and the bytes, the last message first.
pub record HostMessage : Type 0 where
  pub native_session : Option ℕ
  pub channel_index : ℕ
  pub bytes : Bytes

-- `pomelo_webrtc_plugin_channel_receive`, with the host's new message or NULL
unfoldable pub plugin_channel_receive :
    Option ℕ → Bool → Option ℕ → ℕ → Buffer → List HostMessage → List HostMessage
plugin_channel_receive native_message is_written native index message l = elim native_message [
  | none ↦ l
  | some m ↦
      if is_written
      then record { native_session = native; channel_index = index; bytes = data_of message } ∷ l
      else l
]

write_behind-resize :
    (message block : Bytes) → write_behind message (resize (length message) block) ≡ some message
unfolding write_behind
write_behind-resize [] block = refl
write_behind-resize (x ∷ xs) [] = rw (write_behind-resize xs []) refl
write_behind-resize (x ∷ xs) (y ∷ ys) = rw (write_behind-resize xs ys) refl

message_buffer_lem :
    (pooled : Buffer) (message : Bytes)
    → message ≢ []
    → (b : Buffer) × (message_buffer (some pooled) true message ≡ submitted b)
      × (data_of b ≡ message)
unfolding message_buffer buffer_prepare acquire prepare data_of
message_buffer_lem pooled [] full = absurd (full refl)
message_buffer_lem pooled (x ∷ xs) full = (
  record pooled { ref_counter = 1; is_binary = true; binary_data = x ∷ xs },
  unfold reset_ref in ground (arith, write_behind-resize (x ∷ xs) pooled.binary_data),
  refl,
)

dc_send_buffer_lem :
    (b : Buffer) (l : ℕ) (answer : Option Bool) (p : Peer)
    → p.library ≡ some l
    → (dc_send_buffer b answer p).0.requests ≡ send_binary (data_of b) ∷ p.requests
unfolding dc_send_buffer dc_send_bytes
dc_send_buffer_lem b l answer p h = ground (arith, h)

-- The buffer of a received message, which its callback references, holds the message afterwards.
on_message_lem :
    (pooled : Buffer) (message : Bytes)
    → ((b : Buffer) × (on_message_binary (some pooled) message ref ≡ some b)
        × (data_of b ≡ message))
      × ((b : Buffer) × (on_message_string (some pooled) message ref ≡ some b)
          × (data_of b ≡ message ++ 0 ∷ []))
unfolding on_message_binary on_message_string acquire set_binary set_string ref unref data_of
on_message_lem pooled message = (
  (unref (ref (set_binary message (reset_ref pooled))), refl, unfold reset_ref in ground arith),
  (unref (ref (set_string message (reset_ref pooled))), refl, unfold reset_ref in ground arith),
)

plugin_channel_receive_lem :
    (native_message index : ℕ) (native : Option ℕ) (b : Buffer) (host : List HostMessage)
    → plugin_channel_receive (some native_message) true native index b host
      ≡ record { native_session = native; channel_index = index; bytes = data_of b } ∷ host
unfolding plugin_channel_receive
plugin_channel_receive_lem native_message index native b host = refl

-- A message of the host that is not empty is handed to the library's data channel as one binary message of
-- the same bytes, written within the block of the buffer, where the pool has a buffer, whatever it held
-- before, the host reads the message and the data channel has its library object. In the other direction
-- the buffer in which a binary message of the library is received, whatever it held before, gives the host
-- a message of the same bytes after its callback referenced it, and that of a text message one that ends
-- with an additional NUL, where the host has a message and writes it.
pub messages_pass :
    (pooled : Buffer) (message : Bytes) (l : ℕ) (answer : Option Bool) (p : Peer)
    (native_message index : ℕ) (native : Option ℕ) (host : List HostMessage)
    → message ≢ []
    → p.library ≡ some l
    → ((b : Buffer) × (message_buffer (some pooled) true message ≡ submitted b)
        × ((dc_send_buffer b answer p).0.requests ≡ send_binary message ∷ p.requests))
      × ((b : Buffer) × (on_message_binary (some pooled) message ref ≡ some b)
          × (plugin_channel_receive (some native_message) true native index b host
              ≡ record { native_session = native; channel_index = index; bytes = message } ∷ host))
      × ((b : Buffer) × (on_message_string (some pooled) message ref ≡ some b)
          × (plugin_channel_receive (some native_message) true native index b host
              ≡ record { native_session = native; channel_index = index; bytes = message ++ 0 ∷ [] }
                ∷ host))
messages_pass pooled message l answer p native_message index native host full h =
    let (b, made, same) = message_buffer_lem pooled message full in
    let ((c, binary, bytes), (d, text, with_nul)) = on_message_lem pooled message in
    let received : Bytes → List HostMessage =
      λ bytes. record { native_session = native; channel_index = index; bytes = bytes } ∷ host in
    (
      (
        b,
        made,
        dc_send_buffer_lem b l answer p h ∙ ap (λ bytes. send_binary bytes ∷ p.requests) same,
      ),
      (
        c,
        binary,
        plugin_channel_receive_lem native_message index native c host ∙ ap received bytes,
      ),
      (
        d,
        text,
        plugin_channel_receive_lem native_message index native d host ∙ ap received with_nul,
      ),
    )
