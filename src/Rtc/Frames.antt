-- ===== src/Rtc/Frames.antt =====
-- A client's frame from the WebSocket's receiver (src/rtc-api/rtc-ws-client.cpp) to the reader of an
-- authenticated client's messages (src/session/session-ws.c), which takes its block for a C string.
use pomelo_udp_webrtc_plugin.Base.{
  ◌+◌, ◌^◌, ◌≤◌, ◌<◌, ◌≡◌, refl, ◌∙◌, ap, none, [], ◌∷◌, ◌++◌, append_assoc, Bytes, length,
  length-append, arith,
}
use pomelo_udp_webrtc_plugin.Message.{
  separator, opcode_description, opcode_candidate, c_str, Request, overread, description, candidate,
  read_parts, read_authenticated,
}
use pomelo_udp_webrtc_plugin.Message.Compose.{joined, length-joined}
use pomelo_udp_webrtc_plugin.Message.Read.{
  IsPart, IsText, strchr-part, read_authenticated-joined, read_authenticated-description,
  read_authenticated-candidate,
}
use pomelo_udp_webrtc_plugin.Rtc.Buffer.{Buffer, data_of, set_string, set_binary}

c_str-no_nul : (s : Bytes) → IsText s → c_str s ≡ none
unfolding c_str
c_str-no_nul [] h = refl
c_str-no_nul (c ∷ s) (h, hs) = ground (arith, c_str-no_nul s hs)

read_parts-no_nul :
    (request : Bytes → Bytes → Request) (first second : Bytes)
    → IsPart first
    → IsText second
    → read_parts request (first ++ separator ∷ second) ≡ overread
unfolding read_parts
read_parts-no_nul request first second h k =
    rw (strchr-part first second h, read_parts, c_str-no_nul second k)

regroup :
    (opcode first second : Bytes)
    → joined opcode first second ≡ opcode ++ (separator ∷ (first ++ separator ∷ second))
regroup opcode first second = simp append_assoc

-- The same bytes in a binary frame, which has no NUL at its end.
joined-overread :
    (first second : Bytes)
    → IsPart first
    → IsText second
    → 1 ≤ length first + length second
    → length (joined opcode_description first second) + 1 < 2 ^ 64
    → (read_authenticated (joined opcode_description first second) ≡ overread)
      × (read_authenticated (joined opcode_candidate first second) ≡ overread)
joined-overread first second h k some_part small =
    let rest = first ++ separator ∷ second in
    let long : length rest ≡ length first + length second + 1 =
      omega (arith, length-append first (separator ∷ second)) in
    let total = length-joined opcode_description first second in
    (
      ap read_authenticated (regroup opcode_description first second)
          ∙ read_authenticated-description rest (omega (arith, long, some_part))
              (omega (arith, long, total, small))
          ∙ read_parts-no_nul description first second h k,
      ap read_authenticated (regroup opcode_candidate first second)
          ∙ read_authenticated-candidate rest
          ∙ read_parts-no_nul candidate first second h k,
    )

-- A description `DESC|<type>|<sdp>` and a candidate `CAND|<mid>|<candidate>` whose parts hold no NUL,
-- the first one no separator, of fewer than 2^64 bytes, not both of them empty: of an authenticated
-- client they are read as such from a text frame, and read past the end of the block from a binary
-- frame.
pub read_authenticated-frames :
    (b : Buffer) (first second : Bytes)
    → IsPart first
    → IsText second
    → 1 ≤ length first + length second
    → length (joined opcode_description first second) + 1 < 2 ^ 64
    → (read_authenticated (data_of (set_string (joined opcode_description first second) b))
        ≡ description first second)
      × (read_authenticated (data_of (set_string (joined opcode_candidate first second) b))
          ≡ candidate first second)
      × (read_authenticated (data_of (set_binary (joined opcode_description first second) b))
          ≡ overread)
      × (read_authenticated (data_of (set_binary (joined opcode_candidate first second) b))
          ≡ overread)
unfolding data_of set_string set_binary
read_authenticated-frames b first second h k some_part small =
    let (text_description, text_candidate) = read_authenticated-joined first second h k small in
    let (binary_description, binary_candidate) = joined-overread first second h k some_part small in
    (text_description, text_candidate, binary_description, binary_candidate)
