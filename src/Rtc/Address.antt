-- ===== src/Rtc/Address.antt =====
-- The text of a peer's address (src/rtc-api/rtc-utils.cpp, and `remote_address` of
-- rtc-ws-client.cpp and rtc-peer-connection.cpp).
--
-- The buffer is its bytes; `none` is a write outside of it. `size` is the `int` that the caller passes,
-- 0 for what is not positive; it may differ from the number of bytes.
use pomelo_udp_webrtc_plugin.Base.{
  ℕ, ◌+◌, ◌%◌, ◌^◌, ◌≤◌, ◌<◌, ◌≡◌, ◌⊎◌, inl, inr, refl, Bool, true, false, Bool-cases, Option, none,
  some, [], ◌∷◌, ◌++◌, append_assoc, Bytes, ltb, leb, ◌==◌, if◌then◌else◌, length, drop,
  length-append, length-drop, arith,
}
use pomelo_udp_webrtc_plugin.Message.{c_str}
use pomelo_udp_webrtc_plugin.Message.Read.{IsText}

-- What the library answers: an address or none, or an exception.
pub data Answer : Type 0 where
  address : Option Bytes → Answer
  exception : Answer

-- The bytes, written at the start of the buffer.
abbrev pub put : Bytes → Bytes → Option Bytes
put bytes buffer =
    if ltb (length buffer) (length bytes) then none else some (bytes ++ drop (length bytes) buffer)

-- `size < static_cast<int>(n)`, for a size that is not negative
abbrev pub is_below_int : ℕ → ℕ → Bool
is_below_int size n = let m = n % 2 ^ 32 in if ltb m (2 ^ 31) then ltb size m else false

unfoldable pub copy_address : Option Bytes → ℕ → Bytes → Option Bytes
copy_address none size buffer = put (0 ∷ []) buffer
copy_address (some addr) size buffer =
    if is_below_int size (length addr + 1) then put (0 ∷ []) buffer else put (addr ++ 0 ∷ []) buffer

-- `RTCWSClient::remote_address`
unfoldable pub ws_remote_address : Answer → ℕ → Bytes → Option Bytes
ws_remote_address answer size buffer = if size == 0 then some buffer else elim answer [
  | address addr ↦ copy_address addr size buffer
  | exception ↦ put (0 ∷ []) buffer
]

-- `RTCPeerConnection::remote_address`, which writes a line feed after an exception.
unfoldable pub pc_remote_address : Answer → ℕ → Bytes → Option Bytes
pc_remote_address answer size buffer = if size == 0 then some buffer else elim answer [
  | address addr ↦ copy_address addr size buffer
  | exception ↦ put (10 ∷ []) buffer
]

-- The text that the caller should find: the address, if it fits with its NUL.
abbrev pub address_text : Answer → ℕ → Bytes
address_text (address (some addr)) size = if leb (length addr + 1) size then addr else []
address_text (address none) size = []
address_text exception size = []

-- An address is text, and its length is an `int`.
abbrev pub IsAddress : Answer → Type 0
IsAddress (address (some addr)) = IsText addr × (length addr + 1 < 2 ^ 31)
IsAddress (address none) = Unit
IsAddress exception = Unit

-- A text was written to the buffer.
abbrev pub Wrote : Bytes → Bytes → Option Bytes → Type 0
Wrote text buffer result =
    (r : Bytes) × (result ≡ some r) × (length r ≡ length buffer) × (c_str r ≡ some text)

c_str-text_rest : (s rest : Bytes) → IsText s → c_str (s ++ 0 ∷ rest) ≡ some s
unfolding c_str
c_str-text_rest [] rest h = refl
c_str-text_rest (c ∷ s) rest (h, hs) = ground (arith, c_str-text_rest s rest hs)

put-Wrote :
    (text buffer : Bytes)
    → IsText text
    → length text + 1 ≤ length buffer
    → Wrote text buffer (put (text ++ 0 ∷ []) buffer)
put-Wrote text buffer h room =
    let n = length-append text (0 ∷ []) in
    let tail = drop (length (text ++ 0 ∷ [])) buffer in
    let fits : ltb (length buffer) (length (text ++ 0 ∷ [])) ≡ false = ground (arith, n, room) in
    (
      (text ++ 0 ∷ []) ++ tail,
      rw fits refl,
      omega (
        arith,
        length-append (text ++ 0 ∷ []) tail,
        length-drop (length (text ++ 0 ∷ [])) buffer,
        n,
        room,
      ),
      rw (append_assoc text (0 ∷ []) tail) (c_str-text_rest text tail h),
    )

copy_address-Wrote :
    (addr : Option Bytes) (size : ℕ) (buffer : Bytes)
    → IsAddress (address addr)
    → 1 ≤ size
    → size ≤ length buffer
    → Wrote (address_text (address addr) size) buffer (copy_address addr size buffer)
unfolding copy_address
copy_address-Wrote none size buffer h some_room room =
    put-Wrote [] buffer tt (omega (arith, some_room, room))
copy_address-Wrote (some addr) size buffer (h, short) some_room room =
    elim (Bool-cases (leb (length addr + 1) size)) [
      | inl fits ↦
          let below : is_below_int size (length addr + 1) ≡ false = ground (arith, fits, short) in
          rw (fits, below) (put-Wrote addr buffer h (ground (arith, fits, room)))
      | inr large ↦
          let below : is_below_int size (length addr + 1) ≡ true = ground (arith, large, short) in
          rw (large, below) (put-Wrote [] buffer tt (omega (arith, some_room, room)))
    ]

-- Into a buffer of at least the positive size that is passed, with an address that is text: neither
-- function writes outside of the buffer. The WebSocket client's leaves the address there as a C string
-- if it fits with its NUL, and else the empty string; so does the peer connection's, but that it
-- replaces the first byte by a line feed, and writes no NUL, when the library throws an exception.
pub remote_address-Wrote :
    (answer : Answer) (size : ℕ) (buffer : Bytes)
    → IsAddress answer
    → 1 ≤ size
    → size ≤ length buffer
    → Wrote (address_text answer size) buffer (ws_remote_address answer size buffer)
      × ((pc_remote_address answer size buffer ≡ ws_remote_address answer size buffer)
          ⊎ (answer ≡ exception)
            × (pc_remote_address answer size buffer ≡ some (10 ∷ drop 1 buffer)))
unfolding ws_remote_address pc_remote_address
remote_address-Wrote (address addr) size buffer h some_room room =
    let positive : (size == 0) ≡ false = ground (arith, some_room) in
    (rw positive (copy_address-Wrote addr size buffer h some_room room), inl refl)
remote_address-Wrote exception size buffer h some_room room =
    let positive : (size == 0) ≡ false = ground (arith, some_room) in
    (
      rw positive (put-Wrote [] buffer tt (omega (arith, some_room, room))),
      inr (refl, ground (arith, positive, some_room, room)),
    )
