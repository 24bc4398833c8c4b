-- ===== src/Frame/RoundTrip.antt =====
-- src/session/session.c: the frames with their buffers and their readers.
use pomelo_udp_webrtc_plugin.Base.{
  ℕ, zero, suc, ◌+◌, ◌-◌, ◌*◌, ◌^◌, ◌≤◌, ◌<◌, ◌≡◌, refl, Bool, true, ◌&&◌, some, [], ◌∷◌, ◌++◌,
  Bytes, append-nil, length, length-append, ◌==◌, arith,
}
use pomelo_udp_webrtc_plugin.Frame.{
  Payload, opcode_ping, opcode_pong, ping_data_capacity, pong_data_capacity, opcode_of,
  sequence_bytes_of, ping_header, pong_header, ping_frame, pong_frame, read_sequence, decode_ping,
  decode_pong,
}

-- Documented of packed integers: a 64-bit value takes 1 to 8 bytes, exactly so many are written, and
-- they are read back whatever follows them.
pub record PayloadLaws (payload : Payload) : Type 0 where
  pub packed_bytes_pos : (v : ℕ) → 1 ≤ payload.packed_bytes v
  pub packed_bytes-le : (v : ℕ) → payload.packed_bytes v ≤ 8
  pub length-write_packed : (n v : ℕ) → length (payload.write_packed n v) ≡ n
  pub read_packed-write_packed :
      (v : ℕ) (rest : Bytes)
      → v < 2 ^ 64
      → payload.read_packed
          (payload.write_packed (payload.packed_bytes v) v ++ rest)
          (payload.packed_bytes v)
        ≡ some v

-- A property of the numbers 1 to 8.
sizes : (ℕ → Bool) → Bool
sizes p = p 1 && p 2 && p 3 && p 4 && p 5 && p 6 && p 7 && p 8

sizes_sound : (p : ℕ → Bool) (n : ℕ) → sizes p ≡ true → 1 ≤ n → n ≤ 8 → p n ≡ true
unfolding sizes
sizes_sound p zero h k l = absurd (omega arith)
sizes_sound p (suc zero) h k l = ground arith
sizes_sound p (suc (suc zero)) h k l = ground arith
sizes_sound p (suc (suc (suc zero))) h k l = ground arith
sizes_sound p (suc (suc (suc (suc zero)))) h k l = ground arith
sizes_sound p (suc (suc (suc (suc (suc zero))))) h k l = ground arith
sizes_sound p (suc (suc (suc (suc (suc (suc zero)))))) h k l = ground arith
sizes_sound p (suc (suc (suc (suc (suc (suc (suc zero))))))) h k l = ground arith
sizes_sound p (suc (suc (suc (suc (suc (suc (suc (suc zero)))))))) h k l = ground arith
sizes_sound p (suc (suc (suc (suc (suc (suc (suc (suc (suc n))))))))) h k l = absurd (omega arith)

ping_header_fields :
    (n : ℕ)
    → 1 ≤ n
    → n ≤ 8
    → (opcode_of (ping_header n) ≡ opcode_ping) × (sequence_bytes_of (ping_header n) ≡ n)
unfolding ping_header
ping_header_fields n h k =
    let t =
      sizes_sound
        (λ m.
          (opcode_of (ping_header m) == opcode_ping) && (sequence_bytes_of (ping_header m) == m))
        n (unfold sizes in refl) h k in
    (ground arith, ground arith)

pong_header_fields :
    (m n : ℕ)
    → 1 ≤ m
    → m ≤ 8
    → 1 ≤ n
    → n ≤ 8
    → (opcode_of (pong_header m n) ≡ opcode_pong) × (sequence_bytes_of (pong_header m n) ≡ m)
unfolding pong_header
pong_header_fields m n h k h' k' =
    let row =
      sizes_sound
        (λ a. sizes (λ b.
          (opcode_of (pong_header a b) == opcode_pong)
          && (sequence_bytes_of (pong_header a b) == a)))
        m (unfold sizes in refl) h k in
    let t =
      sizes_sound
        (λ b.
          (opcode_of (pong_header m b) == opcode_pong)
          && (sequence_bytes_of (pong_header m b) == m))
        n row h' k' in
    (ground arith, ground arith)

pong_header_lem :
    (m n : ℕ) → 1 ≤ m → m ≤ 8 → 1 ≤ n → n ≤ 8 → pong_header m n ≡ 64 + (m - 1) * 8 + (n - 1)
unfolding pong_header
pong_header_lem m n h k h' k' =
    let row =
      sizes_sound (λ a. sizes (λ b. pong_header a b == 64 + (a - 1) * 8 + (b - 1))) m
        (unfold sizes in refl) h k in
    let t = sizes_sound (λ b. pong_header m b == 64 + (m - 1) * 8 + (b - 1)) n row h' k' in
    ground arith

-- The bytes of a pong: the opcode 1 with the two sizes, the sequence number, and the time.
abbrev pub pong_bytes : Payload → ℕ → ℕ → Bytes
pong_bytes payload sequence time =
    (64 + (payload.packed_bytes sequence - 1) * 8 + (payload.packed_bytes time - 1))
    ∷ (payload.write_packed (payload.packed_bytes sequence) sequence
        ++ payload.write_packed (payload.packed_bytes time) time)

-- The first byte of a message holds its opcode.
abbrev pub HasOpcode : ℕ → Bytes → Type 0
HasOpcode opcode [] = ⊥
HasOpcode opcode (header ∷ rest) = opcode_of header ≡ opcode

module _ (payload : Payload) (laws : PayloadLaws payload) where
  open laws use {packed_bytes_pos, packed_bytes-le, length-write_packed, read_packed-write_packed}

  length-ping_frame :
      (sequence : ℕ) → length (ping_frame payload sequence) ≡ payload.packed_bytes sequence + 1
  unfolding ping_frame
  length-ping_frame sequence =
      omega (arith, length-write_packed (payload.packed_bytes sequence) sequence)

  length-pong_frame :
      (sequence time : ℕ)
      → length (pong_frame payload sequence time)
        ≡ payload.packed_bytes sequence + payload.packed_bytes time + 1
  unfolding pong_frame
  length-pong_frame sequence time = omega (
    arith,
    length-append (payload.write_packed (payload.packed_bytes sequence) sequence)
        (payload.write_packed (payload.packed_bytes time) time),
    length-write_packed (payload.packed_bytes sequence) sequence,
    length-write_packed (payload.packed_bytes time) time,
  )

  -- Where the packed integers keep to their documentation, the bytes of a ping and of a pong fit
  -- the array in which each is built.
  frames_fit :
      (sequence time : ℕ)
      → (length (ping_frame payload sequence) ≤ ping_data_capacity)
        × (length (pong_frame payload sequence time) ≤ pong_data_capacity)
  frames_fit sequence time = (
    omega (arith, length-ping_frame sequence, packed_bytes-le sequence),
    omega (arith, length-pong_frame sequence time, packed_bytes-le sequence, packed_bytes-le time),
  )

  read_sequence-ping_frame :
      (sequence : ℕ)
      → sequence < 2 ^ 64
      → read_sequence payload (ping_frame payload sequence) ≡ some sequence
  unfolding read_sequence ping_frame
  read_sequence-ping_frame sequence h =
      rw
        (
          (ping_header_fields (payload.packed_bytes sequence) (packed_bytes_pos sequence)
              (packed_bytes-le sequence)).1,
          ← append-nil (payload.write_packed (payload.packed_bytes sequence) sequence),
        )
        (read_packed-write_packed sequence [] h)

  read_sequence-pong_frame :
      (sequence time : ℕ)
      → sequence < 2 ^ 64
      → read_sequence payload (pong_frame payload sequence time) ≡ some sequence
  unfolding read_sequence pong_frame
  read_sequence-pong_frame sequence time h =
      rw
        ((pong_header_fields (payload.packed_bytes sequence) (payload.packed_bytes time)
          (packed_bytes_pos sequence) (packed_bytes-le sequence) (packed_bytes_pos time)
          (packed_bytes-le time)).1)
        (read_packed-write_packed sequence _ h)

  -- Where the packed integers keep to their documentation, a ping of a 64-bit sequence number
  -- carries the ping opcode, and its reader accepts its length and finds the sequence number.
  pub decode_ping-ping_frame :
      (sequence : ℕ)
      → sequence < 2 ^ 64
      → HasOpcode opcode_ping (ping_frame payload sequence)
        × (decode_ping payload (ping_frame payload sequence) ≡ some sequence)
  unfolding decode_ping ping_frame
  decode_ping-ping_frame sequence h = (
    (ping_header_fields (payload.packed_bytes sequence) (packed_bytes_pos sequence)
        (packed_bytes-le sequence)).0,
    ground (
      arith,
      length-ping_frame sequence,
      packed_bytes_pos sequence,
      packed_bytes-le sequence,
      read_sequence-ping_frame sequence h,
    ),
  )

  -- Where the packed integers keep to their documentation, a pong of a 64-bit sequence number
  -- carries the pong opcode, and its reader accepts its length and finds the sequence number,
  -- whatever time follows it.
  pub decode_pong-pong_frame :
      (sequence time : ℕ)
      → sequence < 2 ^ 64
      → HasOpcode opcode_pong (pong_frame payload sequence time)
        × (decode_pong payload (pong_frame payload sequence time) ≡ some sequence)
  unfolding decode_pong pong_frame
  decode_pong-pong_frame sequence time h = (
    (pong_header_fields (payload.packed_bytes sequence) (payload.packed_bytes time)
        (packed_bytes_pos sequence) (packed_bytes-le sequence) (packed_bytes_pos time)
        (packed_bytes-le time)).0,
    ground (
      arith,
      length-pong_frame sequence time,
      packed_bytes_pos sequence,
      packed_bytes-le sequence,
      packed_bytes_pos time,
      packed_bytes-le time,
      read_sequence-pong_frame sequence time h,
    ),
  )

  pub pong_frame_lem :
      (sequence time : ℕ) → pong_frame payload sequence time ≡ pong_bytes payload sequence time
  unfolding pong_frame
  pong_frame_lem sequence time =
      rw
        (pong_header_lem (payload.packed_bytes sequence) (payload.packed_bytes time)
          (packed_bytes_pos sequence) (packed_bytes-le sequence) (packed_bytes_pos time)
          (packed_bytes-le time))
        refl
