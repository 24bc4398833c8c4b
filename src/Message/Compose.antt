-- ===== src/Message/Compose.antt =====
-- src/session/session-ws.c: what the server's composed messages are.
use pomelo_udp_webrtc_plugin.Base.{
  ℕ, ◌+◌, ◌^◌, ◌<◌, ◌≡◌, refl, ap, Option, [], ◌∷◌, ◌++◌, Bytes, length, take, length-append, arith,
}
use pomelo_udp_webrtc_plugin.Decimal.{
  ℤ, IsI64, print_u64, print_i64, length-print_u64, length-print_i64,
}
use pomelo_udp_webrtc_plugin.StringBuffer.{
  StringBuffer, Outcome, done, to_binary, append_str, append_i64, append_u64,
}
use pomelo_udp_webrtc_plugin.StringBuffer.Growth.{IsValid}
use pomelo_udp_webrtc_plugin.StringBuffer.Within.{
  Holds, Extends, append_str_within, append_chr_within,
}
use pomelo_udp_webrtc_plugin.Message.{
  ◌and_then◌, separator, compose, compose_auth_success, result_auth_ok,
}

-- One append after another.
and_then-Extends :
    (capacity : ℕ) (before content value : Bytes) (o : Outcome) (f : StringBuffer → Outcome)
    → Extends capacity before content o
    → ((b : StringBuffer)
        → Holds capacity (before ++ content) b
        → Extends capacity (before ++ content) value (f b))
    → Extends capacity (before ++ content) value (o and_then f)
and_then-Extends capacity before content value o f (b, e, holds) k = rw e (k b holds)

-- The parts of a composed message with the separators between them.
abbrev pub joined : Bytes → Bytes → Bytes → Bytes
joined opcode first second = (((opcode ++ separator ∷ []) ++ first) ++ separator ∷ []) ++ second

pub length-joined :
    (opcode first second : Bytes)
    → length (joined opcode first second) ≡ length opcode + length first + length second + 2
length-joined opcode first second = omega (
  arith,
  length-append (((opcode ++ separator ∷ []) ++ first) ++ separator ∷ []) second,
  length-append ((opcode ++ separator ∷ []) ++ first) (separator ∷ []),
  length-append (opcode ++ separator ∷ []) first,
  length-append opcode (separator ∷ []),
)

module _ (malloc : ℕ → Option Bytes) (capacity : ℕ) where
  compose-Extends :
      (opcode first second : Bytes) (b : StringBuffer)
      → Holds capacity [] b
      → length (joined opcode first second) < capacity
      → (b' : StringBuffer) × (compose malloc opcode first second b ≡ done b')
        × Holds capacity (joined opcode first second) b'
  unfolding compose
  compose-Extends opcode first second b holds h =
      let bound = length-joined opcode first second in
      let l1 = length-append opcode (separator ∷ []) in
      let l2 = length-append (opcode ++ separator ∷ []) first in
      let l3 = length-append ((opcode ++ separator ∷ []) ++ first) (separator ∷ []) in
      and_then-Extends capacity ((opcode ++ separator ∷ []) ++ first) (separator ∷ []) second _ _
        (and_then-Extends capacity (opcode ++ separator ∷ []) first (separator ∷ []) _ _
          (and_then-Extends capacity opcode (separator ∷ []) first _ _
            (and_then-Extends capacity [] opcode (separator ∷ []) _ _
              (append_str_within malloc capacity [] opcode b holds (omega arith))
              λ c k. append_chr_within malloc capacity opcode separator c k (omega arith))
            λ c k.
              append_str_within malloc capacity (opcode ++ separator ∷ []) first c k (omega arith))
          λ c k.
            append_chr_within malloc capacity ((opcode ++ separator ∷ []) ++ first) separator c k
              (omega arith))
        λ c k. append_str_within malloc capacity _ second c k (omega arith)

  auth_success-Extends :
      (client_id : ℤ) (time : ℕ) (b : StringBuffer)
      → Holds capacity [] b
      → IsI64 client_id
      → time < 2 ^ 64
      → 49 < capacity
      → (b' : StringBuffer) × (compose_auth_success malloc client_id time b ≡ done b')
        × Holds capacity (joined result_auth_ok (print_i64 client_id) (print_u64 time)) b'
  unfolding compose_auth_success append_i64 append_u64 append_str compose
  auth_success-Extends client_id time b holds signed unsigned h =
      let id_bound = length-print_i64 client_id signed in
      let time_bound = length-print_u64 20 time (omega arith) (omega arith) in
      compose-Extends result_auth_ok (print_i64 client_id) (print_u64 time) b holds
        (omega (arith, length-joined result_auth_ok (print_i64 client_id) (print_u64 time)))

empty-Holds : (b : StringBuffer) → IsValid b → b.position ≡ 0 → Holds b.capacity [] b
unfolding to_binary
empty-Holds b v e = record { valid = v; same = ap (λ n. take n b.block) e; at = e; room = refl }

-- If a valid, emptied buffer has room for it, the composed message is the opcode, the first and the
-- second part with a separator between them, and nothing else is in the buffer.
pub compose_exact :
    (malloc : ℕ → Option Bytes) (opcode first second : Bytes) (b : StringBuffer)
    → IsValid b
    → b.position ≡ 0
    → length (joined opcode first second) < b.capacity
    → (b' : StringBuffer) × (compose malloc opcode first second b ≡ done b')
      × (to_binary b' ≡ joined opcode first second)
compose_exact malloc opcode first second b v e h =
    let (b', ran, holds) =
      compose-Extends malloc b.capacity opcode first second b (empty-Holds b v e) h in
    (b', ran, holds.same)

-- The answer to an accepted token is `AUTH|OK|<client id>|<time>` in decimal, for every signed
-- 64-bit client id and unsigned 64-bit time: a valid, emptied buffer of 50 bytes or more always has
-- room for it.
pub compose_auth_success_exact :
    (malloc : ℕ → Option Bytes) (client_id : ℤ) (time : ℕ) (b : StringBuffer)
    → IsValid b
    → b.position ≡ 0
    → IsI64 client_id
    → time < 2 ^ 64
    → 49 < b.capacity
    → (b' : StringBuffer) × (compose_auth_success malloc client_id time b ≡ done b')
      × (to_binary b' ≡ joined result_auth_ok (print_i64 client_id) (print_u64 time))
compose_auth_success_exact malloc client_id time b v e signed unsigned h =
    let (b', ran, holds) =
      auth_success-Extends malloc b.capacity client_id time b (empty-Holds b v e) signed unsigned
        h in
    (b', ran, holds.same)
