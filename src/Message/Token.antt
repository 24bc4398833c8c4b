-- ===== src/Message/Token.antt =====
-- src/session/session-ws.c: which message is taken for a connect token.
use pomelo_udp_webrtc_plugin.Base.{
  ℕ, zero, suc, ◌+◌, ◌-◌, ◌^◌, ◌<◌, ◌≡◌, ◌≢◌, ◌↔◌, refl, sym, ap, ◌∙◌, true, false, some, [], ◌∷◌,
  ◌++◌, Bytes, u64, leb, length, take, drop, length-append, length-take, length-drop, take-append,
  take-append-drop, arith,
}
use pomelo_udp_webrtc_plugin.Label.{bytes_eq}
use pomelo_udp_webrtc_plugin.Label.Parse.{bytes_eq→eq}
use pomelo_udp_webrtc_plugin.Message.{opcode_auth, opcode_cmp, auth, read_unauthenticated}
use pomelo_udp_webrtc_plugin.Message.Read.{opcode_cmp-prefix}

-- `AUTH`, any one byte, the token, and any last byte.
abbrev pub IsAuth : Bytes → Bytes → Type 0
IsAuth message token =
    (c : ℕ) × (last : ℕ) × (token ≢ []) × (message ≡ opcode_auth ++ (c ∷ (token ++ last ∷ [])))

read_token :
    (message : Bytes)
    → 6 < length message
    → length message < 2 ^ 64
    → opcode_cmp message opcode_auth ≡ some true
    → read_unauthenticated message ≡ auth (take (length message - 6) (drop 5 message))
unfolding read_unauthenticated
read_token message h k e =
    let exact : u64 (length message + 2 ^ 64 - 1) ≡ length message - 1 = omega arith in
    let long : leb (length message - 1) 5 ≡ false = ground arith in
    let less : u64 (length message + 2 ^ 64 - 1) - 5 ≡ length message - 6 = omega arith in
    rw (exact, long, e) (ap (λ n. auth (take n (drop 5 message))) less)

auth_complete :
    (message token : Bytes)
    → length message < 2 ^ 64
    → IsAuth message token
    → read_unauthenticated message ≡ auth token
auth_complete message token small (c, last, h, e) =
    read_token message
      (omega (arith, ap length e, length-append token (last ∷ []), nonempty token h)) small
      (rw e (opcode_cmp-prefix opcode_auth (c ∷ (token ++ last ∷ []))))
    ∙ ap auth (rw (size, e) (take-append (length token) token (last ∷ []) refl))
  where
    nonempty : (t : Bytes) → t ≢ [] → 0 < length t
    nonempty [] n = absurd (n refl)
    nonempty (x ∷ xs) n = omega arith

    size : length message - 6 ≡ length token
    size = omega (arith, ap length e, length-append token (last ∷ []))

unsnoc : (n : ℕ) (s : Bytes) → length s ≡ suc n → (last : ℕ) × (s ≡ take n s ++ last ∷ [])
unsnoc n [] h = absurd (omega arith)
unsnoc zero (c ∷ []) h = (c, refl)
unsnoc zero (c ∷ d ∷ s) h = absurd (omega arith)
unsnoc (suc n) (c ∷ s) h = let (last, e) = unsnoc n s (omega arith) in (last, ap (◌∷◌ c) e)

-- An accepted message is long enough and begins with the opcode.
auth_needs :
    (message token : Bytes)
    → length message < 2 ^ 64
    → message ≢ []
    → read_unauthenticated message ≡ auth token
    → (6 < length message) × (opcode_cmp message opcode_auth ≡ some true)
unfolding read_unauthenticated
auth_needs [] token small nonempty h = absurd (nonempty refl)
auth_needs (x ∷ xs) token small nonempty h = ground arith

drop_step : (n : ℕ) (s : Bytes) → n < length s → (c : ℕ) × (drop n s ≡ c ∷ drop (suc n) s)
drop_step n [] h = absurd (omega arith)
drop_step zero (c ∷ s) h = (c, refl)
drop_step (suc n) (c ∷ s) h = drop_step n s (omega arith)

token_parts :
    (message : Bytes)
    → 6 < length message
    → opcode_cmp message opcode_auth ≡ some true
    → IsAuth message (take (length message - 6) (drop 5 message))
unfolding opcode_cmp
token_parts message h e =
    let same : bytes_eq (take 4 message) opcode_auth ≡ true = ground arith in
    let (c, behind) = drop_step 4 message (omega arith) in
    let (last, ends) =
      unsnoc (length message - 6) (drop 5 message) (omega (arith, length-drop 5 message)) in
    (
      c,
      last,
      (λ empty. omega (
        arith,
        ap length empty,
        length-take (length message - 6) (drop 5 message),
        length-drop 5 message,
      )),
      sym (take-append-drop 4 message)
          ∙ ap (λ p. p ++ drop 4 message) (bytes_eq→eq (take 4 message) opcode_auth same)
          ∙ ap (◌++◌ opcode_auth) (behind ∙ ap (◌∷◌ c) ends),
    )

-- Before authentication a non-empty message (of a size below 2^64) is taken for a token exactly if
-- it is `AUTH`, one byte, the token, which is not empty, and one last byte.
pub read_unauthenticated_iff :
    (message token : Bytes)
    → message ≢ []
    → length message < 2 ^ 64
    → (read_unauthenticated message ≡ auth token) ↔ IsAuth message token
read_unauthenticated_iff message token nonempty small = (forward, auth_complete message token small)
  where
    forward : read_unauthenticated message ≡ auth token → IsAuth message token
    forward h =
        let (long, begins) = auth_needs message token small nonempty h in
        let read = read_token message long small begins in
        let same : auth token ≡ auth (take (length message - 6) (drop 5 message)) = sym h ∙ read in
        let e : token ≡ take (length message - 6) (drop 5 message) = cc in
        rw e (token_parts message long begins)
