-- ===== src/Message/Read.antt =====
-- src/session/session-ws.c: what the readers make of a client's message.
use pomelo_udp_webrtc_plugin.Base.{
  ℕ, zero, suc, ◌+◌, ◌^◌, ◌≤◌, ◌<◌, ◌≡◌, ◌≢◌, ◌⊎◌, refl, inl, inr, Bool-cases, true, false, some,
  [], ◌∷◌, ◌++◌, append_assoc, Bytes, ltb, ◌==◌, length, take, drop, length-append, take-append,
  All, arith,
}
use pomelo_udp_webrtc_plugin.Label.{bytes_eq}
use pomelo_udp_webrtc_plugin.Label.Parse.{bytes_eq_self}
use pomelo_udp_webrtc_plugin.Message.{
  separator, opcode_description, opcode_candidate, opcode_ready, opcode_cmp, c_str, found, absent,
  strchr, Request, overread, description, candidate, read_parts, read_description, read_candidate,
  read_ready, read_authenticated,
}
use pomelo_udp_webrtc_plugin.Message.Compose.{joined, length-joined}

-- Bytes of a C string, and of a part in front of a separator.
abbrev pub IsText : Bytes → Type 0
IsText = All (λ c. c ≢ 0)

abbrev pub IsPart : Bytes → Type 0
IsPart = All (λ c. (c ≢ 0) × (c ≢ separator))

c_str-text : (s : Bytes) → IsText s → c_str (s ++ 0 ∷ []) ≡ some s
unfolding c_str
c_str-text [] h = refl
c_str-text (c ∷ s) (h, hs) = ground (arith, c_str-text s hs)

pub strchr-part :
    (before behind : Bytes)
    → IsPart before
    → strchr (before ++ separator ∷ behind) ≡ found before behind
unfolding strchr
strchr-part [] behind h = refl
strchr-part (c ∷ s) behind ((h, k), hs) = ground (arith, strchr-part s behind hs)

read_parts-joined :
    (request : Bytes → Bytes → Request) (first second : Bytes)
    → IsPart first
    → IsText second
    → read_parts request (first ++ separator ∷ (second ++ 0 ∷ [])) ≡ request first second
unfolding read_parts
read_parts-joined request first second h k =
    rw (strchr-part first (second ++ 0 ∷ []) h, read_parts, c_str-text second k)

regroup :
    (opcode first second : Bytes)
    → joined opcode first second ++ 0 ∷ []
      ≡ opcode ++ (separator ∷ (first ++ separator ∷ (second ++ 0 ∷ [])))
regroup opcode first second = simp append_assoc

pub opcode_cmp-prefix : (opcode rest : Bytes) → opcode_cmp (opcode ++ rest) opcode ≡ some true
unfolding opcode_cmp
opcode_cmp-prefix opcode rest =
    let long : ltb (length (opcode ++ rest)) (length opcode) ≡ false =
      ground (arith, length-append opcode rest) in
    rw (long, take-append (length opcode) opcode rest refl, bytes_eq_self opcode)

candidate_is_no_description :
    (rest : Bytes) → opcode_cmp (opcode_candidate ++ rest) opcode_description ≡ some false
unfolding opcode_cmp bytes_eq
candidate_is_no_description rest = ground arith

-- What follows the opcode and its separator goes to the handler of the opcode.
pub read_authenticated-description :
    (rest : Bytes)
    → 2 ≤ length rest
    → length rest + 5 < 2 ^ 64
    → read_authenticated (opcode_description ++ (separator ∷ rest)) ≡ read_parts description rest
unfolding read_authenticated read_description
read_authenticated-description rest h k =
    rw (opcode_cmp-prefix opcode_description (separator ∷ rest), read_authenticated) (ground arith)

pub read_authenticated-candidate :
    (rest : Bytes)
    → read_authenticated (opcode_candidate ++ (separator ∷ rest)) ≡ read_parts candidate rest
unfolding read_authenticated read_candidate
read_authenticated-candidate rest = rw (
  candidate_is_no_description (separator ∷ rest),
  read_authenticated,
  opcode_cmp-prefix opcode_candidate (separator ∷ rest),
)

-- A text `DESC|<type>|<sdp>` is read as this description, and `CAND|<mid>|<candidate>` as this
-- candidate, if no part holds a NUL, the first one holds no separator, and the block is smaller
-- than 2^64.
pub read_authenticated-joined :
    (first second : Bytes)
    → IsPart first
    → IsText second
    → (length (joined opcode_description first second) + 1 < 2 ^ 64)
    → (read_authenticated (joined opcode_description first second ++ 0 ∷ [])
        ≡ description first second)
      × (read_authenticated (joined opcode_candidate first second ++ 0 ∷ [])
          ≡ candidate first second)
read_authenticated-joined first second h k small = (
  rw
      (
        regroup opcode_description first second,
        read_authenticated-description rest (omega (arith, long)) (omega (arith, long, total)),
      )
      (read_parts-joined description first second h k),
  rw (regroup opcode_candidate first second, read_authenticated-candidate rest)
      (read_parts-joined candidate first second h k),
)
  where
    rest : Bytes
    rest = first ++ separator ∷ (second ++ 0 ∷ [])

    long : length rest ≡ length first + length second + 2
    long =
        omega (
          arith,
          length-append first (separator ∷ (second ++ 0 ∷ [])),
          length-append second (0 ∷ []),
        )

    total : length (joined opcode_description first second) ≡ length first + length second + 6
    total = omega (arith, length-joined opcode_description first second)

-- A text of one NUL at its end is searched within its block: the separator is found in front of such
-- a text, or there is none.
strchr-IsText :
    (s : Bytes)
    → IsText s
    → (strchr (s ++ 0 ∷ []) ≡ absent)
      ⊎ ((before behind : Bytes) × IsText behind
          × (strchr (s ++ 0 ∷ []) ≡ found before (behind ++ 0 ∷ [])))
unfolding strchr
strchr-IsText [] h = inl refl
strchr-IsText (c ∷ s) (h, hs) = elim (Bool-cases (c == separator)) [
  | inl here ↦ inr ([], s, hs, ground arith)
  | inr other ↦ elim (strchr-IsText s hs) [
    | inl gone ↦ inl (ground (arith, gone))
    | inr (before, behind, k, e) ↦ inr (c ∷ before, behind, k, ground (arith, e))
  ]
]

read_parts-text :
    (request : Bytes → Bytes → Request) (s : Bytes)
    → ((a b : Bytes) → request a b ≢ overread)
    → IsText s
    → read_parts request (s ++ 0 ∷ []) ≢ overread
unfolding read_parts
read_parts-text request s safe h = elim (strchr-IsText s h) [
  | inl gone ↦ rw (gone, read_parts) (λ e. cc)
  | inr (before, behind, k, e) ↦ rw (e, read_parts, c_str-text behind k) (safe before behind)
]

opcode_cmp-long :
    (message opcode : Bytes)
    → length opcode ≤ length message
    → opcode_cmp message opcode ≡ some (bytes_eq (take (length opcode) message) opcode)
unfolding opcode_cmp
opcode_cmp-long message opcode h = ground arith

drop-text : (n : ℕ) (s : Bytes) → n ≤ length s → drop n (s ++ 0 ∷ []) ≡ drop n s ++ 0 ∷ []
drop-text zero s h = refl
drop-text (suc n) [] h = absurd (omega arith)
drop-text (suc n) (c ∷ s) h = drop-text n s (omega arith)

IsText-drop : (n : ℕ) (s : Bytes) → IsText s → IsText (drop n s)
IsText-drop zero s h = h
IsText-drop (suc n) [] h = tt
IsText-drop (suc n) (c ∷ s) (h, hs) = IsText-drop n s hs

read_description-text : (s : Bytes) (n : ℕ) → IsText s → read_description (s ++ 0 ∷ []) n ≢ overread
unfolding read_description
read_description-text s n h = elim (Bool-cases (n == 0)) [
  | inl empty ↦ rw empty (λ e. cc)
  | inr full ↦ rw full (read_parts-text description s (λ a b e. cc) h)
]

read_candidate-text : (s : Bytes) → IsText s → read_candidate (s ++ 0 ∷ []) ≢ overread
unfolding read_candidate
read_candidate-text s h = read_parts-text candidate s (λ a b e. cc) h

read_ready-ne-overread : (m : Bytes) → 5 ≤ length m → read_ready m ≢ overread
unfolding read_ready
read_ready-ne-overread m h = ground (arith, opcode_cmp-long m opcode_ready)

-- A text of five characters or more, none of them NUL, is never read past its end.
read_authenticated-ne-overread :
    (s : Bytes) → IsText s → 5 ≤ length s → read_authenticated (s ++ 0 ∷ []) ≢ overread
unfolding read_authenticated
read_authenticated-ne-overread s h k =
    elim (Bool-cases (bytes_eq (take 4 (s ++ 0 ∷ [])) opcode_description)) [
      | inl d ↦
          rw
            (
              opcode_cmp-long (s ++ 0 ∷ []) opcode_description (omega (arith, size)),
              read_authenticated,
              d,
              drop-text 5 s k,
            )
            (read_description-text (drop 5 s) _ (IsText-drop 5 s h))
      | inr no_d ↦ elim (Bool-cases (bytes_eq (take 4 (s ++ 0 ∷ [])) opcode_candidate)) [
        | inl c ↦
            rw
              (
                opcode_cmp-long (s ++ 0 ∷ []) opcode_description (omega (arith, size)),
                read_authenticated,
                no_d,
                opcode_cmp-long (s ++ 0 ∷ []) opcode_candidate (omega (arith, size)),
                c,
                drop-text 5 s k,
              )
              (read_candidate-text (drop 5 s) (IsText-drop 5 s h))
        | inr no_c ↦
            rw
              (
                opcode_cmp-long (s ++ 0 ∷ []) opcode_description (omega (arith, size)),
                read_authenticated,
                no_d,
                opcode_cmp-long (s ++ 0 ∷ []) opcode_candidate (omega (arith, size)),
                no_c,
              )
              (read_ready-ne-overread (s ++ 0 ∷ []) (omega (arith, size)))
      ]
    ]
  where
    size : length (s ++ 0 ∷ []) ≡ length s + 1
    size = length-append s (0 ∷ [])
