-- ===== src/Label/Parse.antt =====
-- src/session/session-pc.c: which labels name a channel, and which channel; src/channel/channel-dc.c:
-- the labels that the server gives.
use mathlib.Core.List.{append_cancel_left}
use pomelo_udp_webrtc_plugin.Base.{
  ℕ, ◌+◌, ◌-◌, ◌*◌, ◌^◌, ◌≤◌, ◌<◌, ◌≡◌, ◌≢◌, refl, sym, ap, ◌∙◌, true, false, ◌↔◌, inl, inr,
  Bool-cases, some, [], ◌∷◌, ◌++◌, Bytes, leb, ◌==◌, u64, length, take, drop, length-append,
  take-append-drop, length-drop, All, arith,
}
use pomelo_udp_webrtc_plugin.Decimal.{
  print_u64, value, IsDigit, value-print_u64, print_u64-IsDigit, print_u64-ne-nil, length-print_u64,
}
use pomelo_udp_webrtc_plugin.Label.{
  system_index, server_prefix, client_prefix, channel_name_capacity, server_label, bytes_eq, scan,
  parse_channel_label,
}

pub bytes_eq_self : (xs : Bytes) → bytes_eq xs xs ≡ true
unfolding bytes_eq
bytes_eq_self [] = refl
bytes_eq_self (x ∷ xs) = ground (arith, bytes_eq_self xs)

pub bytes_eq→eq : (xs ys : Bytes) → bytes_eq xs ys ≡ true → xs ≡ ys
unfolding bytes_eq
bytes_eq→eq [] [] h = refl
bytes_eq→eq [] (y ∷ ys) h = cc
bytes_eq→eq (x ∷ xs) [] h = cc
bytes_eq→eq (x ∷ xs) (y ∷ ys) h = ground (arith, bytes_eq→eq xs ys)

-- The value in 64 bits does not depend on where the remainder is taken.
value_mod : (s : Bytes) (n m : ℕ) → u64 n ≡ u64 m → u64 (value n s) ≡ u64 (value m s)
value_mod [] n m h = h
value_mod (c ∷ s) n m h = value_mod s (n * 10 + (c - b'0')) (m * 10 + (c - b'0')) (omega arith)

scan_sound :
    (s : Bytes) (n r : ℕ) → scan s n ≡ some r → n < 2 ^ 64 → All IsDigit s × (r ≡ u64 (value n s))
unfolding scan
scan_sound [] n r h l = (tt, ground arith)
scan_sound (c ∷ s) n r h l =
    let (a, b) = scan_sound s (u64 (n * 10 + (c - b'0'))) r (ground arith) (omega arith) in
    (
      (ground arith, a),
      b ∙ value_mod s (u64 (n * 10 + (c - b'0'))) (n * 10 + (c - b'0')) (omega arith),
    )

scan_complete : (s : Bytes) (n : ℕ) → All IsDigit s → n < 2 ^ 64 → scan s n ≡ some (u64 (value n s))
unfolding scan
scan_complete [] n h l = ground arith
scan_complete (c ∷ s) n (h, hs) l =
    let ih = scan_complete s (u64 (n * 10 + (c - b'0'))) hs (omega arith) in
    ground (arith, ih, value_mod s (u64 (n * 10 + (c - b'0'))) (n * 10 + (c - b'0')) (omega arith))

-- What a label must be to name the channel `index`: the prefix and then digits, one at least.
abbrev pub Names : Bytes → ℕ → Type 0
Names label index =
    (ds : Bytes) × (label ≡ client_prefix ++ ds)
    × (ds ≢ [])
    × All IsDigit ds
    × (index ≡ u64 (value 0 ds))

parse_behind_prefix : (ds : Bytes) → ds ≢ [] → parse_channel_label (client_prefix ++ ds) ≡ scan ds 0
unfolding parse_channel_label
parse_behind_prefix [] h = absurd (h refl)
parse_behind_prefix (d ∷ ds) h =
    let long : leb (length (client_prefix ++ d ∷ ds)) (length client_prefix) ≡ false =
      ground arith in
    rw (long, bytes_eq_self client_prefix)

parse_sound :
    (label : Bytes) (index : ℕ) → parse_channel_label label ≡ some index → Names label index
unfolding parse_channel_label
parse_sound label index h = elim (Bool-cases (leb (length label) (length client_prefix))) [
  | inl short ↦ absurd (ground arith)
  | inr long ↦ elim (Bool-cases (bytes_eq (take (length client_prefix) label) client_prefix)) [
    | inr other ↦ absurd (ground arith)
    | inl same ↦
        let ds = drop (length client_prefix) label in
        let found : scan ds 0 ≡ some index = ground arith in
        let (all_digits, exact) = scan_sound ds 0 index found (omega arith) in
        (
          ds,
          sym (take-append-drop (length client_prefix) label)
              ∙ ap (λ p. p ++ ds) (bytes_eq→eq _ _ same),
          (λ e. omega (arith, ap length e, length-drop (length client_prefix) label, gt long)),
          all_digits,
          exact,
        )
  ]
]
  where
    gt : leb (length label) (length client_prefix) ≡ false → length client_prefix < length label
    gt l = ground arith

-- The parser accepts a label exactly if it is the client prefix followed by one or more decimal
-- digits, and then yields the number that the digits spell, reduced modulo 2 ^ 64.
pub parse_channel_label_iff :
    (label : Bytes) (index : ℕ) → (parse_channel_label label ≡ some index) ↔ Names label index
parse_channel_label_iff label index = (
  parse_sound label index,
  λ (ds, spelled, nonempty, all_digits, exact). rw (
    spelled,
    parse_behind_prefix ds nonempty,
    scan_complete ds 0 all_digits (omega arith),
    exact,
  ),
)

-- The label that a client prints for an index below 2 ^ 64 is read back as that index.
parse_channel_label-print :
    (index : ℕ)
    → index < 2 ^ 64
    → parse_channel_label (client_prefix ++ print_u64 index) ≡ some index
parse_channel_label-print index h =
    rw
      (
        parse_behind_prefix (print_u64 index) (print_u64-ne-nil index),
        scan_complete (print_u64 index) 0 (print_u64-IsDigit index) (omega arith),
        value-print_u64 index h,
      )
      (ap some (omega arith))

-- Two 64-bit indexes with the same server label are the same index.
server_label_injective :
    (i j : ℕ) → i < 2 ^ 64 → j < 2 ^ 64 → server_label i ≡ server_label j → i ≡ j
unfolding server_label
server_label_injective i j hi hj e = elim (Bool-cases (i == system_index)) [
  | inl si ↦ elim (Bool-cases (j == system_index)) [ inl sj ↦ ground arith | inr nj ↦ ground arith ]
  | inr ni ↦ elim (Bool-cases (j == system_index)) [
    | inl sj ↦ ground arith
    | inr nj ↦ numbered ni nj
  ]
]
  where
    numbered : (i == system_index) ≡ false → (j == system_index) ≡ false → i ≡ j
    numbered ni nj =
        let behind : server_prefix ++ print_u64 i ≡ server_prefix ++ print_u64 j = ground arith in
        let same = append_cancel_left server_prefix (print_u64 i) (print_u64 j) behind in
        sym (value-print_u64 i hi) ∙ ap (value 0) same ∙ value-print_u64 j hj

-- With its NUL the server label fits the name buffer, for every index below 10 ^ 11.
server_label_fits :
    (index : ℕ) → index < 10 ^ 11 → length (server_label index) + 1 ≤ channel_name_capacity
unfolding server_label
server_label_fits index h = ground (
  arith,
  length-print_u64 11 index (omega arith) h,
  length-append server_prefix (print_u64 index),
)
