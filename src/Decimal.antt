-- ===== src/Decimal.antt =====
-- Decimal numerals: what `sprintf` prints of a `uint64_t`, an `int64_t` and a `size_t`
-- (src/utils/string-buffer.c, src/channel/channel-dc.c), and their value.
use mathlib.Core.List.{concat-ne-nil}
use native.Mathlib.Nat.{pow-suc}
use pomelo_udp_webrtc_plugin.Base.{
  ℕ, zero, suc, ◌+◌, ◌-◌, ◌*◌, ◌/◌, ◌%◌, ◌^◌, ◌≤◌, ◌<◌, ◌≡◌, ◌≢◌, refl, inl, inr, Bool-cases, List,
  [], ◌∷◌, ◌++◌, Bytes, ltb, if◌then◌else◌, length, length-append, All, arith,
}

-- The digits that `%zu` and `PRIu64` print, most significant first; `fuel` bounds their number.
unfoldable pub digits : ℕ → ℕ → Bytes
digits zero n = []
digits (suc fuel) n =
    let more = digits fuel (n / 10) ++ (b'0' + n % 10) ∷ [] in
    if ltb n 10 then (b'0' + n) ∷ [] else more

-- A 64-bit number has at most 20 digits.
unfoldable pub print_u64 : ℕ → Bytes
unfolding digits
print_u64 n = digits 20 n

-- `PRIi64` prints a sign before the digits of the absolute value.
pub data ℤ : Type 0 where
  pos : ℕ → ℤ
  negsuc : ℕ → ℤ

unfoldable pub print_i64 : ℤ → Bytes
unfolding print_u64
print_i64 (pos n) = print_u64 n
print_i64 (negsuc n) = b'-' ∷ print_u64 (suc n)

abbrev pub IsDigit : ℕ → Type 0
IsDigit c = (b'0' ≤ c) × (c ≤ b'9')

-- The number that digits spell behind `n`, with no bound.
abbrev pub value : ℕ → Bytes → ℕ
value n [] = n
value n (c ∷ s) = value (n * 10 + (c - b'0')) s

pub value-append : (s t : Bytes) (n : ℕ) → value n (s ++ t) ≡ value (value n s) t
value-append [] t n = refl
value-append (c ∷ s) t n = value-append s t (n * 10 + (c - b'0'))

pub All-append {ℓ κ} :
    {A : Type ℓ} (P : A → Type κ) (xs ys : List A) → All P xs → All P ys → All P (xs ++ ys)
All-append P [] ys h k = k
All-append P (x ∷ xs) ys (h, hs) k = (h, All-append P xs ys hs k)

digits-IsDigit : (fuel n : ℕ) → All IsDigit (digits fuel n)
unfolding digits
digits-IsDigit zero n = tt
digits-IsDigit (suc fuel) n = elim (Bool-cases (ltb n 10)) [
  | inl last ↦ rw last ((omega arith, ground arith), tt)
  | inr more ↦ rw more (
      All-append IsDigit (digits fuel (n / 10)) _ (digits-IsDigit fuel (n / 10))
        ((omega arith, omega arith), tt))
]

-- With fuel for `k` digits a number below `10 ^ k` is printed in full.
value-digits : (fuel n : ℕ) → n < 10 ^ fuel → value 0 (digits fuel n) ≡ n
unfolding digits
value-digits zero n h = omega arith
value-digits (suc fuel) n h = elim (Bool-cases (ltb n 10)) [
  | inl last ↦ rw last (omega arith)
  | inr more ↦
      rw
        (
          more,
          value-append (digits fuel (n / 10)) ((b'0' + n % 10) ∷ []) 0,
          value-digits fuel (n / 10) (omega (arith, pow-suc 10 fuel)),
        )
        (omega arith)
]

length-digits : (fuel k n : ℕ) → 0 < k → n < 10 ^ k → length (digits fuel n) ≤ k
unfolding digits
length-digits zero k n h l = omega arith
length-digits (suc fuel) zero n h l = absurd (omega arith)
length-digits (suc fuel) (suc k) n h l = elim (Bool-cases (ltb n 10)) [
  | inl last ↦ rw last (omega arith)
  | inr more ↦
      rw (more, length-append (digits fuel (n / 10)) ((b'0' + n % 10) ∷ []))
        (omega (
          arith,
          length-digits fuel k (n / 10) (pos_k k l (ground arith)) (omega (arith, pow-suc 10 k)),
        ))
]
  where
    pos_k : (j : ℕ) → n < 10 ^ suc j → 10 ≤ n → 0 < j
    pos_k zero a b = omega arith
    pos_k (suc j) a b = omega arith

digits-ne-nil : (fuel n : ℕ) → digits (suc fuel) n ≢ []
unfolding digits
digits-ne-nil fuel n = elim (Bool-cases (ltb n 10)) [
  | inl last ↦ rw last (λ e. cc)
  | inr more ↦ rw more (concat-ne-nil (b'0' + n % 10) (digits fuel (n / 10)))
]

pub value-print_u64 : (n : ℕ) → n < 2 ^ 64 → value 0 (print_u64 n) ≡ n
unfolding print_u64
value-print_u64 n h = value-digits 20 n (omega arith)

pub print_u64-IsDigit : (n : ℕ) → All IsDigit (print_u64 n)
unfolding print_u64
print_u64-IsDigit n = digits-IsDigit 20 n

pub print_u64-ne-nil : (n : ℕ) → print_u64 n ≢ []
unfolding print_u64
print_u64-ne-nil n = digits-ne-nil 19 n

pub length-print_u64 : (k n : ℕ) → 0 < k → n < 10 ^ k → length (print_u64 n) ≤ k
unfolding print_u64
length-print_u64 k n h l = length-digits 20 k n h l

-- An `int64_t`.
abbrev pub IsI64 : ℤ → Type 0
IsI64 (pos n) = n < 2 ^ 63
IsI64 (negsuc n) = n < 2 ^ 63

-- The longest print of an `int64_t` has 20 characters, so that it and its NUL fit 21 bytes.
pub length-print_i64 : (z : ℤ) → IsI64 z → length (print_i64 z) ≤ 20
unfolding print_i64 print_u64
length-print_i64 (pos n) h = length-print_u64 20 n (omega arith) (omega arith)
length-print_i64 (negsuc n) h =
    omega (arith, length-digits 20 19 (suc n) (omega arith) (omega arith))
