-- ===== src/StringBuffer/Within.antt =====
-- src/utils/string-buffer.c: appends that the block has room for, one after another.
use pomelo_udp_webrtc_plugin.Base.{
  ℕ, ◌+◌, ◌<◌, ◌≡◌, refl, ap, ◌∙◌, false, Option, [], ◌∷◌, ◌++◌, append-nil, Bytes, ◌==◌, length,
  length-append, u64, arith,
}
use pomelo_udp_webrtc_plugin.StringBuffer.{
  StringBuffer, Outcome, done, ensure_capacity, to_binary, write_if_ensured, append_bin, append_str,
  append_chr,
}
use pomelo_udp_webrtc_plugin.StringBuffer.Growth.{
  IsValid, written, write_fits, to_binary-written, written-IsValid,
}

-- A valid buffer of this capacity with these contents.
pub record Holds (capacity : ℕ) (content : Bytes) (b : StringBuffer) : Type 0 where
  pub valid : IsValid b
  pub same : to_binary b ≡ content
  pub at : b.position ≡ length content
  pub room : b.capacity ≡ capacity

-- The outcome of an append that adds `value` to `content`.
abbrev pub Extends : ℕ → Bytes → Bytes → Outcome → Type 0
Extends capacity content value o =
    (b : StringBuffer) × (o ≡ done b) × Holds capacity (content ++ value) b

module _ (malloc : ℕ → Option Bytes) where
  ensure_within :
      (b : StringBuffer) (needed : ℕ)
      → needed < b.capacity
      → ensure_capacity malloc b needed ≡ done b
  unfolding ensure_capacity
  ensure_within b needed h = ground arith

  write_within :
      (capacity : ℕ) (content value : Bytes) (b : StringBuffer)
      → Holds capacity content b
      → length content + length value < capacity
      → Extends capacity content value
          (write_if_ensured (ensure_capacity malloc b (u64 (b.position + length value))) value)
  unfolding write_if_ensured
  write_within capacity content value b holds h =
      let v = holds.valid in
      let capped = v.capped in
      let fits : u64 (b.position + length value) ≡ b.position + length value =
        omega (arith, holds.at, holds.room, capped) in
      (
        written b value,
        rw (fits, ensure_within b (b.position + length value) (omega (arith, holds.at, holds.room)))
            (write_fits b value (omega (arith, holds.at, holds.room, v.sized))),
        record {
          valid = written-IsValid b value v (omega (arith, holds.at, holds.room));
          same =
              to_binary-written b value (omega (arith, v.sized, v.within))
              ∙ ap (λ c. c ++ value) holds.same;
          at = omega (arith, holds.at, length-append content value);
          room = holds.room;
        },
      )

  pub append_bin_within :
      (capacity : ℕ) (content value : Bytes) (b : StringBuffer)
      → Holds capacity content b
      → length content + length value < capacity
      → Extends capacity content value (append_bin malloc b value)
  unfolding append_bin
  append_bin_within capacity content [] b holds h = (b, refl, rw append-nil holds)
  append_bin_within capacity content (x ∷ xs) b holds h =
      let some_bytes : (length (x ∷ xs) == 0) ≡ false = ground arith in
      rw some_bytes (write_within capacity content (x ∷ xs) b holds h)

  pub append_str_within :
      (capacity : ℕ) (content value : Bytes) (b : StringBuffer)
      → Holds capacity content b
      → length content + length value < capacity
      → Extends capacity content value (append_str malloc b value)
  unfolding append_str append_bin
  append_str_within capacity content value b holds h =
      append_bin_within capacity content value b holds h

  pub append_chr_within :
      (capacity : ℕ) (content : Bytes) (c : ℕ) (b : StringBuffer)
      → Holds capacity content b
      → length content + 1 < capacity
      → Extends capacity content (c ∷ []) (append_chr malloc b c)
  unfolding append_chr
  append_chr_within capacity content c b holds h = write_within capacity content (c ∷ []) b holds h
