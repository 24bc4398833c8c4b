-- ===== src/StringBuffer/Contents.antt =====
-- src/utils/string-buffer.c: what each append leaves in the buffer, on every branch.
use pomelo_udp_webrtc_plugin.Base.{
  ℕ, ◌+◌, ◌*◌, ◌^◌, ◌≤◌, ◌<◌, ◌≡◌, ◌≢◌, subst, refl, sym, ap, ◌∙◌, ◌⊎◌, true, false, Option, none,
  some, [], ◌∷◌, ◌++◌, append-nil, inl, inr, Bytes, leb, ltb, ◌==◌, Bool-cases, Option-cases,
  length, u64, arith,
}
use pomelo_udp_webrtc_plugin.StringBuffer.{
  StringBuffer, Outcome, done, failed, overrun, write, grown, ensure_capacity, to_binary,
  max_capacity, write_if_ensured, append_bin, append_str, append_chr,
}
use pomelo_udp_webrtc_plugin.StringBuffer.Growth.{
  Allocates, IsValid, write_fits, write_overrun, to_binary-written, written-IsValid, refilled,
  move_lem, moved-IsValid, to_binary-moved, grown_bounds, grown_short, grown-le,
}

-- What a request for `needed` bytes may end in.
abbrev Ensured : (ℕ → Option Bytes) → StringBuffer → ℕ → Outcome → Type 0
Ensured malloc b needed (done b') =
    IsValid b'
    × (to_binary b' ≡ to_binary b)
    × (b'.position ≡ b.position)
    × (((needed < b.capacity) × (b'.capacity ≡ b.capacity))
        ⊎ ((b.capacity ≤ needed) × (needed < max_capacity) × (b'.capacity ≡ grown b.capacity)))
Ensured malloc b needed (failed b') =
    (b' ≡ b)
    × (b.capacity ≤ needed)
    × ((max_capacity ≤ needed) ⊎ (malloc (grown b.capacity) ≡ none))
Ensured malloc b needed overrun = ⊥

-- What an append of `value` may end in.
abbrev pub Appended : (ℕ → Option Bytes) → StringBuffer → Bytes → Outcome → Type 0
Appended malloc b value (done b') =
    IsValid b' × (to_binary b' ≡ to_binary b ++ value) × (b'.position ≡ b.position + length value)
Appended malloc b value (failed b') =
    (b' ≡ b)
    × (b.capacity ≤ b.position + length value)
    × ((max_capacity ≤ b.position + length value) ⊎ (malloc (grown b.capacity) ≡ none))
Appended malloc b value overrun =
    (2 * b.capacity < b.position + length value) × (b.position + length value < max_capacity)

module _ (malloc : ℕ → Option Bytes) (allocates : Allocates malloc) where
  ensure_capacity-Ensured :
      (b : StringBuffer) (needed : ℕ)
      → IsValid b
      → Ensured malloc b needed (ensure_capacity malloc b needed)
  unfolding ensure_capacity
  ensure_capacity-Ensured b needed v = elim (Bool-cases (ltb needed b.capacity)) [
    | inl fits ↦ rw fits (v, refl, refl, inl (ground arith, refl))
    | inr more ↦ elim (Bool-cases (leb max_capacity needed)) [
      | inl huge ↦ rw (more, huge) (refl, ground arith, inl (ground arith))
      | inr small ↦ elim (Option-cases (malloc (grown b.capacity))) [
        | inl null ↦ rw (more, small, null) (refl, ground arith, inr null)
        | inr (block, e) ↦
            let bounds = grown_bounds b.capacity v.capped in
            let sized = allocates (grown b.capacity) block e in
            rw (more, small, e, move_lem b (grown b.capacity) block v bounds.0 sized)
              (
                moved-IsValid b _ block v bounds.0 bounds.1 sized,
                to_binary-moved b _ block v,
                refl,
                inr (ground arith, ground arith, refl),
              )
      ]
    ]
  ]

  -- The doubled block, where the request asks for one.
  grown_done :
      (b : StringBuffer) (needed : ℕ) (block : Bytes)
      → IsValid b
      → b.capacity ≤ needed
      → needed < max_capacity
      → malloc (grown b.capacity) ≡ some block
      → ensure_capacity malloc b needed
        ≡ done (record b { capacity = grown b.capacity; block = refilled b block })
  unfolding ensure_capacity
  grown_done b needed block v h k e =
      let more : ltb needed b.capacity ≡ false = ground arith in
      let small : leb max_capacity needed ≡ false = ground arith in
      rw (more, small, e)
        (move_lem b (grown b.capacity) block v (grown_bounds b.capacity v.capped).0
          (allocates _ block e))

  done-Appended :
      (b b' : StringBuffer) (value : Bytes)
      → IsValid b
      → Ensured malloc b (b.position + length value) (done b')
      → Appended malloc b value (write b' value)
  done-Appended b b' value v (v', same, at, how) =
      elim (Bool-cases (leb (b'.position + length value) b'.capacity)) [
        | inl fits ↦ rw (write_fits b' value (omega (arith, v'.sized, le fits))) (
          written-IsValid b' value v' (le fits),
          to_binary-written b' value (omega (arith, v'.sized, v'.within))
              ∙ ap (λ x. x ++ value) same,
          ap (λ n. n + length value) at,
        )
        | inr out ↦
            rw (write_overrun b' value (omega (arith, v'.sized, gt out))) (over (gt out) how)
      ]
    where
      le :
          leb (b'.position + length value) b'.capacity ≡ true
          → b'.position + length value ≤ b'.capacity
      le h = ground arith

      gt :
          leb (b'.position + length value) b'.capacity ≡ false
          → b'.capacity < b'.position + length value
      gt h = ground arith

      over :
          b'.capacity < b'.position + length value
          → ((b.position + length value < b.capacity) × (b'.capacity ≡ b.capacity))
            ⊎ ((b.capacity ≤ b.position + length value)
                × (b.position + length value < max_capacity)
                × (b'.capacity ≡ grown b.capacity))
          → (2 * b.capacity < b.position + length value)
            × (b.position + length value < max_capacity)
      over h (inl (f, e)) = absurd (omega arith)
      over h (inr (f, k, e)) =
          (grown_short b.capacity (b.position + length value) k (omega arith), k)

  write_if_ensured-Appended :
      (b : StringBuffer) (value : Bytes) (o : Outcome)
      → IsValid b
      → Ensured malloc b (b.position + length value) o
      → Appended malloc b value (write_if_ensured o value)
  unfolding write_if_ensured
  write_if_ensured-Appended b value (done b') v e = done-Appended b b' value v e
  write_if_ensured-Appended b value (failed b') v e = e
  write_if_ensured-Appended b value overrun v e = absurd e

  -- Where the allocator gives blocks of the size asked for, an append to a valid buffer, whose
  -- position and the length do not add up to 2^64, either adds exactly the value behind the
  -- contents and keeps the buffer valid, or returns the error and leaves the buffer as it was (only
  -- if the block would have to grow and it may not or cannot), or writes past the block; and it
  -- does the last only if more than twice the capacity is needed.
  pub append_bin-Appended :
      (b : StringBuffer) (value : Bytes)
      → IsValid b
      → b.position + length value < 2 ^ 64
      → Appended malloc b value (append_bin malloc b value)
  unfolding append_bin
  append_bin-Appended b [] v h = (v, sym (append-nil _), omega arith)
  append_bin-Appended b (x ∷ xs) v h =
      let fits : u64 (b.position + length (x ∷ xs)) ≡ b.position + length (x ∷ xs) = omega arith in
      let some_bytes : (length (x ∷ xs) == 0) ≡ false = ground arith in
      rw (some_bytes, fits)
        (write_if_ensured-Appended b (x ∷ xs) _ v
          (ensure_capacity-Ensured b (b.position + length (x ∷ xs)) v))

  -- The same of a text.
  pub append_str-Appended :
      (b : StringBuffer) (value : Bytes)
      → IsValid b
      → b.position + length value < 2 ^ 64
      → Appended malloc b value (append_str malloc b value)
  unfolding append_str append_bin
  append_str-Appended b value v h = append_bin-Appended b value v h

  -- A single byte never goes past the block.
  pub append_chr-Appended :
      (b : StringBuffer) (c : ℕ) → IsValid b → Appended malloc b (c ∷ []) (append_chr malloc b c)
  unfolding append_chr
  append_chr-Appended b c v =
      let fits : u64 (b.position + 1) ≡ b.position + 1 = omega (arith, v.within, v.capped) in
      rw fits
        (write_if_ensured-Appended b (c ∷ []) _ v (ensure_capacity-Ensured b (b.position + 1) v))

  -- Where the allocator gives blocks of the size asked for, appending a single byte to a valid
  -- buffer never writes past the block.
  pub append_chr-ne-overrun :
      (b : StringBuffer) (c : ℕ) → IsValid b → append_chr malloc b c ≢ overrun
  append_chr-ne-overrun b c v e =
      let bad = subst (Appended malloc b (c ∷ [])) e (append_chr-Appended b c v) in
      omega (arith, bad.0, v.within, v.nonempty)

  -- An append to a valid buffer writes past the block whenever more than twice the capacity, but
  -- less than the maximum, is needed and the allocator has a block (of the size asked for).
  pub append_bin_overruns :
      (b : StringBuffer) (value block : Bytes)
      → IsValid b
      → 2 * b.capacity < b.position + length value
      → b.position + length value < max_capacity
      → malloc (grown b.capacity) ≡ some block
      → append_bin malloc b value ≡ overrun
  unfolding append_bin write_if_ensured
  append_bin_overruns b value block v h k e =
      let fits : u64 (b.position + length value) ≡ b.position + length value = omega arith in
      let some_bytes : (length value == 0) ≡ false = ground (arith, v.within, v.nonempty) in
      let full = grown_done b (b.position + length value) block v (omega arith) k e in
      let bounds = grown_bounds b.capacity v.capped in
      let moved =
        moved-IsValid b (grown b.capacity) block v bounds.0 bounds.1 (allocates _ block e) in
      rw (some_bytes, fits, full)
        (write_overrun (record b { capacity = grown b.capacity; block = refilled b block }) value
          (omega (arith, moved.sized, grown-le b.capacity)))
