-- ===== src/StringBuffer/Growth.antt =====
-- src/utils/string-buffer.c: what growing the block does, and what a write does to the contents.
use pomelo_udp_webrtc_plugin.Base.{
  ℕ, ◌+◌, ◌*◌, ◌≤◌, ◌<◌, ◌≡◌, Option, some, ◌++◌, append_assoc, Bytes, length, take, drop,
  length-append, length-take, length-drop, take-append, arith,
}
use pomelo_udp_webrtc_plugin.StringBuffer.{
  StringBuffer, done, overrun, write, move, grown, to_binary, max_capacity,
}

-- Documented of the allocator: a block has the size that was asked for.
abbrev pub Allocates : (ℕ → Option Bytes) → Type 0
Allocates malloc = (n : ℕ) (block : Bytes) → malloc n ≡ some block → length block ≡ n

pub record IsValid (b : StringBuffer) : Type 0 where
  pub sized : length b.block ≡ b.capacity
  pub within : b.position ≤ b.capacity
  pub nonempty : 1 ≤ b.capacity
  pub capped : b.capacity ≤ max_capacity

-- The buffer after `value` was written.
abbrev pub written : StringBuffer → Bytes → StringBuffer
written b value = record b {
  position = b.position + length value;
  block = take b.position b.block ++ (value ++ drop (b.position + length value) b.block);
}

pub write_fits :
    (b : StringBuffer) (value : Bytes)
    → b.position + length value ≤ length b.block
    → write b value ≡ done (written b value)
unfolding write
write_fits b value h = ground arith

pub write_overrun :
    (b : StringBuffer) (value : Bytes)
    → length b.block < b.position + length value
    → write b value ≡ overrun
unfolding write
write_overrun b value h = ground arith

pub to_binary-written :
    (b : StringBuffer) (value : Bytes)
    → b.position ≤ length b.block
    → to_binary (written b value) ≡ to_binary b ++ value
unfolding to_binary
to_binary-written b value h = rw (← append_assoc) (
    take-append _ (take b.position b.block ++ value) _ (
      omega (arith, length-append (take b.position b.block) value, length-take b.position b.block)))

pub written-IsValid :
    (b : StringBuffer) (value : Bytes)
    → IsValid b
    → b.position + length value ≤ b.capacity
    → IsValid (written b value)
written-IsValid b value v h = record {
  sized = omega (
    arith,
    length-append (take b.position b.block) (value ++ drop (b.position + length value) b.block),
    length-append value (drop (b.position + length value) b.block),
    length-take b.position b.block,
    length-drop (b.position + length value) b.block,
    v.sized,
  );
  within = h;
  nonempty = v.nonempty;
  capped = v.capped;
}

-- The block that `move` leaves the buffer with.
abbrev pub refilled : StringBuffer → Bytes → Bytes
refilled b block = take b.position b.block ++ drop (0 + length (take b.position b.block)) block

pub length-take_position :
    (b : StringBuffer) → IsValid b → length (take b.position b.block) ≡ b.position
length-take_position b v = omega (arith, length-take b.position b.block, v.sized, v.within)

pub move_lem :
    (b : StringBuffer) (n : ℕ) (block : Bytes)
    → IsValid b
    → b.capacity ≤ n
    → length block ≡ n
    → move b n block ≡ done (record b { capacity = n; block = refilled b block })
unfolding move
move_lem b n block v h e = ground (arith, length-take_position b v)

pub moved-IsValid :
    (b : StringBuffer) (n : ℕ) (block : Bytes)
    → IsValid b
    → b.capacity ≤ n
    → n ≤ max_capacity
    → length block ≡ n
    → IsValid (record b { capacity = n; block = refilled b block })
moved-IsValid b n block v h k e = record {
  sized = omega (
    arith,
    length-append (take b.position b.block) (drop (0 + length (take b.position b.block)) block),
    length-drop (0 + length (take b.position b.block)) block,
    length-take_position b v,
  );
  within = omega arith;
  nonempty = omega arith;
  capped = k;
}

pub to_binary-moved :
    (b : StringBuffer) (n : ℕ) (block : Bytes)
    → IsValid b
    → to_binary (record b { capacity = n; block = refilled b block }) ≡ to_binary b
unfolding to_binary
to_binary-moved b n block v = take-append b.position _ _ (length-take_position b v)

-- The doubled capacity, cut off at the maximum.
pub grown_bounds :
    (capacity : ℕ)
    → capacity ≤ max_capacity
    → (capacity ≤ grown capacity) × (grown capacity ≤ max_capacity)
unfolding grown
grown_bounds capacity h = (ground arith, ground arith)

-- One doubling is too little only for more than twice the capacity.
pub grown_short : (capacity n : ℕ) → n < max_capacity → grown capacity < n → 2 * capacity < n
unfolding grown
grown_short capacity n h k = ground arith

pub grown-le : (capacity : ℕ) → grown capacity ≤ 2 * capacity
unfolding grown
grown-le capacity = ground arith
