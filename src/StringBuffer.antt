-- ===== src/StringBuffer.antt =====
-- src/utils/string-buffer.c: the growing byte buffer in which messages are composed.
--
-- A heap block is the list of its bytes. `pomelo_allocator_malloc` is outside the repository: it is
-- the argument `malloc`, which returns NULL or a block. A `memcpy` past the end of a block is
-- undefined in C: the operation then ends in `overrun`.
use pomelo_udp_webrtc_plugin.Base.{
  ℕ, zero, suc, ◌+◌, ◌-◌, ◌*◌, ◌/◌, ◌%◌, ◌^◌, Bool, true, false, Option, none, some, List, [], ◌∷◌,
  ◌++◌, Bytes, u64, ltb, leb, ◌==◌, if◌then◌else◌, length, take, drop,
}
use pomelo_udp_webrtc_plugin.Decimal.{ℤ, print_u64, print_i64}
pub mod Growth
pub mod Contents
pub mod Fresh
pub mod Within

abbrev pub initial_capacity : ℕ
initial_capacity = 1024

abbrev pub max_capacity : ℕ
max_capacity = 256 * 1024

pub record StringBuffer : Type 0 where
  pub capacity : ℕ
  pub position : ℕ
  pub block : Bytes

-- An `int` result below 0 is `failed`; the buffer is the one that the caller is left with.
pub data Outcome : Type 0 where
  done : StringBuffer → Outcome
  failed : StringBuffer → Outcome
  overrun : Outcome

-- `memcpy(block + offset, value, length(value))`; `none` past the end of the block.
abbrev pub memcpy : Bytes → ℕ → Bytes → Option Bytes
memcpy block offset value =
    if leb (offset + length value) (length block)
    then some (take offset block ++ (value ++ drop (offset + length value) block))
    else none

-- `memcpy` at the writing position, which then moves on.
unfoldable pub write : StringBuffer → Bytes → Outcome
write b value = elim (memcpy b.block b.position value) [
  | none ↦ overrun
  | some block ↦ done (record b { position = b.position + length value; block = block })
]

unfoldable pub grown : ℕ → ℕ
grown capacity = if ltb max_capacity (2 * capacity) then max_capacity else 2 * capacity

-- The old bytes are copied into the new block before the buffer is switched to it.
unfoldable pub move : StringBuffer → ℕ → Bytes → Outcome
move b new_capacity block = elim (memcpy block 0 (take b.position b.block)) [
  | none ↦ overrun
  | some filled ↦ done (record b { capacity = new_capacity; block = filled })
]

unfoldable pub write_if_ensured : Outcome → Bytes → Outcome
write_if_ensured (done b) value = write b value
write_if_ensured (failed b) value = failed b
write_if_ensured overrun value = overrun

module _ (malloc : ℕ → Option Bytes) where
  -- `pomelo_string_buffer_on_alloc`
  unfoldable pub on_alloc : Option StringBuffer
  on_alloc = elim (malloc initial_capacity) [
    | none ↦ none
    | some block ↦ some (record { capacity = initial_capacity; position = 0; block = block })
  ]

  unfoldable pub ensure_capacity : StringBuffer → ℕ → Outcome
  ensure_capacity b capacity =
      if ltb capacity b.capacity
      then done b
      else if leb max_capacity capacity
      then failed b
      else elim (malloc (grown b.capacity)) [
        | none ↦ failed b
        | some block ↦ move b (grown b.capacity) block
      ]

  unfoldable pub append_bin : StringBuffer → Bytes → Outcome
  append_bin b value =
      if length value == 0
      then done b
      else write_if_ensured (ensure_capacity b (u64 (b.position + length value))) value

  -- `value` is the text before the NUL, so that its `strlen` is the length of the list.
  unfoldable pub append_str : StringBuffer → Bytes → Outcome
  append_str b value =
      if length value == 0
      then done b
      else write_if_ensured (ensure_capacity b (u64 (b.position + length value))) value

  unfoldable pub append_chr : StringBuffer → ℕ → Outcome
  append_chr b value = write_if_ensured (ensure_capacity b (u64 (b.position + 1))) (value ∷ [])

  -- `pomelo_string_buffer_to_string`: the bytes up to the NUL stay in the block, and the length
  -- that it reports leaves the NUL out.
  unfoldable pub to_string : StringBuffer → Outcome
  to_string b = append_chr b 0

-- `pomelo_string_buffer_init`, with which the pool hands out a buffer.
unfoldable pub init : StringBuffer → StringBuffer
init b = record b { position = 0 }

-- What `pomelo_string_buffer_to_binary` outputs: the bytes before the writing position. The sole
-- caller's `size` starts at 0.
unfoldable pub to_binary : StringBuffer → Bytes
to_binary b = take b.position b.block

module _ (malloc : ℕ → Option Bytes) where
  unfoldable pub append_u64 : StringBuffer → ℕ → Outcome
  append_u64 b value = append_str malloc b (print_u64 value)

  unfoldable pub append_i64 : StringBuffer → ℤ → Outcome
  append_i64 b value = append_str malloc b (print_i64 value)
