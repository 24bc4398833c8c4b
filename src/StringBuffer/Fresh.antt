-- ===== src/StringBuffer/Fresh.antt =====
-- src/utils/string-buffer.c: the buffer that the pool allocates and hands out.
use pomelo_udp_webrtc_plugin.Base.{
  ℕ, ◌≡◌, refl, sym, ap, ◌∙◌, inl, inr, Option, some, [], Bytes, length, Option-cases, arith,
}
use pomelo_udp_webrtc_plugin.StringBuffer.{
  StringBuffer, initial_capacity, on_alloc, init, to_binary,
}
use pomelo_udp_webrtc_plugin.StringBuffer.Growth.{Allocates, IsValid}

-- Where the allocator gives blocks of the size asked for, a buffer that the pool allocated and handed out
-- is valid and empty, stands at position 0, and has the initial capacity.
on_alloc-IsValid :
    (malloc : ℕ → Option Bytes) (b : StringBuffer)
    → Allocates malloc
    → on_alloc malloc ≡ some b
    → IsValid (init b)
      × ((init b).position ≡ 0)
      × (to_binary (init b) ≡ [])
      × ((init b).capacity ≡ initial_capacity)
unfolding on_alloc init to_binary
on_alloc-IsValid malloc b allocates e = elim (Option-cases (malloc initial_capacity)) [
  | inl null ↦ absurd (ground arith)
  | inr (block, given) ↦
      let same : b ≡ record { capacity = initial_capacity; position = 0; block = block } =
        ground arith in
      let sized = allocates initial_capacity block given in
      (
        record {
          sized = ap (λ c. length c.block) same ∙ sized ∙ ap (λ c. c.capacity) (sym same);
          within = omega arith;
          nonempty = omega (arith, ap (λ c. c.capacity) same);
          capped = omega (arith, ap (λ c. c.capacity) same);
        },
        refl,
        refl,
        ap (λ c. c.capacity) same,
      )
]
