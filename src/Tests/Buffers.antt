-- ===== src/Tests/Buffers.antt =====
-- Runs of the theorems on buffers, numbers and labels.
use pomelo_udp_webrtc_plugin.Base.{◌≡◌, ◌↔◌, refl, some, [], ◌∷◌, ◌++◌, arith}
use pomelo_udp_webrtc_plugin.Decimal.{print_u64}
use pomelo_udp_webrtc_plugin.StringBuffer.{
  StringBuffer, initial_capacity, on_alloc, grown, append_bin, overrun,
}
use pomelo_udp_webrtc_plugin.StringBuffer.Contents.{
  Appended, append_bin-Appended, append_bin_overruns,
}
use pomelo_udp_webrtc_plugin.Label.{client_prefix, parse_channel_label}
use pomelo_udp_webrtc_plugin.Label.Parse.{Names, parse_channel_label_iff}
use pomelo_udp_webrtc_plugin.Tests.Fixture.{
  zeros, some_memory, some_memory-Allocates, empty_buffer, empty_buffer-IsValid,
}

append_bin-Appended_example :
    Appended some_memory empty_buffer
      (7 ∷ 8 ∷ [])
      (append_bin some_memory empty_buffer (7 ∷ 8 ∷ []))
append_bin-Appended_example =
    append_bin-Appended some_memory some_memory-Allocates empty_buffer (7 ∷ 8 ∷ [])
      empty_buffer-IsValid (omega arith)

append_bin_overruns_example : append_bin some_memory empty_buffer (zeros 200) ≡ overrun
append_bin_overruns_example =
    append_bin_overruns some_memory some_memory-Allocates empty_buffer (zeros 200)
      (zeros (grown 64)) empty_buffer-IsValid (omega arith) (omega arith) refl

parse_channel_label_iff_example :
    (parse_channel_label (client_prefix ++ print_u64 7) ≡ some 7)
    ↔ Names (client_prefix ++ print_u64 7) 7
parse_channel_label_iff_example = parse_channel_label_iff (client_prefix ++ print_u64 7) 7

abbrev fresh : StringBuffer
fresh = record { capacity = initial_capacity; position = 0; block = zeros initial_capacity }

fresh_lem : on_alloc some_memory ≡ some fresh
unfolding on_alloc
fresh_lem = refl
