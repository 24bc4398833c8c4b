-- ===== src/Tests/Messages.antt =====
-- Runs of the theorems on messages and frames.
use pomelo_udp_webrtc_plugin.Base.{◌≡◌, ◌↔◌, refl, [], ◌∷◌, ◌++◌, Bytes, codes, arith}
use pomelo_udp_webrtc_plugin.StringBuffer.{StringBuffer, done, to_binary}
use pomelo_udp_webrtc_plugin.Message.{
  opcode_candidate, compose, read_authenticated, description, candidate, opcode_description,
  read_unauthenticated, auth,
}
use pomelo_udp_webrtc_plugin.Message.Compose.{joined, compose_exact}
use pomelo_udp_webrtc_plugin.Message.Read.{IsText, IsPart, read_authenticated-joined}
use pomelo_udp_webrtc_plugin.Message.Token.{IsAuth, read_unauthenticated_iff}
use pomelo_udp_webrtc_plugin.Tests.Fixture.{some_memory, empty_buffer, empty_buffer-IsValid}

abbrev mid : Bytes
mid = codes "0"

abbrev line : Bytes
line = codes "a=1"

compose_exact_example :
    (b : StringBuffer) × (compose some_memory opcode_candidate mid line empty_buffer ≡ done b)
    × (to_binary b ≡ joined opcode_candidate mid line)
compose_exact_example =
    compose_exact some_memory opcode_candidate mid line empty_buffer empty_buffer-IsValid refl
      (omega arith)

mid-IsPart : IsPart mid
mid-IsPart = ((λ e. omega (arith, e), λ e. omega (arith, e)), tt)

line-IsText : IsText line
line-IsText = (λ e. omega (arith, e), (λ e. omega (arith, e), (λ e. omega (arith, e), tt)))

read_authenticated-joined_example :
    (read_authenticated (joined opcode_description mid line ++ 0 ∷ []) ≡ description mid line)
    × (read_authenticated (joined opcode_candidate mid line ++ 0 ∷ []) ≡ candidate mid line)
read_authenticated-joined_example =
    read_authenticated-joined mid line mid-IsPart line-IsText (omega arith)

abbrev ready_text : Bytes
ready_text = codes "READY"

ready_text-IsText : IsText ready_text
ready_text-IsText = (
  λ e. omega (arith, e),
  (
    λ e. omega (arith, e),
    (λ e. omega (arith, e), (λ e. omega (arith, e), (λ e. omega (arith, e), tt))),
  ),
)

read_unauthenticated_iff_example :
    (read_unauthenticated (codes "AUTH|xyz!") ≡ auth (codes "xyz"))
    ↔ IsAuth (codes "AUTH|xyz!") (codes "xyz")
read_unauthenticated_iff_example =
    read_unauthenticated_iff (codes "AUTH|xyz!") (codes "xyz") (λ e. cc) (omega arith)
