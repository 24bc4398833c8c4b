-- ===== src/Rtc/Buffer/Interleaved.antt =====
-- src/rtc-api/rtc-buffer.cpp: the counter of a buffer that several threads use at once. `RTCBuffer::ref` is
-- a loop of a load and a weak exchange, which may fail for no reason; between the two, other threads run.
pub mod Refine
use pomelo_udp_webrtc_plugin.Base.{
  ℕ, ◌+◌, ◌≡◌, ◌≢◌, ◌⊎◌, inl, inr, refl, sym, ap, ◌∙◌, Bool, true, false, List, [], ◌∷◌, ◌++◌, ◌==◌,
  if◌then◌else◌, Bool-cases, arith,
}
use pomelo_udp_webrtc_plugin.Rtc.Buffer.{Buffer, u32, ref, unref}
use pomelo_udp_webrtc_plugin.Rtc.Buffer.Count.{Use, reference, unreference, use_once, used}

-- Where a thread is in its call of `RTCBuffer::ref`: in front of the load, behind it with what it has
-- read, or at the end.
pub data Phase : Type 0 where
  in_front returned : Phase
  has_read : ℕ → Phase

-- What a thread does next; `spurious` says that the exchange fails whatever the counter is.
pub data Action : Type 0 where
  load : (thread : ℕ) → Action
  exchange : (thread : ℕ) (spurious : Bool) → Action
  unref_once : Action

-- The buffer, where its users are, and how many calls of `ref` have returned.
pub record Users : Type 0 where
  pub buffer : Buffer
  pub phase : ℕ → Phase
  pub calls : ℕ

abbrev pub enter : ℕ → Phase → Users → Users
enter t p s = record s { phase = λ q. if t == q then p else s.phase q }

abbrev pub finish : ℕ → Users → Users
finish t s = enter t returned (record s { calls = s.calls + 1 })

-- The load and the test of `RTCBuffer::ref`
unfoldable pub load_counter : ℕ → Phase → Users → Users
load_counter t in_front s =
    if s.buffer.ref_counter == 0 then finish t s else enter t (has_read s.buffer.ref_counter) s
load_counter t returned s = s
load_counter t (has_read prev) s = s

-- Its `compare_exchange_weak`
unfoldable pub exchange_counter : ℕ → Bool → Phase → Users → Users
exchange_counter t spurious in_front s = s
exchange_counter t spurious returned s = s
exchange_counter t true (has_read prev) s = enter t in_front s
exchange_counter t false (has_read prev) s =
    if s.buffer.ref_counter == prev
    then finish t (record s { buffer = record (s.buffer) { ref_counter = u32 (prev + 1) } })
    else enter t in_front s

unfoldable pub act : Action → Users → Users
act (load t) s = load_counter t (s.phase t) s
act (exchange t spurious) s = exchange_counter t spurious (s.phase t) s
act unref_once s = record s { buffer = unref s.buffer }

unfoldable pub act_all : List Action → Users → Users
act_all [] s = s
act_all (a ∷ rest) s = act_all rest (act a s)
