-- ===== src/Rtc/Buffer/Count.antt =====
-- src/rtc-api/rtc-buffer.cpp: when a buffer is given back to its pool.
use pomelo_udp_webrtc_plugin.Base.{
  ◌+◌, ◌^◌, ◌≤◌, ◌<◌, ◌≡◌, refl, ◌∙◌, Bool, true, false, some, List, [], ◌∷◌, if◌then◌else◌, Bytes,
  length, arith,
}
use pomelo_udp_webrtc_plugin.Rtc.Buffer.{
  Buffer, set_string, set_binary, reset_ref, ref, unref, acquire, on_message_string,
  on_message_binary,
}

-- What the holders of a buffer do with its counter.
pub data Use : Type 0 where
  reference unreference : Use

abbrev pub use_once : Use → Buffer → Buffer
use_once Use.reference b = ref b
use_once Use.unreference b = unref b

abbrev pub used : List Use → Buffer → Buffer
used [] b = b
used (u ∷ us) b = used us (use_once u b)

-- The first use, if there is one, is no reference.
abbrev pub is_unreferenced : List Use → Bool
is_unreferenced [] = true
is_unreferenced (Use.reference ∷ us) = false
is_unreferenced (Use.unreference ∷ us) = true

-- Above 1 the counter only rises, and nothing is released.
use_once-counts :
    (u : Use) (b : Buffer)
    → 2 ≤ b.ref_counter
    → b.ref_counter + 1 < 2 ^ 32
    → ((use_once u b).ref_counter ≡ b.ref_counter + 1) × ((use_once u b).released ≡ b.released)
unfolding ref unref
use_once-counts Use.reference b low high = ground (arith, low, high)
use_once-counts Use.unreference b low high = ground (arith, low, high)

used-counts :
    (us : List Use) (b : Buffer)
    → 2 ≤ b.ref_counter
    → b.ref_counter + length us < 2 ^ 32
    → ((used us b).ref_counter ≡ b.ref_counter + length us) × ((used us b).released ≡ b.released)
used-counts [] b low high = (omega arith, refl)
used-counts (u ∷ us) b low high =
    let (counter, kept) = use_once-counts u b low (omega (arith, high)) in
    let (counter1, kept1) =
      used-counts us (use_once u b) (omega (arith, counter, low)) (omega (arith, counter, high)) in
    (omega (arith, counter, counter1), kept1 ∙ kept)

-- The uses of a buffer whose counter is above 1, up to and after the end of the receiver.
used-unref-used :
    (us later : List Use) (b : Buffer)
    → b.ref_counter ≡ 2
    → length us + length later + 3 < 2 ^ 32
    → (used later (unref (used us b))).released ≡ b.released
used-unref-used us later b two few =
    let (counter, kept) = used-counts us b (omega (arith, two)) (omega (arith, two, few)) in
    let (counter1, kept1) =
      use_once-counts Use.unreference (used us b) (omega (arith, two, counter))
        (omega (arith, two, counter, few)) in
    let (counter2, kept2) =
      used-counts later (unref (used us b)) (omega (arith, two, counter, counter1))
        (omega (arith, two, counter, counter1, few)) in
    kept2 ∙ kept1 ∙ kept

-- The first use of a buffer that has one reference.
first_use :
    (u : Use) (b : Buffer)
    → b.ref_counter ≡ 1
    → ((use_once u b).ref_counter ≡ 2)
      × ((use_once u b).released ≡ b.released + (if is_unreferenced (u ∷ []) then 1 else 0))
unfolding ref unref
first_use Use.reference b one = ground (arith, one)
first_use Use.unreference b one = ground (arith, one)

used_once :
    (us later : List Use) (b : Buffer)
    → b.ref_counter ≡ 1
    → length us + length later + 3 < 2 ^ 32
    → (used later (unref (used us b))).released ≡ b.released + (if is_unreferenced us then 1 else 0)
used_once [] later b one few =
    let (counter, kept) = first_use Use.unreference b one in
    let (counter1, kept1) =
      used-counts later (unref b) (omega (arith, counter)) (omega (arith, counter, few)) in
    kept1 ∙ kept
used_once (Use.reference ∷ us) later b one few =
    let (counter, kept) = first_use Use.reference b one in
    used-unref-used us later (ref b) counter (omega (arith, few)) ∙ kept
used_once (Use.unreference ∷ us) later b one few =
    let (counter, kept) = first_use Use.unreference b one in
    used-unref-used us later (unref b) counter (omega (arith, few)) ∙ kept

-- A received message's buffer goes back to the pool exactly if the callback that got it does nothing
-- with its counter, or first takes a reference away. A buffer that the callback references first never
-- goes back, whatever references are taken and given up during the callback and later on, in any number
-- that the counter can hold.
pub on_message_released :
    (b : Buffer) (message : Bytes) (us later : List Use)
    → length us + length later + 3 < 2 ^ 31
    → ((r : Buffer) × (on_message_string (some b) message (used us) ≡ some r)
        × ((used later r).released ≡ b.released + (if is_unreferenced us then 1 else 0)))
      × ((r : Buffer) × (on_message_binary (some b) message (used us) ≡ some r)
          × ((used later r).released ≡ b.released + (if is_unreferenced us then 1 else 0)))
unfolding on_message_string on_message_binary acquire reset_ref set_string set_binary
on_message_released b message us later few =
    let text = set_string message (reset_ref b) in
    let binary = set_binary message (reset_ref b) in
    (
      (unref (used us text), refl, used_once us later text refl (omega (arith, few))),
      (unref (used us binary), refl, used_once us later binary refl (omega (arith, few))),
    )
