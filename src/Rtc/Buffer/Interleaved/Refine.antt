-- ===== src/Rtc/Buffer/Interleaved/Refine.antt =====
-- src/rtc-api/rtc-buffer.cpp: the loops of `RTCBuffer::ref` as references at once.
use pomelo_udp_webrtc_plugin.Base.{
  ℕ, ◌+◌, ◌≡◌, ◌≢◌, ◌⊎◌, inl, inr, refl, sym, ap, ◌∙◌, Bool, true, false, List, [], ◌∷◌, ◌++◌, ◌==◌,
  if◌then◌else◌, Bool-cases, arith,
}
use pomelo_udp_webrtc_plugin.Rtc.Buffer.{Buffer, ref}
use pomelo_udp_webrtc_plugin.Rtc.Buffer.Count.{Use, reference, unreference, use_once, used}
use pomelo_udp_webrtc_plugin.Rtc.Buffer.Interleaved.{
  Phase, in_front, returned, has_read, Action, load, exchange, unref_once, Users, enter,
  load_counter, exchange_counter, act, act_all,
}

-- The uses at once that an action stands for: a call of `ref` counts when it returns.
abbrev at_once : Action → Users → Users → List Use
at_once (load t) s v = if s.calls == v.calls then [] else reference ∷ []
at_once (exchange t spurious) s v = if s.calls == v.calls then [] else reference ∷ []
at_once unref_once s v = unreference ∷ []

abbrev pub all_at_once : List Action → Users → List Use
all_at_once [] s = []
all_at_once (a ∷ rest) s = at_once a s (act a s) ++ all_at_once rest (act a s)

-- No thread has read 0 and goes on.
abbrev pub ReadsNoZero : Users → Type 0
ReadsNoZero s = (t prev : ℕ) → s.phase t ≡ has_read prev → prev ≢ 0

load_counter_lem :
    (t : ℕ) (p : Phase) (s : Users)
    → (load_counter t p s).buffer
      ≡ used (if s.calls == (load_counter t p s).calls then [] else reference ∷ []) s.buffer
unfolding load_counter ref
load_counter_lem t in_front s = ground arith
load_counter_lem t returned s = ground arith
load_counter_lem t (has_read prev) s = ground arith

exchange_counter_lem :
    (t : ℕ) (spurious : Bool) (p : Phase) (s : Users)
    → ((prev : ℕ) → p ≡ has_read prev → prev ≢ 0)
    → (exchange_counter t spurious p s).buffer
      ≡ used
          (if s.calls == (exchange_counter t spurious p s).calls then [] else reference ∷ [])
          s.buffer
unfolding exchange_counter ref
exchange_counter_lem t spurious in_front s h = ground arith
exchange_counter_lem t spurious returned s h = ground arith
exchange_counter_lem t true (has_read prev) s h = ground arith
exchange_counter_lem t false (has_read prev) s h = ground (arith, h prev refl)

enter-ReadsNoZero :
    (t : ℕ) (p : Phase) (s : Users)
    → ((prev : ℕ) → p ≡ has_read prev → prev ≢ 0)
    → ReadsNoZero s
    → ReadsNoZero (enter t p s)
enter-ReadsNoZero t p s here h q prev e = elim (Bool-cases (t == q)) [
  | inl same ↦ here prev (rw same at e)
  | inr other ↦ h q prev (rw other at e)
]

in_front-ReadsNoZero : (prev : ℕ) → in_front ≡ has_read prev → prev ≢ 0
in_front-ReadsNoZero prev e = ground (arith, e)

returned-ReadsNoZero : (prev : ℕ) → returned ≡ has_read prev → prev ≢ 0
returned-ReadsNoZero prev e = ground (arith, e)

has_read-ReadsNoZero : (n prev : ℕ) → n ≢ 0 → has_read n ≡ has_read prev → prev ≢ 0
has_read-ReadsNoZero n prev h e = ground (arith, h, e)

load_counter-ReadsNoZero :
    (t : ℕ) (p : Phase) (s : Users) → ReadsNoZero s → ReadsNoZero (load_counter t p s)
unfolding load_counter
load_counter-ReadsNoZero t in_front s h = elim (Bool-cases (s.buffer.ref_counter == 0)) [
  | inl zero ↦ rw zero (enter-ReadsNoZero t returned s returned-ReadsNoZero h)
  | inr more ↦ rw more (
      enter-ReadsNoZero t (has_read s.buffer.ref_counter) s
        (λ prev e. has_read-ReadsNoZero s.buffer.ref_counter prev (ground (arith, more)) e) h)
]
load_counter-ReadsNoZero t returned s h = h
load_counter-ReadsNoZero t (has_read prev) s h = h

exchange_counter-ReadsNoZero :
    (t : ℕ) (spurious : Bool) (p : Phase) (s : Users)
    → ReadsNoZero s
    → ReadsNoZero (exchange_counter t spurious p s)
unfolding exchange_counter
exchange_counter-ReadsNoZero t spurious in_front s h = h
exchange_counter-ReadsNoZero t spurious returned s h = h
exchange_counter-ReadsNoZero t true (has_read prev) s h =
    enter-ReadsNoZero t in_front s in_front-ReadsNoZero h
exchange_counter-ReadsNoZero t false (has_read prev) s h =
    elim (Bool-cases (s.buffer.ref_counter == prev)) [
      | inl same ↦ rw same (enter-ReadsNoZero t returned s returned-ReadsNoZero h)
      | inr other ↦ rw other (enter-ReadsNoZero t in_front s in_front-ReadsNoZero h)
    ]

act-ReadsNoZero : (a : Action) (s : Users) → ReadsNoZero s → ReadsNoZero (act a s)
unfolding act
act-ReadsNoZero (load t) s h = load_counter-ReadsNoZero t (s.phase t) s h
act-ReadsNoZero (exchange t spurious) s h = exchange_counter-ReadsNoZero t spurious (s.phase t) s h
act-ReadsNoZero unref_once s h = h

act-used :
    (a : Action) (s : Users)
    → ReadsNoZero s
    → (act a s).buffer ≡ used (at_once a s (act a s)) s.buffer
unfolding act
act-used (load t) s h = load_counter_lem t (s.phase t) s
act-used (exchange t spurious) s h = exchange_counter_lem t spurious (s.phase t) s (h t)
act-used unref_once s h = refl

-- The calls of `ref` among the uses.
abbrev pub references : List Use → ℕ
references [] = 0
references (reference ∷ us) = references us + 1
references (unreference ∷ us) = references us

used-append : (us vs : List Use) (b : Buffer) → used (us ++ vs) b ≡ used vs (used us b)
used-append [] vs b = refl
used-append (u ∷ us) vs b = used-append us vs (use_once u b)

references-append : (us vs : List Use) → references (us ++ vs) ≡ references us + references vs
references-append [] vs = omega arith
references-append (reference ∷ us) vs = omega (arith, references-append us vs)
references-append (unreference ∷ us) vs = references-append us vs

one_or_none :
    (m n : ℕ) → (n ≡ m) ⊎ (n ≡ m + 1) → m + references (if m == n then [] else reference ∷ []) ≡ n
one_or_none m n h = ground (arith, h)

calls-load_counter :
    (t : ℕ) (p : Phase) (s : Users)
    → ((load_counter t p s).calls ≡ s.calls) ⊎ ((load_counter t p s).calls ≡ s.calls + 1)
unfolding load_counter
calls-load_counter t in_front s = ground arith
calls-load_counter t returned s = ground arith
calls-load_counter t (has_read prev) s = ground arith

calls-exchange_counter :
    (t : ℕ) (spurious : Bool) (p : Phase) (s : Users)
    → ((exchange_counter t spurious p s).calls ≡ s.calls)
      ⊎ ((exchange_counter t spurious p s).calls ≡ s.calls + 1)
unfolding exchange_counter
calls-exchange_counter t spurious in_front s = ground arith
calls-exchange_counter t spurious returned s = ground arith
calls-exchange_counter t true (has_read prev) s = ground arith
calls-exchange_counter t false (has_read prev) s = ground arith

act-references :
    (a : Action) (s : Users) → s.calls + references (at_once a s (act a s)) ≡ (act a s).calls
unfolding act
act-references (load t) s =
    one_or_none s.calls (load_counter t (s.phase t) s).calls (calls-load_counter t (s.phase t) s)
act-references (exchange t spurious) s =
    one_or_none s.calls (exchange_counter t spurious (s.phase t) s).calls
      (calls-exchange_counter t spurious (s.phase t) s)
act-references unref_once s = omega arith

-- Where no thread starts behind a read 0, any interleaving of the loads, the exchanges (those that fail for
-- no reason too) and the unreferences of any threads leaves the buffer as whole references and
-- unreferences do, each at once, in the order of the actions: one unreference for each, and one reference
-- for each call of `ref`, where it returns.
pub act_all-used :
    (actions : List Action) (s : Users)
    → ReadsNoZero s
    → ((act_all actions s).buffer ≡ used (all_at_once actions s) s.buffer)
      × (s.calls + references (all_at_once actions s) ≡ (act_all actions s).calls)
unfolding act_all
act_all-used [] s h = (refl, omega arith)
act_all-used (a ∷ rest) s h =
    let now = at_once a s (act a s) in
    let later = all_at_once rest (act a s) in
    let (buffer, calls) = act_all-used rest (act a s) (act-ReadsNoZero a s h) in
    (
      buffer ∙ ap (used later) (act-used a s h) ∙ sym (used-append now later s.buffer),
      omega (arith, calls, references-append now later, act-references a s),
    )
