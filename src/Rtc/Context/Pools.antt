-- ===== src/Rtc/Context/Pools.antt =====
-- src/rtc-api/rtc-context.cpp: what becomes of the pools of the wrapper's context.
use pomelo_udp_webrtc_plugin.Base.{
  ◌≡◌, ◌⊎◌, refl, inl, inr, sym, ap, ◌∙◌, append_assoc, append-nil, none, some, Bool, true, false,
  Bool-cases, Option, List, [], ◌∷◌, ◌++◌,
}
use pomelo_udp_webrtc_plugin.Rtc.Context.{
  LogLevel, LogCallback, Pool, pools, RtcContext, make_pools, init_log, no_context, returned,
  thrown, rtc_context_create, rtc_context_destroy,
}

-- All of these pools can be created.
abbrev pub AllMade : (Pool → Bool) → List Pool → Type 0
AllMade makes [] = Unit
AllMade makes (p ∷ ps) = (makes p ≡ true) × AllMade makes ps

-- The first one that cannot be created stands behind these.
abbrev pub StopsBehind : (Pool → Bool) → List Pool → List Pool → Type 0
StopsBehind makes made all =
    (p : Pool) × (rest : List Pool) × (all ≡ made ++ p ∷ rest)
    × AllMade makes made
    × (makes p ≡ false)

init_log-pools :
    (level : LogLevel) (callback : Option LogCallback)
    → (init_log level callback pools).made_pools ≡ pools
unfolding init_log
init_log-pools level none = refl
init_log-pools level (some f) = refl

make_pools_cases :
    (makes : Pool → Bool) (ps done : List Pool)
    → ((make_pools makes ps done ≡ (done ++ ps, true)) × AllMade makes ps)
      ⊎ ((more : List Pool) × (make_pools makes ps done ≡ (done ++ more, false))
          × StopsBehind makes more ps)
unfolding make_pools
make_pools_cases makes [] done = inl (ap (λ l. (l, true)) (sym (append-nil done)), tt)
make_pools_cases makes (p ∷ ps) done = elim (Bool-cases (makes p)) [
  | inr fails ↦
      inr ([], rw fails (ap (λ l. (l, false)) (sym (append-nil done))), (p, ps, refl, tt, fails))
  | inl works ↦ elim (make_pools_cases makes ps (done ++ p ∷ [])) [
    | inl (e, all) ↦
        inl (rw works (e ∙ ap (λ l. (l, true)) (append_assoc done (p ∷ []) ps)), (works, all))
    | inr (more, e, (q, rest, split, all, fails)) ↦ inr (
      p ∷ more,
      rw works (e ∙ ap (λ l. (l, false)) (append_assoc done (p ∷ []) more)),
      (q, rest, ap (◌∷◌ p) split, (works, all), fails),
    )
  ]
]

-- The creation of the wrapper's context has three ends: NULL, if there is no memory for it; the context
-- with its five pools, which are those that its destruction deletes, if each of them can be created;
-- and otherwise an exception that leaves the function, with all the pools in front of the one that
-- failed, which nothing deletes.
pub rtc_context_create_cases :
    (has_memory : Bool) (makes : Pool → Bool) (level : LogLevel) (callback : Option LogCallback)
    → ((has_memory ≡ false) × (rtc_context_create has_memory makes level callback ≡ no_context))
      ⊎ ((c : RtcContext) × (rtc_context_create has_memory makes level callback ≡ returned c)
          × AllMade makes pools
          × (c.made_pools ≡ rtc_context_destroy c))
      ⊎ ((made : List Pool) × (rtc_context_create has_memory makes level callback ≡ thrown made)
          × StopsBehind makes made pools)
unfolding rtc_context_create rtc_context_destroy
rtc_context_create_cases has_memory makes level callback = elim (Bool-cases has_memory) [
  | inr empty ↦ inl (empty, rw empty refl)
  | inl memory ↦ elim (make_pools_cases makes pools []) [
    | inl (e, all) ↦ inr (
        inl
          (init_log level callback pools, rw (memory, e) refl, all, init_log-pools level callback))
    | inr (made, e, stops) ↦ inr (inr (made, rw (memory, e) refl, stops))
  ]
]
