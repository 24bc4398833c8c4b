-- ===== src/Session/Handshake/Once/Heard.antt =====
-- src/session/session.c: what the handshake has heard, as two plain numbers, and the request that
-- follows from them.
use pomelo_udp_webrtc_plugin.Base.{
  ℕ, ◌+◌, ◌<◌, ◌^◌, ◌≡◌, ◌≢◌, refl, sym, ap, ◌⊎◌, ◌∙◌, inl, inr, Bool, true, false, ◌&&◌,
  Bool-cases, Option-cases, none, List, [], ◌∷◌, ltb, arith,
}
use pomelo_udp_webrtc_plugin.Env.{Env, Call}
use pomelo_udp_webrtc_plugin.World.{World, update_session, update_flags, unschedule_task}
use pomelo_udp_webrtc_plugin.Session.Cleanup.{unschedule_timeout}
use pomelo_udp_webrtc_plugin.Session.Send.{ws_send_ready}
use pomelo_udp_webrtc_plugin.Session.Handshake.{
  start_ping, plugin_open, on_ready, recv_ready, on_all_channels_opened, on_channel_opened,
}
use pomelo_udp_webrtc_plugin.Session.Handshake.Once.{
  requests, bit, Signal, channel_opened, ready_received,
}
use pomelo_udp_webrtc_plugin.Session.Handshake.Once.Signals.{u64_lem, ready_and_ping_lem}
use pomelo_udp_webrtc_plugin.Session.Handshake.Once.Request.{
  on_all_channels_opened_last, last_channel, recv_ready_last,
}

-- Whether the client's ready message is among the signals, and how many channels opened.
unfoldable pub ready_among : List Signal → Bool
ready_among [] = false
ready_among (channel_opened ∷ es) = ready_among es
ready_among (ready_received ∷ es) = true

unfoldable pub opened_among : List Signal → ℕ
opened_among [] = 0
opened_among (channel_opened ∷ es) = opened_among es + 1
opened_among (ready_received ∷ es) = opened_among es

same_or_other : (n m : ℕ) → (n ≡ m) ⊎ (n ≢ m)
same_or_other n m = ground arith

bit_and_false : (b : Bool) → bit (b && false) ≡ 0
bit_and_false true = refl
bit_and_false false = refl

ltb_same : (n m : ℕ) → m ≡ n → (ltb n m ≡ false) × (ltb n (m + 1) ≡ true)
ltb_same n m same = ground arith

ltb_suc : (n m : ℕ) → m ≢ n → ltb n m ≡ ltb n (m + 1)
ltb_suc n m other = ground arith

module _ (env : Env) where
  -- The session has heard the ready message or not, counted its open channels, and asked for the native
  -- session exactly where both parts are there.
  pub record Heard (channels : env.pointers.Array) (ready : Bool) (opened : ℕ) (w : World env)
      : Type 0 where
    pub channels_eq : w.session.channels ≡ channels
    pub absent : w.session.native_session ≡ none
    pub opened_eq : w.session.opened_channels ≡ opened
    pub ready_eq : w.session.flags.ready_signal_received ≡ ready
    pub all_eq : w.session.flags.all_channels_opened ≡ ltb (env.pointers.size channels) opened
    pub requests_eq : requests w.log ≡ bit (ready && ltb (env.pointers.size channels) opened)

  on_ready_accepted :
      (w : World env)
      → w.session.native_session ≡ none
      → ((calls : List Call) → env.succeeds calls Call.submit_session_create ≡ true)
      → (requests (on_ready env w).log ≡ requests w.log + 1)
        × ((on_ready env w).session.channels ≡ w.session.channels)
        × ((on_ready env w).session.native_session ≡ none)
        × ((on_ready env w).session.opened_channels ≡ w.session.opened_channels)
        × ((on_ready env w).session.flags ≡ w.session.flags)
  unfolding on_ready plugin_open unschedule_timeout unschedule_task
  on_ready_accepted w absent accepts = elim (Option-cases w.session.task_timeout) [
    | inl e ↦ rw (e, absent, accepts) (refl, refl, refl, refl, refl)
    | inr (task, e) ↦ rw (e, absent, accepts) (refl, refl, refl, refl, refl)
  ]

  module _
      (accepts : (calls : List Call) → env.succeeds calls Call.submit_session_create ≡ true) where
    on_ready-Heard :
        (channels : env.pointers.Array) (opened : ℕ) (w : World env)
        → w.session.channels ≡ channels
        → w.session.native_session ≡ none
        → w.session.opened_channels ≡ opened
        → w.session.flags.ready_signal_received ≡ true
        → w.session.flags.all_channels_opened ≡ true
        → ltb (env.pointers.size channels) opened ≡ true
        → requests w.log ≡ 0
        → Heard channels true opened (on_ready env w)
    on_ready-Heard channels opened w same absent count ready all enough none_yet =
        let after = on_ready_accepted w absent accepts in
        record {
          channels_eq = after.1 ∙ same;
          absent = after.2;
          opened_eq = after.3 ∙ count;
          ready_eq = ap (λ f. f.ready_signal_received) (after.4) ∙ ready;
          all_eq = ap (λ f. f.all_channels_opened) (after.4) ∙ all ∙ sym enough;
          requests_eq = rw (after.0, none_yet, enough) refl;
        }

    recv_ready_again :
        (w : World env) → w.session.flags.ready_signal_received ≡ true → recv_ready env w ≡ w
    unfolding recv_ready
    recv_ready_again w again = ground arith

    recv_ready_early :
        (w : World env)
        → w.session.flags.ready_signal_received ≡ false
        → w.session.flags.all_channels_opened ≡ false
        → recv_ready env w ≡ update_flags env (λ f. record f { ready_signal_received = true }) w
    unfolding recv_ready
    recv_ready_early w first missing = ground arith

    pub recv_ready-Heard :
        (channels : env.pointers.Array) (ready : Bool) (opened : ℕ) (w : World env)
        → Heard channels ready opened w
        → Heard channels true opened (recv_ready env w)
    recv_ready-Heard channels true opened w h = rw (recv_ready_again w h.ready_eq) h
    recv_ready-Heard channels false opened w h =
        let w1 = update_flags env (λ f. record f { ready_signal_received = true }) w in
        elim (Bool-cases (ltb (env.pointers.size channels) opened)) [
          | inl all ↦ rw (recv_ready_last env w h.ready_eq (h.all_eq ∙ all)) (
              on_ready-Heard channels opened w1 h.channels_eq h.absent h.opened_eq refl
                (h.all_eq ∙ all) all h.requests_eq)
          | inr missing ↦ rw (recv_ready_early w h.ready_eq (h.all_eq ∙ missing)) (record {
            channels_eq = h.channels_eq;
            absent = h.absent;
            opened_eq = h.opened_eq;
            ready_eq = refl;
            all_eq = h.all_eq;
            requests_eq = rw missing h.requests_eq;
          })
        ]

    on_all_channels_opened_early :
        (w : World env)
        → w.session.flags.ready_signal_received ≡ false
        → on_all_channels_opened env w
          ≡ update_flags env
              (λ f. record f { all_channels_opened = true })
              (start_ping env (ws_send_ready env w))
    unfolding on_all_channels_opened
    on_all_channels_opened_early w early =
        let same = ready_and_ping_lem env w in ground (arith, same)

    on_all_channels_opened-Heard :
        (channels : env.pointers.Array) (ready : Bool) (opened : ℕ) (w : World env)
        → opened ≡ env.pointers.size channels
        → Heard channels ready opened w
        → let w1 =
            update_session env (λ s. record s { opened_channels = s.opened_channels + 1 }) w in
          Heard channels ready (opened + 1) (on_all_channels_opened env w1)
    on_all_channels_opened-Heard channels ready opened w last h =
        let w1 = update_session env (λ s. record s { opened_channels = s.opened_channels + 1 }) w in
        let v =
          update_flags env (λ f. record f { all_channels_opened = true })
            (start_ping env (ws_send_ready env w1)) in
        let same = ready_and_ping_lem env w1 in
        let bounds = ltb_same (env.pointers.size channels) opened last in
        let flag_eq = ap (λ f. f.ready_signal_received) (same.1) ∙ h.ready_eq in
        let count_eq = same.3 ∙ ap (λ n. n + 1) h.opened_eq in
        elim (Bool-cases ready) [
          | inl both ↦
              let none_yet = same.0 ∙ h.requests_eq ∙ rw (bounds.0) (bit_and_false ready) in
              rw (both, on_all_channels_opened_last env w1 (h.ready_eq ∙ both))
                (on_ready-Heard channels (opened + 1) v (same.2 ∙ h.channels_eq) (same.4 ∙ h.absent)
                  count_eq (flag_eq ∙ both) refl (bounds.1) none_yet)
          | inr early ↦ rw (on_all_channels_opened_early w1 (h.ready_eq ∙ early)) (record {
            channels_eq = same.2 ∙ h.channels_eq;
            absent = same.4 ∙ h.absent;
            opened_eq = count_eq;
            ready_eq = flag_eq;
            all_eq = sym (bounds.1);
            requests_eq = same.0 ∙ h.requests_eq ∙ rw early refl;
          })
        ]

    other_channel :
        (w : World env)
        → w.session.opened_channels + 1 < 2 ^ 64
        → env.pointers.size w.session.channels + 1 < 2 ^ 64
        → w.session.opened_channels ≢ env.pointers.size w.session.channels
        → on_channel_opened env w
          ≡ update_session env (λ s. record s { opened_channels = s.opened_channels + 1 }) w
    unfolding on_channel_opened
    other_channel w fits size_fits other =
        rw
          (
            u64_lem (w.session.opened_channels + 1) fits,
            u64_lem (env.pointers.size w.session.channels + 1) size_fits,
          )
          (ground arith)

    pub on_channel_opened-Heard :
        (channels : env.pointers.Array) (ready : Bool) (opened : ℕ) (w : World env)
        → opened + 1 < 2 ^ 64
        → env.pointers.size channels + 1 < 2 ^ 64
        → Heard channels ready opened w
        → Heard channels ready (opened + 1) (on_channel_opened env w)
    on_channel_opened-Heard channels ready opened w fits size_fits h =
        let w1 = update_session env (λ s. record s { opened_channels = s.opened_channels + 1 }) w in
        let full = env.pointers.size channels in
        let here : w.session.opened_channels + 1 < 2 ^ 64 = omega (arith, h.opened_eq) in
        let bound : env.pointers.size w.session.channels + 1 < 2 ^ 64 =
          rw h.channels_eq size_fits in
        elim (same_or_other opened full) [
          | inl last ↦
              rw
                (last_channel env w here bound
                  (h.opened_eq ∙ last ∙ sym (ap (λ a. env.pointers.size a) h.channels_eq)))
                (on_all_channels_opened-Heard channels ready opened w last h)
          | inr other ↦
              rw
                (other_channel w here bound
                  (λ e. other (sym h.opened_eq ∙ e ∙ ap (λ a. env.pointers.size a) h.channels_eq)))
                (record {
                  channels_eq = h.channels_eq;
                  absent = h.absent;
                  opened_eq = ap (λ n. n + 1) h.opened_eq;
                  ready_eq = h.ready_eq;
                  all_eq = h.all_eq ∙ ltb_suc (env.pointers.size channels) opened other;
                  requests_eq =
                      rw (sym (ltb_suc (env.pointers.size channels) opened other)) h.requests_eq;
                })
        ]
