-- ===== src/Session/Handshake/Once/Exactly.antt =====
-- src/session/session.c: the request for the native session after any signals of the handshake.
use pomelo_udp_webrtc_plugin.Base.{
  ℕ, ◌+◌, ◌<◌, ◌^◌, ◌≡◌, refl, sym, subst, ◌∙◌, Bool, true, false, ◌&&◌, ◌||◌, none, List, [], ◌∷◌,
  length, ltb, arith,
}
use pomelo_udp_webrtc_plugin.Env.{Env, Call}
use pomelo_udp_webrtc_plugin.World.{World}
use pomelo_udp_webrtc_plugin.Session.Handshake.{recv_ready, on_channel_opened}
use pomelo_udp_webrtc_plugin.Session.Handshake.Once.{
  requests, bit, Signal, channel_opened, ready_received, signal, signals,
}
use pomelo_udp_webrtc_plugin.Session.Handshake.Once.Heard.{
  ready_among, opened_among, Heard, recv_ready-Heard, on_channel_opened-Heard,
}

ltb_zero : (n : ℕ) → ltb n 0 ≡ false
ltb_zero n = ground arith

or_true : (b : Bool) → (b || true) ≡ true
or_true true = refl
or_true false = refl

zero_plus : (n : ℕ) → 0 + n ≡ n
zero_plus n = omega arith

module _ (env : Env)
    (accepts : (calls : List Call) → env.succeeds calls Call.submit_session_create ≡ true) where
  signals-Heard :
      (channels : env.pointers.Array)
      → env.pointers.size channels + 1 < 2 ^ 64
      → (es : List Signal) (ready : Bool) (opened : ℕ) (w : World env) → opened + length es < 2 ^ 64
      → Heard env channels ready opened w
      → Heard env channels (ready || ready_among es) (opened + opened_among es) (signals env es w)
  unfolding signals signal ready_among opened_among
  signals-Heard channels size_fits [] ready opened w fits h = ground arith
  signals-Heard channels size_fits (channel_opened ∷ es) ready opened w fits h =
      let after =
        on_channel_opened-Heard env accepts channels ready opened w (omega arith) size_fits h in
      subst
        (λ n.
          Heard env channels (ready || ready_among es) n (signals env es (on_channel_opened env w)))
        (omega arith)
        (signals-Heard channels size_fits es ready (opened + 1) (on_channel_opened env w)
          (omega arith) after)
  signals-Heard channels size_fits (ready_received ∷ es) ready opened w fits h =
      let after = recv_ready-Heard env accepts channels ready opened w h in
      subst
        (λ b. Heard env channels b (opened + opened_among es) (signals env es (recv_ready env w)))
        (sym (or_true ready))
        (signals-Heard channels size_fits es true opened (recv_ready env w) (omega arith) after)

  -- In whatever order the channels open and the client's ready messages come (repeated ones too), a
  -- session that starts with neither, and without a native session, asks for the native session exactly
  -- once where a ready message is among them and more channels opened than the session has besides the
  -- system channel, and not at all otherwise. The host takes the request when it is made; the number
  -- of channels and the number of signals do not reach 2^64.
  pub signals-ready_among :
      (es : List Signal) (w : World env)
      → env.pointers.size w.session.channels + 1 < 2 ^ 64
      → length es < 2 ^ 64
      → w.session.native_session ≡ none
      → w.session.opened_channels ≡ 0
      → w.session.flags.ready_signal_received ≡ false
      → w.session.flags.all_channels_opened ≡ false
      → requests w.log ≡ 0
      → requests (signals env es w).log
        ≡ bit (ready_among es && ltb (env.pointers.size w.session.channels) (opened_among es))
  signals-ready_among es w size_fits fits absent none_open not_ready not_all none_yet =
      let fresh : Heard env w.session.channels false 0 w = record {
        channels_eq = refl;
        absent = absent;
        opened_eq = none_open;
        ready_eq = not_ready;
        all_eq = not_all ∙ sym (ltb_zero (env.pointers.size w.session.channels));
        requests_eq = none_yet;
      } in
      subst
        (λ n.
          requests (signals env es w).log
          ≡ bit (ready_among es && ltb (env.pointers.size w.session.channels) n))
        (zero_plus (opened_among es))
        (signals-Heard w.session.channels size_fits es false 0 w (omega (arith, fits))
          fresh).requests_eq
