-- ===== src/Session/Auth/Untouched.antt =====
-- src/session/session.c: what the creation of the channels and the timers leave alone.
use pomelo_udp_webrtc_plugin.Base.{
  ℕ, zero, suc, ◌+◌, ◌≡◌, refl, ◌∙◌, inl, inr, Bool-cases, Option-cases, List, [], ◌∷◌, Bytes,
  arith,
}
use pomelo_udp_webrtc_plugin.Decimal.{ℤ, pos, negsuc}
use pomelo_udp_webrtc_plugin.Env.{Env, Call, Mode}
use pomelo_udp_webrtc_plugin.World.{World, update_session, schedule_task}
use pomelo_udp_webrtc_plugin.Label.{system_index}
use pomelo_udp_webrtc_plugin.Channel.{acquire_channel, channel_init, channel_dc_init}
use pomelo_udp_webrtc_plugin.Session.Cleanup.{unschedule_timeout}
use pomelo_udp_webrtc_plugin.Session.Close.{schedule_timeout}
use pomelo_udp_webrtc_plugin.Session.Auth.{
  create_channel, create_loop, create_system_channel, create_channels, schedule_negotiation,
}
use pomelo_udp_webrtc_plugin.Session.Auth.Channels.{openings}

-- The texts that were sent over WebSockets, the last one first.
abbrev pub texts : List Call → List Bytes
texts [] = []
texts (Call.ws_send client text ∷ l) = text ∷ texts l
texts (_ ∷ l) = texts l

module _ (env : Env) where
  -- Neither the flags nor the client are touched, and nothing is sent over the WebSocket.
  abbrev pub Untouched : World env → World env → Type 0
  Untouched w v =
      (v.session.flags ≡ w.session.flags)
      × (v.session.client_id ≡ w.session.client_id)
      × (texts v.log ≡ texts w.log)

  pub then_Untouched : (u v w : World env) → Untouched u v → Untouched v w → Untouched u w
  then_Untouched u v w first second = (second.0 ∙ first.0, second.1 ∙ first.1, second.2 ∙ first.2)

  acquire_channel-Untouched :
      (index : ℕ) (mode : Mode) (w : World env) → Untouched w (acquire_channel env index mode w).0
  unfolding acquire_channel channel_init channel_dc_init
  acquire_channel-Untouched index mode w = ground arith

  create_channel-Untouched : (i : ℕ) (w : World env) → Untouched w (create_channel env i w).0
  unfolding create_channel
  create_channel-Untouched i w = elim (Option-cases (env.modes.get w.channel_modes i)) [
    | inl outside ↦ ground (arith, outside)
    | inr (mode, e) ↦ let same = acquire_channel-Untouched i mode w in ground (arith, e, same)
  ]

  create_loop-Untouched :
      (rounds i : ℕ) (w : World env) → Untouched w (create_loop env rounds i w).0
  unfolding create_loop
  create_loop-Untouched zero i w = (refl, refl, refl)
  create_loop-Untouched (suc rounds) i w =
      let here = create_channel-Untouched i w in
      let rest = create_loop-Untouched rounds (i + 1) (create_channel env i w).0 in
      elim (Bool-cases (create_channel env i w).1) [
        | inl created ↦ rw created (
            then_Untouched w (create_channel env i w).0
              (create_loop env rounds (i + 1) (create_channel env i w).0).0 here rest)
        | inr stopped ↦ rw stopped here
      ]

  create_system_channel-Untouched : (w : World env) → Untouched w (create_system_channel env w).0
  unfolding create_system_channel
  create_system_channel-Untouched w =
      let same = acquire_channel-Untouched system_index Mode.unreliable w in ground (arith, same)

  pub create_channels-Untouched : (w : World env) → Untouched w (create_channels env w).0
  unfolding create_channels
  create_channels-Untouched w =
      let n = env.modes.size w.channel_modes in
      elim (Option-cases (env.pointers.resize w.session.channels n)) [
        | inl full ↦ ground (arith, full)
        | inr (a, e) ↦
            let w1 = update_session env (λ s. record s { channels = env.pointers.fill_zero a }) w in
            let loop = create_loop-Untouched n 0 w1 in
            let system = create_system_channel-Untouched (create_loop env n 0 w1).0 in
            ground (arith, e, loop, system)
      ]

  -- The timeout of the negotiation: no channel is touched, either.
  pub schedule_negotiation-Untouched :
      (timeout : ℤ) (w : World env)
      → Untouched w (schedule_negotiation env timeout w).0
        × ((schedule_negotiation env timeout w).0.session.channels ≡ w.session.channels)
        × ((schedule_negotiation env timeout w).0.session.system_channel ≡ w.session.system_channel)
        × (openings (schedule_negotiation env timeout w).0.log ≡ openings w.log)
  unfolding schedule_negotiation schedule_timeout schedule_task
  schedule_negotiation-Untouched (negsuc n) w = ((refl, refl, refl), refl, refl, refl)
  schedule_negotiation-Untouched (pos zero) w = ((refl, refl, refl), refl, refl, refl)
  schedule_negotiation-Untouched (pos (suc n)) w = ground arith

  pub unschedule_timeout-Untouched :
      (w : World env)
      → Untouched w (unschedule_timeout env w)
        × ((unschedule_timeout env w).channel_modes ≡ w.channel_modes)
        × (openings (unschedule_timeout env w).log ≡ openings w.log)
  unfolding unschedule_timeout
  unschedule_timeout-Untouched w = ground arith
