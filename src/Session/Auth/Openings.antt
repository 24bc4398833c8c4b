-- ===== src/Session/Auth/Openings.antt =====
-- src/session/session.c: when the channels of a session are created, and when its negotiation is scheduled.
use pomelo_udp_webrtc_plugin.Base.{
  ℕ, zero, suc, ◌+◌, ◌*◌, Option, ◌<◌, ◌≤◌, ◌≡◌, ◌⊎◌, ap, subst, inl, inr, true, false, Bool-cases,
  Option-cases, none, some, ◌∷◌, ◌++◌, List, Bytes, arith,
}
use pomelo_udp_webrtc_plugin.Decimal.{ℤ, pos, negsuc}
use pomelo_udp_webrtc_plugin.Env.{
  Mode, Timer, Call, Env, Reliability, load_thread_running, acquire_timer_task, timer_start,
}
use pomelo_udp_webrtc_plugin.World.{World, emit, schedule_task}
use pomelo_udp_webrtc_plugin.Label.{system_index, server_label}
use pomelo_udp_webrtc_plugin.Channel.{
  reliability_of, channel_dc_init, channel_init, acquire_channel,
}
use pomelo_udp_webrtc_plugin.Session.Close.{schedule_timeout}
use pomelo_udp_webrtc_plugin.Session.Auth.{
  create_channel, create_loop, create_system_channel, create_channels, schedule_negotiation,
}
use pomelo_udp_webrtc_plugin.Session.Auth.Channels.{
  ArrayLaws, openings, opening, openings_from, create_channel_lem, create_channels_made, cleared,
}

-- What the environment may refuse to the channels: the memory of an array, a mode in range, a channel, or
-- its data channel.
pub data ChannelsLack (env : Env) (modes : env.modes.Array) : Type 0 where
  no_array :
      (a : env.pointers.Array) (n : ℕ) → env.pointers.resize a n ≡ none → ChannelsLack env modes
  no_mode :
      (j : ℕ) → j < env.modes.size modes → env.modes.get modes j ≡ none → ChannelsLack env modes
  no_channel : (l : List Call) → env.pointer l Call.acquire_channel ≡ none → ChannelsLack env modes
  no_data_channel :
      (l : List Call) (pc : Option ℕ) (p : ℕ) (label : Bytes) (reliability : Reliability)
      → env.pointer l (Call.dc_create pc p label reliability) ≡ none
      → ChannelsLack env modes

-- What it may refuse to the timeout: the running thread, a timer, or its start.
pub data TimeoutLacks (env : Env) : Type 0 where
  no_thread : (l : List Call) → env.succeeds l load_thread_running ≡ false → TimeoutLacks env
  no_timer : (l : List Call) → env.pointer l acquire_timer_task ≡ none → TimeoutLacks env
  no_start :
      (l : List Call) (task interval : ℕ)
      → env.succeeds l (timer_start task Timer.on_timeout interval) ≡ false
      → TimeoutLacks env

module _ (env : Env) where
  channel_init_fails :
      (modes : env.modes.Array) (p index : ℕ) (mode : Mode) (w : World env)
      → (channel_init env p index mode w).1 ≡ false
      → ChannelsLack env modes
  unfolding channel_init channel_dc_init
  channel_init_fails modes p index mode w bad =
      let l = Call.session_ref ∷ Call.channel_ref_init p ∷ w.log in
      let call = Call.dc_create w.session.pc p (server_label index) (reliability_of mode) in
      elim (Option-cases (env.pointer l call)) [
        | inl refused ↦
            no_data_channel l w.session.pc p (server_label index) (reliability_of mode) refused
        | inr (dc, e) ↦ absurd (ground (arith, e, bad))
      ]

  acquire_channel_fails :
      (modes : env.modes.Array) (index : ℕ) (mode : Mode) (w : World env)
      → (acquire_channel env index mode w).1 ≡ none
      → ChannelsLack env modes
  acquire_channel_fails modes index mode w bad =
      elim (Option-cases (env.pointer w.log Call.acquire_channel)) [
        | inl none_left ↦ no_channel w.log none_left
        | inr (p, e) ↦
            let w1 = emit env Call.acquire_channel w in
            elim (Bool-cases (channel_init env p index mode w1).1) [
              | inl good ↦ absurd (unfold acquire_channel in ground (arith, e, good, bad))
              | inr failed ↦ channel_init_fails modes p index mode w1 failed
            ]
      ]

  create_channel_fails :
      (i : ℕ) (w : World env)
      → i < env.modes.size w.channel_modes
      → (create_channel env i w).1 ≡ false
      → ChannelsLack env w.channel_modes
  create_channel_fails i w h bad = elim (Option-cases (env.modes.get w.channel_modes i)) [
    | inl outside ↦ no_mode i h outside
    | inr (mode, e) ↦ elim (Option-cases (acquire_channel env i mode w).1) [
      | inl failed ↦ acquire_channel_fails w.channel_modes i mode w failed
      | inr (p, good) ↦ absurd (unfold create_channel in ground (arith, e, good, bad))
    ]
  ]

  create_loop_fails :
      (rounds i : ℕ) (w : World env)
      → i + rounds ≤ env.modes.size w.channel_modes
      → (create_loop env rounds i w).1 ≡ false
      → ChannelsLack env w.channel_modes
  unfolding create_loop
  create_loop_fails zero i w h bad = absurd (ground (arith, bad))
  create_loop_fails (suc rounds) i w h bad = elim (Bool-cases (create_channel env i w).1) [
    | inr stopped ↦ create_channel_fails i w (omega (arith, h)) stopped
    | inl created ↦
        let (p, made) = create_channel_lem env i w created in
        let v = (create_channel env i w).0 in
        let size = ap (λ m. env.modes.size m) made.1 in
        subst (ChannelsLack env) (made.1) (
          create_loop_fails rounds (i + 1) v (omega (arith, h, size))
            (ground (arith, created, bad)))
  ]

  create_system_channel_fails :
      (modes : env.modes.Array) (w : World env)
      → (create_system_channel env w).1 ≡ false
      → ChannelsLack env modes
  create_system_channel_fails modes w bad =
      elim (Option-cases (acquire_channel env system_index Mode.unreliable w).1) [
        | inl failed ↦ acquire_channel_fails modes system_index Mode.unreliable w failed
        | inr (p, good) ↦ absurd (unfold create_system_channel in ground (arith, good, bad))
      ]

  pub create_channels_fails :
      (w : World env) → (create_channels env w).1 ≡ false → ChannelsLack env w.channel_modes
  create_channels_fails w bad =
      let n = env.modes.size w.channel_modes in
      elim (Option-cases (env.pointers.resize w.session.channels n)) [
        | inl full ↦ no_array w.session.channels n full
        | inr (a, e) ↦
            let v = cleared env a w in
            elim (Bool-cases (create_loop env n 0 v).1) [
              | inr stopped ↦ create_loop_fails n 0 v (omega arith) stopped
              | inl done ↦
                  create_system_channel_fails w.channel_modes (create_loop env n 0 v).0
                    (unfold create_channels in ground (arith, e, done, bad))
            ]
      ]

  schedule_task_fails :
      (n : ℕ) (w : World env)
      → 0 < n
      → (schedule_task env Timer.on_timeout n w).1 ≡ none
      → TimeoutLacks env
  schedule_task_fails n w positive bad =
      let w1 = emit env load_thread_running w in
      let w2 = emit env acquire_timer_task w1 in
      elim (Bool-cases (env.succeeds w.log load_thread_running)) [
        | inr stopped ↦ no_thread w.log stopped
        | inl running ↦ elim (Option-cases (env.pointer w1.log acquire_timer_task)) [
          | inl empty ↦ no_timer w1.log empty
          | inr (task, e) ↦
              elim (Bool-cases (env.succeeds w2.log (timer_start task Timer.on_timeout n))) [
                | inr stopped ↦ no_start w2.log task n stopped
                | inl started ↦
                    absurd (unfold schedule_task in ground (arith, running, e, started, bad))
              ]
        ]
      ]

  scheduled_ok :
      (n task : ℕ) (w : World env)
      → (schedule_task env Timer.on_timeout n w).1 ≡ some task
      → (schedule_timeout env n w).1 ≡ false
      → ⊥
  unfolding schedule_timeout
  scheduled_ok n task w e bad = ground (arith, e, bad)

  pub schedule_negotiation_fails :
      (timeout : ℤ) (w : World env)
      → (schedule_negotiation env timeout w).1 ≡ false
      → TimeoutLacks env
  unfolding schedule_negotiation
  schedule_negotiation_fails (negsuc n) w bad = absurd (ground (arith, bad))
  schedule_negotiation_fails (pos zero) w bad = absurd (ground (arith, bad))
  schedule_negotiation_fails (pos (suc n)) w bad =
      elim (Option-cases (schedule_task env Timer.on_timeout (1000 * suc n) w).1) [
        | inl none_left ↦ schedule_task_fails (1000 * suc n) w (omega arith) none_left
        | inr (task, e) ↦ absurd (scheduled_ok (1000 * suc n) task w e bad)
      ]

  -- Where the arrays keep to their documentation: the creation of the channels fails only where the
  -- environment refuses something, the memory of the array, a mode in range, a channel or a data channel;
  -- else the session has exactly as many as its socket has modes, a channel at every index, and a system
  -- channel; and the data channels were opened with the label of each index and the reliability of the
  -- mode that the socket has there, in ascending order, and last an unreliable one with the label of the
  -- system channel.
  pub create_channels-openings :
      ArrayLaws env.pointers
      → (w : World env) (j : ℕ) → j < env.modes.size w.channel_modes
      → let v = (create_channels env w).0 in
        (((create_channels env w).1 ≡ false) × ChannelsLack env w.channel_modes)
        ⊎ (((create_channels env w).1 ≡ true)
            × (env.pointers.size v.session.channels ≡ env.modes.size w.channel_modes)
            × ((p : ℕ) × (env.pointers.get v.session.channels j ≡ some (some p)))
            × ((q : ℕ) × (v.session.system_channel ≡ some q))
            × (openings v.log
                ≡ opening system_index Mode.unreliable
                  ∷ (openings_from env w.channel_modes 0 (env.modes.size w.channel_modes)
                      ++ openings w.log)))
  create_channels-openings laws w j h = elim (Bool-cases (create_channels env w).1) [
    | inr failed ↦ inl (failed, create_channels_fails w failed)
    | inl ok ↦
        let (size, there, system, named) = create_channels_made env laws w ok in
        inr (ok, size, there j h, system, named)
  ]
