-- ===== src/World.antt =====
-- The state of one session and its channels (the structs of src/session/session.h and
-- src/channel/channel.h), with the calls made so far, and the elementary steps on it.
use pomelo_udp_webrtc_plugin.Base.{
  ℕ, Bool, false, not, Option, none, some, List, ◌∷◌, ◌==◌, if◌then◌else◌,
}
use pomelo_udp_webrtc_plugin.Decimal.{ℤ}
use pomelo_udp_webrtc_plugin.Env.{
  Mode, Timer, Call, Env, load_thread_running, acquire_timer_task, timer_start, timer_stop,
  release_timer_task,
}

-- The bits of `pomelo_webrtc_session_t.flags`, bit 0 first.
pub record SessionFlags : Type 0 where
  pub active : Bool
  pub ws_active : Bool
  pub ws_authenticated : Bool
  pub pc_active : Bool
  pub ready_signal_received : Bool
  pub all_channels_opened : Bool

abbrev pub no_flags : SessionFlags
no_flags = record {
  active = false;
  ws_active = false;
  ws_authenticated = false;
  pc_active = false;
  ready_signal_received = false;
  all_channels_opened = false;
}

-- `pomelo_webrtc_channel_t`; the first three fields are the bits of its flags. `session` says that its
-- session pointer is not NULL.
pub record Channel : Type 0 where
  pub active : Bool
  pub dc_active : Bool
  pub dc_receive : Bool
  pub index : ℕ
  pub mode : Mode
  pub session : Bool
  pub incoming_dc : Option ℕ
  pub outgoing_dc : Option ℕ

module _ (env : Env) where
  -- `pomelo_webrtc_session_t`, less its counter, its RTT calculator and its address, which other
  -- libraries keep.
  pub record Session : Type 0 where
    pub flags : SessionFlags
    pub socket : Option ℕ
    pub channels : env.pointers.Array
    pub system_channel : Option ℕ
    pub list_entry : Option ℕ
    pub opened_channels : ℕ
    pub ping_task : Option ℕ
    pub native_session : Option ℕ
    pub client_id : ℤ
    pub pc : Option ℕ
    pub ws_client : Option ℕ
    pub task_timeout : Option ℕ

  -- The session, its channels by their pointers, the modes that its socket has for them, and the
  -- calls so far, the last one first.
  pub record World : Type 0 where
    pub session : Session
    pub channel : ℕ → Channel
    pub channel_modes : env.modes.Array
    pub log : List Call

  abbrev pub emit : Call → World → World
  emit c w = record w { log = c ∷ w.log }

  abbrev pub update_session : (Session → Session) → World → World
  update_session f w = record w { session = f w.session }

  abbrev pub update_flags : (SessionFlags → SessionFlags) → World → World
  update_flags f w = record w { session = record (w.session) { flags = f w.session.flags } }

  abbrev pub update_channel : ℕ → (Channel → Channel) → World → World
  update_channel p f w = record w { channel = λ q. if p == q then f (w.channel p) else w.channel q }

  -- `pomelo_webrtc_context_schedule_task` in src/context.c; its `argc` is 1 at both calls.
  unfoldable pub schedule_task : Timer → ℕ → World → World × Option ℕ
  schedule_task callback interval w =
      let w1 = emit load_thread_running w in
      if not (env.succeeds w.log load_thread_running)
      then (w1, none)
      else if interval == 0
      then (w1, none)
      else elim (env.pointer w1.log acquire_timer_task) [
        | none ↦ (emit acquire_timer_task w1, none)
        | some task ↦
            let w2 = emit acquire_timer_task w1 in
            let w3 = emit (timer_start task callback interval) w2 in
            if env.succeeds w2.log (timer_start task callback interval)
            then (w3, some task)
            else (emit (release_timer_task task) w3, none)
      ]

  -- `pomelo_webrtc_context_unschedule_task`
  unfoldable pub unschedule_task : ℕ → World → World
  unschedule_task task w = emit (release_timer_task task) (emit (timer_stop task) w)
