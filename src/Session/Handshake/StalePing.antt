-- ===== src/Session/Handshake/StalePing.antt =====
-- src/session/session.c: the ping timer of a session that is closed before its last channel opens.
use pomelo_udp_webrtc_plugin.Base.{
  ℕ, ◌+◌, ◌≡◌, ◌≢◌, true, false, none, some, List, [], ◌∷◌, u64, ◌==◌, if◌then◌else◌, arith,
}
use pomelo_udp_webrtc_plugin.Env.{Env, Call, Timer}
use pomelo_udp_webrtc_plugin.World.{
  World, emit, update_session, update_flags, schedule_task, unschedule_task,
}
use pomelo_udp_webrtc_plugin.Session.Cleanup.{session_cleanup}
use pomelo_udp_webrtc_plugin.Session.Send.{ws_send_ready}
use pomelo_udp_webrtc_plugin.Session.Handshake.{
  start_ping, on_all_channels_opened, on_channel_opened, ping_interval_ms,
}

-- How often the timer of a task was stopped.
abbrev pub stops : ℕ → List Call → ℕ
stops t [] = 0
stops t (Call.timer_stop u ∷ l) = if t == u then stops t l + 1 else stops t l
stops t (_ ∷ l) = stops t l

module _ (env : Env) where
  -- The world in which the timer of the ping is started, after the ready message was not sent.
  abbrev pub before_start : World env → World env
  before_start w = emit env Call.acquire_timer_task (emit env Call.load_thread_running w)

  -- The plugin's thread runs, a timer task is to be had, and its timer starts.
  abbrev pub Schedules : ℕ → World env → Type 0
  Schedules task w =
      (env.succeeds w.log Call.load_thread_running ≡ true)
      × (env.pointer (emit env Call.load_thread_running w).log Call.acquire_timer_task ≡ some task)
      × (env.succeeds (before_start w).log
            (Call.timer_start task Timer.ping_callback ping_interval_ms)
          ≡ true)

  opened : World env → World env
  opened w = update_session env (λ s. record s { opened_channels = u64 (s.opened_channels + 1) }) w

  -- The session with the ping that was started for it.
  abbrev pinging : ℕ → World env → World env
  pinging task w =
      update_session env (λ s. record s { ping_task = some task })
        (emit env (Call.timer_start task Timer.ping_callback ping_interval_ms) (before_start w))

  start_ping_lem : (task : ℕ) (w : World env) → Schedules task w → start_ping env w ≡ pinging task w
  unfolding start_ping schedule_task
  start_ping_lem task w h = ground arith

  all_opened_late :
      (task : ℕ) (w : World env)
      → w.session.flags.ws_active ≡ false
      → w.session.flags.ready_signal_received ≡ false
      → Schedules task w
      → on_all_channels_opened env w
        ≡ update_flags env (λ f. record f { all_channels_opened = true }) (pinging task w)
  unfolding on_all_channels_opened ws_send_ready
  all_opened_late task w h k l = ground (arith, start_ping_lem task w l)

  ends_no_stop :
      (task : ℕ) (w : World env)
      → w.session.task_timeout ≢ some task
      → (stops task (session_cleanup env w).log ≡ stops task w.log)
        × ((session_cleanup env w).session.ping_task ≡ none)
  unfolding session_cleanup unschedule_task
  ends_no_stop task w h = ground arith

  late : ℕ → World env → World env
  late task w =
      update_flags env (λ f. record f { all_channels_opened = true }) (pinging task (opened w))

  on_channel_opened-late :
      (task : ℕ) (w : World env)
      → w.session.flags.ws_active ≡ false
      → w.session.flags.ready_signal_received ≡ false
      → u64 (w.session.opened_channels + 1) ≡ u64 (env.pointers.size w.session.channels + 1)
      → Schedules task w
      → on_channel_opened env w ≡ late task w
  unfolding on_channel_opened opened late
  on_channel_opened-late task w ws ready last scheduled =
      ground (arith, all_opened_late task (opened w) ws ready scheduled)

  -- When the last channel of a session opens after the session was closed (it is inactive, its
  -- WebSocket is deactivated and the client was not ready), and the context can schedule a timer
  -- task other than the session's timeout, the ping is started on that task all the same; and the
  -- cleanup of the session then forgets the task without stopping its timer.
  pub late_open_leaks_ping :
      (task : ℕ) (w : World env)
      → w.session.flags.active ≡ false
      → w.session.flags.ws_active ≡ false
      → w.session.flags.ready_signal_received ≡ false
      → w.session.task_timeout ≢ some task
      → u64 (w.session.opened_channels + 1) ≡ u64 (env.pointers.size w.session.channels + 1)
      → Schedules task w
      → ((on_channel_opened env w).session.flags.active ≡ false)
        × ((on_channel_opened env w).session.ping_task ≡ some task)
        × ((session_cleanup env (on_channel_opened env w)).session.ping_task ≡ none)
        × (stops task (session_cleanup env (on_channel_opened env w)).log ≡ stops task w.log)
  unfolding late opened
  late_open_leaks_ping task w inactive ws ready other last scheduled =
      let same = on_channel_opened-late task w ws ready last scheduled in
      let ends = ends_no_stop task (late task w) other in
      (rw same inactive, rw same, rw same (ends.1), rw same (ends.0))
