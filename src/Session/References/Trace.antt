-- ===== src/Session/References/Trace.antt =====
-- src/session: the references to a session from its initialization on, over all that may happen to it.
use pomelo_udp_webrtc_plugin.Base.{
  ℕ, ◌+◌, ◌≡◌, refl, ap, ◌∙◌, inl, inr, true, false, Bool-cases, Option-cases, Option, List, [],
  ◌∷◌, arith,
}
use pomelo_udp_webrtc_plugin.Env.{Env, Call, Mode}
use pomelo_udp_webrtc_plugin.World.{World, emit, update_flags, update_session, schedule_task}
use pomelo_udp_webrtc_plugin.Channel.{channel_init, channel_dc_init}
use pomelo_udp_webrtc_plugin.Session.Cleanup.{
  session_cleanup, session_on_finalize, session_unref, unschedule_timeout, reset,
}
use pomelo_udp_webrtc_plugin.Session.Close.{
  session_close, ws_on_closed, pc_on_closed, on_timeout, schedule_timeout,
}
use pomelo_udp_webrtc_plugin.Session.Close.Quiet.{session_close-IsQuiet}
use pomelo_udp_webrtc_plugin.Session.Open.{auth_timeout_ms, ws_init, pc_init, session_init}
use pomelo_udp_webrtc_plugin.Session.References.{
  refs, unrefs, channel_releases, flag, session_close-GivesUp, on_closed-GivesUp,
}

module _ (env : Env) where
  -- What may happen to a session: it is closed, its timeout runs out, its WebSocket or its peer
  -- connection is closed, or a channel is prepared for it.
  pub data Event : Type 0 where
    ended timed_out ws_over pc_over : Event
    channel_made : ℕ → ℕ → Mode → Event

  abbrev pub happened : Event → World env → World env
  happened ended w = session_close env w
  happened timed_out w = on_timeout env w
  happened ws_over w = ws_on_closed env w
  happened pc_over w = pc_on_closed env w
  happened (channel_made p index mode) w = (channel_init env p index mode w).0

  abbrev pub run : List Event → World env → World env
  run [] w = w
  run (e ∷ es) w = run es (happened e w)

  -- The parts of the session that no longer reference it, and the channels that do.
  abbrev pub overs : List Event → ℕ
  overs [] = 0
  overs (ws_over ∷ es) = overs es + 1
  overs (pc_over ∷ es) = overs es + 1
  overs (_ ∷ es) = overs es

  abbrev pub made : List Event → ℕ
  made [] = 0
  made (channel_made p index mode ∷ es) = made es + 1
  made (_ ∷ es) = made es

  -- From `w` to `v`: `n` references were given up by parts, `m` were taken, and one was given up if the
  -- session was deactivated.
  abbrev Accounts : ℕ → ℕ → World env → World env → Type 0
  Accounts n m w v =
      (unrefs v.log + channel_releases w.log + flag v.session.flags.active
        ≡ unrefs w.log + channel_releases v.log + flag w.session.flags.active + n)
      × (refs v.log ≡ refs w.log + m)

  closed_already : (w : World env) → w.session.flags.active ≡ false → session_close env w ≡ w
  unfolding session_close
  closed_already w closed = rw closed refl

  unschedule_timeout_lem :
      (w : World env)
      → (unrefs (unschedule_timeout env w).log ≡ unrefs w.log)
        × (refs (unschedule_timeout env w).log ≡ refs w.log)
        × (channel_releases (unschedule_timeout env w).log ≡ channel_releases w.log)
        × ((unschedule_timeout env w).session.flags.active ≡ w.session.flags.active)
  unfolding unschedule_timeout
  unschedule_timeout_lem w = ground arith

  session_close_inactive : (w : World env) → (session_close env w).session.flags.active ≡ false
  session_close_inactive w = elim (Bool-cases w.session.flags.active) [
    | inl live ↦ (session_close-IsQuiet env w live).inactive
    | inr closed ↦ ap (λ v. v.session.flags.active) (closed_already w closed) ∙ closed
  ]

  session_unref_inactive :
      (w : World env)
      → w.session.flags.active ≡ false
      → (session_unref env w).session.flags.active ≡ false
  unfolding session_unref session_on_finalize session_cleanup reset
  session_unref_inactive w h = ground (arith, h)

  session_close-Accounts : (w : World env) → Accounts 0 0 w (session_close env w)
  session_close-Accounts w =
      let (balance, same) = session_close-GivesUp env w in
      (omega (arith, balance, ap flag (session_close_inactive w)), omega (arith, same))

  on_closed-Accounts : (w : World env) → Accounts 1 0 w (session_unref env (session_close env w))
  on_closed-Accounts w =
      let (balance, same) = on_closed-GivesUp env w in
      let inactive = session_unref_inactive (session_close env w) (session_close_inactive w) in
      (omega (arith, balance, ap flag inactive), omega (arith, same))

  on_timeout-Accounts : (w : World env) → Accounts 0 0 w (on_timeout env w)
  unfolding on_timeout
  on_timeout-Accounts w =
      let (balance, same) = session_close-Accounts (unschedule_timeout env w) in
      let (unref, ref, release, active) = unschedule_timeout_lem w in
      (omega (arith, balance, unref, release, ap flag active), omega (arith, same, ref))

  channel_init-Accounts :
      (p index : ℕ) (mode : Mode) (w : World env)
      → Accounts 0 1 w (channel_init env p index mode w).0
  unfolding channel_init channel_dc_init
  channel_init-Accounts p index mode w = ground arith

  happened-Accounts :
      (e : Event) (w : World env) → Accounts (overs (e ∷ [])) (made (e ∷ [])) w (happened e w)
  unfolding ws_on_closed pc_on_closed
  happened-Accounts ended w = session_close-Accounts w
  happened-Accounts timed_out w = on_timeout-Accounts w
  happened-Accounts ws_over w = on_closed-Accounts w
  happened-Accounts pc_over w = on_closed-Accounts w
  happened-Accounts (channel_made p index mode) w = channel_init-Accounts p index mode w

  overs-cons : (e : Event) (es : List Event) → overs (e ∷ es) ≡ overs (e ∷ []) + overs es
  overs-cons e es = ground arith

  made-cons : (e : Event) (es : List Event) → made (e ∷ es) ≡ made (e ∷ []) + made es
  made-cons e es = ground arith

  run-Accounts : (es : List Event) (w : World env) → Accounts (overs es) (made es) w (run es w)
  run-Accounts [] w = (omega arith, omega arith)
  run-Accounts (e ∷ es) w =
      let (here, same) = happened-Accounts e w in
      let (rest, same1) = run-Accounts es (happened e w) in
      (omega (arith, here, rest, overs-cons e es), omega (arith, same, same1, made-cons e es))

  -- What the initialization of a part does: `n` references are taken, none is given up.
  abbrev Takes : ℕ → World env → World env → Type 0
  Takes n w v =
      (refs v.log ≡ refs w.log + n)
      × (unrefs v.log ≡ unrefs w.log)
      × (channel_releases v.log ≡ channel_releases w.log)
      × (v.session.flags.active ≡ w.session.flags.active)

  schedule_timeout-Takes : (ms : ℕ) (w : World env) → Takes 0 w (schedule_timeout env ms w).0
  unfolding schedule_timeout schedule_task
  schedule_timeout-Takes ms w = ground arith

  pc_init-Takes : (w : World env) → (pc_init env w).1 ≡ true → Takes 1 w (pc_init env w).0
  unfolding pc_init
  pc_init-Takes w ok = elim (Option-cases (env.pointer w.log Call.pc_create)) [
    | inl no_pc ↦ ground (arith, no_pc, ok)
    | inr (pc, has_pc) ↦ ground (arith, has_pc)
  ]

  ws_init-Takes : (client : Option ℕ) (w : World env) → Takes 1 w (ws_init env client w)
  unfolding ws_init
  ws_init-Takes client w = ground arith

  -- The references that an initialization without error leaves to the parts.
  session_init-refs :
      (socket client : Option ℕ) (w : World env)
      → (session_init env socket client w).1 ≡ true
      → (refs (session_init env socket client w).0.log ≡ refs w.log + 2)
        × (unrefs (session_init env socket client w).0.log ≡ unrefs w.log)
        × (channel_releases (session_init env socket client w).0.log ≡ channel_releases w.log)
        × ((session_init env socket client w).0.session.flags.active ≡ true)
  unfolding session_init
  session_init-refs socket client w ok =
      let w1 = emit env (Call.socket_ref socket) (
        update_flags env (λ f. record f { active = true })
          (update_session env (λ s. record s { socket = socket })
            (emit env Call.session_ref_init w))) in
      let w2 = ws_init env client w1 in
      let (ref1, unref1, release1, active1) = ws_init-Takes client w1 in
      elim (Bool-cases (pc_init env w2).1) [
        | inl made_pc ↦
            let (ref2, unref2, release2, active2) = pc_init-Takes w2 made_pc in
            let (ref3, unref3, release3, active3) =
              schedule_timeout-Takes auth_timeout_ms (pc_init env w2).0 in
            rw made_pc (
              omega (arith, ref1, ref2, ref3),
              unref3 ∙ unref2 ∙ unref1,
              release3 ∙ release2 ∙ release1,
              active3 ∙ active2 ∙ active1,
            )
        | inr no_pc ↦ absurd (ground (arith, no_pc, ok))
      ]

  -- A session that was initialized without error, for which then, in any order and number, channels are
  -- prepared and it is closed, its timeout runs out, and its WebSocket and its peer connection are
  -- closed: two references were taken besides its own, and one for each channel that was prepared;
  -- and as many were given up as parts were closed, channels released, and one more (its own) exactly
  -- if the session is not active any more. This holds whatever the counters and the libraries answer.
  pub session_references :
      (socket client : Option ℕ) (w : World env) (es : List Event)
      → (session_init env socket client w).1 ≡ true
      → (refs (run es (session_init env socket client w).0).log ≡ refs w.log + 2 + made es)
        × (unrefs (run es (session_init env socket client w).0).log
              + channel_releases w.log
              + flag (run es (session_init env socket client w).0).session.flags.active
            ≡ unrefs w.log
              + channel_releases (run es (session_init env socket client w).0).log
              + overs es
              + 1)
  session_references socket client w es ok =
      let (ref, unref, release, active) = session_init-refs socket client w ok in
      let (balance, taken) = run-Accounts es (session_init env socket client w).0 in
      (omega (arith, ref, taken), omega (arith, balance, unref, release, ap flag active))
