-- ===== src/Session/References.antt =====
-- src/session, src/channel: who gives up references to a session.
use pomelo_udp_webrtc_plugin.Base.{
  ℕ, zero, suc, ◌+◌, ◌≡◌, refl, ap, ◌∙◌, inl, inr, Bool, true, false, Bool-cases, Option-cases,
  Option, none, some, List, [], ◌∷◌, if◌then◌else◌, arith,
}
use pomelo_udp_webrtc_plugin.Env.{Env, Call, Mode}
use pomelo_udp_webrtc_plugin.World.{World, emit, update_flags, update_session, schedule_task}
use pomelo_udp_webrtc_plugin.Channel.{
  outgoing_cleanup, incoming_cleanup, channel_cleanup, channel_on_finalize, channel_unref,
  channel_dc_close, channel_close, channel_init, channel_dc_init,
}
use pomelo_udp_webrtc_plugin.Session.Cleanup.{
  destroy_native_session, session_cleanup, session_on_finalize, session_unref, unschedule_timeout,
  reset,
}
use pomelo_udp_webrtc_plugin.Session.Close.{
  stop_ping, close_element, close_channels, close_system_channel, ws_close, pc_close,
  socket_remove_session, close_parts, session_close, ws_on_closed, pc_on_closed, on_timeout,
  schedule_timeout,
}
use pomelo_udp_webrtc_plugin.Session.Close.Quiet.{
  channel_close_cases, deactivated, session_close-IsQuiet,
}
use pomelo_udp_webrtc_plugin.Session.Open.{auth_timeout_ms, ws_init, pc_init, session_init}
pub mod Trace

-- How often the session's counter was raised, and how often it was lowered.
abbrev pub refs : List Call → ℕ
refs [] = 0
refs (Call.session_ref ∷ l) = refs l + 1
refs (_ ∷ l) = refs l

abbrev pub unrefs : List Call → ℕ
unrefs [] = 0
unrefs (Call.session_unref ∷ l) = unrefs l + 1
unrefs (_ ∷ l) = unrefs l

-- How many channels went back to their pool.
abbrev pub channel_releases : List Call → ℕ
channel_releases [] = 0
channel_releases (Call.release_channel p ∷ l) = channel_releases l + 1
channel_releases (_ ∷ l) = channel_releases l

abbrev pub flag : Bool → ℕ
flag true = 1
flag false = 0

module _ (env : Env) where
  -- From `w` to `v` as many references were given up as channels were released, and `n` more; none was
  -- taken.
  abbrev pub GivesUp : ℕ → World env → World env → Type 0
  GivesUp n w v =
      (unrefs v.log + channel_releases w.log ≡ unrefs w.log + channel_releases v.log + n)
      × (refs v.log ≡ refs w.log)

  together : (n m : ℕ) (u v w : World env) → GivesUp n u v → GivesUp m v w → GivesUp (n + m) u w
  together n m u v w (h, same) (k, same1) = (omega (arith, h, k), same1 ∙ same)

  session_unref-GivesUp : (w : World env) → GivesUp 1 w (session_unref env w)
  unfolding session_unref session_on_finalize session_cleanup
  session_unref-GivesUp w = ground arith

  channel_unref-GivesUp : (p : ℕ) (w : World env) → GivesUp 0 w (channel_unref env p w)
  unfolding channel_unref channel_on_finalize channel_cleanup outgoing_cleanup incoming_cleanup
  channel_unref-GivesUp p w =
      let v = emit env (Call.release_channel p) (emit env (Call.channel_unref p) w) in
      ground (arith, session_unref-GivesUp (incoming_cleanup env p (outgoing_cleanup env p v)))

  channel_dc_close-GivesUp : (p : ℕ) (w : World env) → GivesUp 0 w (channel_dc_close env p w)
  unfolding channel_dc_close
  channel_dc_close-GivesUp p w = ground arith

  close_element-GivesUp :
      (o : Option (Option ℕ)) (w : World env) → GivesUp 0 w (close_element env o w)
  unfolding close_element
  close_element-GivesUp none w = (omega arith, refl)
  close_element-GivesUp (some none) w = (omega arith, refl)
  close_element-GivesUp (some (some p)) w = elim (channel_close_cases env p w) [
    | inl closed ↦ rw closed (omega arith, refl)
    | inr live ↦
        let v = channel_dc_close env p (deactivated env p w) in
        rw live (
          together 0 0 w v (channel_unref env p v)
            (channel_dc_close-GivesUp p (deactivated env p w)) (channel_unref-GivesUp p v))
  ]

  close_channels-GivesUp :
      (rounds i : ℕ) (w : World env) → GivesUp 0 w (close_channels env rounds i w)
  unfolding close_channels
  close_channels-GivesUp zero i w = (omega arith, refl)
  close_channels-GivesUp (suc rounds) i w =
      let o = env.pointers.get w.session.channels i in
      let v = close_element env o w in
      together 0 0 w v (close_channels env rounds (i + 1) v) (close_element-GivesUp o w)
        (close_channels-GivesUp rounds (i + 1) v)

  ends-GivesUp :
      (w : World env)
      → GivesUp 0 w (stop_ping env w)
        × GivesUp 0 w
            (socket_remove_session env (destroy_native_session env (pc_close env (ws_close env w))))
  unfolding stop_ping socket_remove_session destroy_native_session pc_close ws_close
  ends-GivesUp w = ground arith

  close_parts-GivesUp : (w : World env) → GivesUp 0 w (close_parts env w)
  unfolding close_parts close_system_channel
  close_parts-GivesUp w =
      let w1 = stop_ping env w in
      let n = env.pointers.size w1.session.channels in
      let w2 = close_channels env n 0 w1 in
      let w3 = close_element env (some w2.session.system_channel) w2 in
      let two = together 0 0 w w1 w2 (ends-GivesUp w).0 (close_channels-GivesUp n 0 w1) in
      let three =
        together 0 0 w w2 w3 two (close_element-GivesUp (some w2.session.system_channel) w2) in
      together 0 0 w w3 (close_parts env w) three (ends-GivesUp w3).1

  pub session_close-GivesUp :
      (w : World env) → GivesUp (flag w.session.flags.active) w (session_close env w)
  unfolding session_close
  session_close-GivesUp w = elim (Bool-cases w.session.flags.active) [
    | inl live ↦
        let v = close_parts env (update_flags env (λ f. record f { active = false }) w) in
        rw live (
          together 0 1 w v (session_unref env v)
            (close_parts-GivesUp (update_flags env (λ f. record f { active = false }) w))
            (session_unref-GivesUp v))
    | inr closed ↦ rw closed (omega arith, refl)
  ]

  pub on_closed-GivesUp :
      (w : World env)
      → GivesUp (flag w.session.flags.active + 1) w (session_unref env (session_close env w))
  on_closed-GivesUp w =
      together (flag w.session.flags.active) 1 w (session_close env w)
        (session_unref env (session_close env w)) (session_close-GivesUp w)
        (session_unref-GivesUp (session_close env w))
