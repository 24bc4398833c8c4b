-- ===== src/Session/Close/Remote.antt =====
-- src/session/session.c: what closing a session gives to its peer connection.
use pomelo_udp_webrtc_plugin.Base.{
  ℕ, zero, suc, ◌+◌, ◌≡◌, refl, ◌∙◌, inl, inr, false, Option, none, some, List, [], ◌∷◌, arith,
}
use pomelo_udp_webrtc_plugin.Env.{Env, Call}
use pomelo_udp_webrtc_plugin.World.{World, emit, update_flags}
use pomelo_udp_webrtc_plugin.Channel.{
  outgoing_cleanup, incoming_cleanup, channel_cleanup, channel_on_finalize, channel_unref,
  channel_dc_close,
}
use pomelo_udp_webrtc_plugin.Session.Cleanup.{
  destroy_native_session, session_cleanup, session_on_finalize, session_unref, unschedule_timeout,
}
use pomelo_udp_webrtc_plugin.Session.Close.{
  stop_ping, close_element, close_channels, close_system_channel, ws_close, pc_close,
  socket_remove_session, close_parts, session_close,
}
use pomelo_udp_webrtc_plugin.Session.Close.Quiet.{
  channel_close_cases, deactivated, session_close_cases,
}

-- How often a description or a candidate of the client was given to a peer connection.
abbrev pub remote_calls : List Call → ℕ
remote_calls [] = 0
remote_calls (Call.pc_set_remote_description pc sdp type ∷ l) = remote_calls l + 1
remote_calls (Call.pc_add_remote_candidate pc cand mid ∷ l) = remote_calls l + 1
remote_calls (_ ∷ l) = remote_calls l

module _ (env : Env) where
  session_unref-remote_calls :
      (w : World env) → remote_calls (session_unref env w).log ≡ remote_calls w.log
  unfolding session_unref session_on_finalize session_cleanup
  session_unref-remote_calls w = ground arith

  channel_unref-remote_calls :
      (p : ℕ) (w : World env) → remote_calls (channel_unref env p w).log ≡ remote_calls w.log
  unfolding channel_unref channel_on_finalize channel_cleanup outgoing_cleanup incoming_cleanup
  channel_unref-remote_calls p w =
      let v = emit env (Call.release_channel p) (emit env (Call.channel_unref p) w) in
      ground (arith, session_unref-remote_calls (incoming_cleanup env p (outgoing_cleanup env p v)))

  channel_dc_close-remote_calls :
      (p : ℕ) (w : World env) → remote_calls (channel_dc_close env p w).log ≡ remote_calls w.log
  unfolding channel_dc_close
  channel_dc_close-remote_calls p w = ground arith

  close_element-remote_calls :
      (o : Option (Option ℕ)) (w : World env)
      → remote_calls (close_element env o w).log ≡ remote_calls w.log
  unfolding close_element
  close_element-remote_calls none w = refl
  close_element-remote_calls (some none) w = refl
  close_element-remote_calls (some (some p)) w = elim (channel_close_cases env p w) [
    | inl closed ↦ rw closed refl
    | inr live ↦ rw live (
        channel_unref-remote_calls p (channel_dc_close env p (deactivated env p w))
        ∙ channel_dc_close-remote_calls p (deactivated env p w))
  ]

  close_channels-remote_calls :
      (rounds i : ℕ) (w : World env)
      → remote_calls (close_channels env rounds i w).log ≡ remote_calls w.log
  unfolding close_channels
  close_channels-remote_calls zero i w = refl
  close_channels-remote_calls (suc rounds) i w =
      let o = env.pointers.get w.session.channels i in
      close_channels-remote_calls rounds (i + 1) (close_element env o w)
      ∙ close_element-remote_calls o w

  pub ends-remote_calls :
      (w : World env)
      → (remote_calls (stop_ping env w).log ≡ remote_calls w.log)
        × (remote_calls (unschedule_timeout env w).log ≡ remote_calls w.log)
        × ((unschedule_timeout env w).session.flags ≡ w.session.flags)
        × (remote_calls
              (socket_remove_session env
                (destroy_native_session env (pc_close env (ws_close env w)))).log
            ≡ remote_calls w.log)
  unfolding stop_ping unschedule_timeout socket_remove_session destroy_native_session pc_close
      ws_close
  ends-remote_calls w = ground arith

  pub session_close-remote_calls :
      (w : World env) → remote_calls (session_close env w).log ≡ remote_calls w.log
  unfolding close_parts close_system_channel
  session_close-remote_calls w = elim (session_close_cases env w) [
    | inl closed ↦ rw closed refl
    | inr live ↦
        let w0 = update_flags env (λ f. record f { active = false }) w in
        let w1 = stop_ping env w0 in
        let n = env.pointers.size w1.session.channels in
        let w2 = close_channels env n 0 w1 in
        let w3 = close_element env (some w2.session.system_channel) w2 in
        rw live (
          session_unref-remote_calls (close_parts env w0)
          ∙ (ends-remote_calls w3).3
          ∙ close_element-remote_calls (some w2.session.system_channel) w2
          ∙ close_channels-remote_calls n 0 w1
          ∙ (ends-remote_calls w0).0)
  ]
