-- ===== src/Session/Close/Quiet.antt =====
-- src/session/session.c: what is left of a session that was closed, through all that its channels and
-- the reference counters do meanwhile.
use pomelo_udp_webrtc_plugin.Base.{
  ℕ, zero, suc, ◌+◌, ◌≡◌, ◌⊎◌, refl, inl, inr, true, false, Bool-cases, Option, none, some, arith,
}
use pomelo_udp_webrtc_plugin.Decimal.{pos}
use pomelo_udp_webrtc_plugin.Env.{Env, Call}
use pomelo_udp_webrtc_plugin.World.{no_flags, Session, World, emit, update_flags, update_channel}
use pomelo_udp_webrtc_plugin.Channel.{
  outgoing_cleanup, incoming_cleanup, channel_cleanup, channel_on_finalize, channel_unref,
  channel_dc_close, channel_close,
}
use pomelo_udp_webrtc_plugin.Session.Cleanup.{
  destroy_native_session, session_cleanup, session_on_finalize, session_unref,
}
use pomelo_udp_webrtc_plugin.Session.Close.{
  stop_ping, close_element, close_channels, close_system_channel, ws_close, pc_close,
  socket_remove_session, close_parts, session_close,
}

module _ (env : Env) where
  -- What the cleanup makes of a session.
  abbrev pub cleaned : Session env → Session env
  cleaned s = record s {
    channels = env.pointers.clear s.channels;
    system_channel = none;
    flags = no_flags;
    socket = none;
    list_entry = none;
    opened_channels = 0;
    ping_task = none;
    client_id = pos 0;
    ws_client = none;
    pc = none;
    native_session = none;
    task_timeout = none;
  }

  pub session-session_cleanup :
      (w : World env) → (session_cleanup env w).session ≡ cleaned w.session
  unfolding session_cleanup
  session-session_cleanup w = ground arith

  abbrev pub deactivated : ℕ → World env → World env
  deactivated p w = update_channel env p (λ c. record c { active = false }) w

  pub channel_close_cases :
      (p : ℕ) (w : World env)
      → (channel_close env p w ≡ w)
        ⊎ (channel_close env p w ≡ channel_unref env p (channel_dc_close env p (deactivated p w)))
  unfolding channel_close
  channel_close_cases p w = elim (Bool-cases (w.channel p).active) [
    | inl live ↦ inr (ground arith)
    | inr closed ↦ inl (ground arith)
  ]

  pub session-channel_dc_close :
      (p : ℕ) (w : World env) → (channel_dc_close env p w).session ≡ w.session
  unfolding channel_dc_close
  session-channel_dc_close p w = ground arith

  -- A property of sessions that the cleanup never ends.
  abbrev pub Lasting : (Session env → Type 0) → Type 0
  Lasting P = (s : Session env) → P s → P (cleaned s)

  module _ (P : Session env → Type 0) (lasting : Lasting P) where
    pub session_unref_lasting : (w : World env) → P w.session → P (session_unref env w).session
    unfolding session_unref session_on_finalize
    session_unref_lasting w h = elim (Bool-cases (env.succeeds w.log Call.session_unref)) [
      | inl last ↦
          rw
            (
              last,
              session-session_cleanup
                  (emit env Call.release_session (emit env Call.session_unref w)),
            )
            (lasting w.session h)
      | inr more ↦ rw more h
    ]

    channel_cleanup_lasting :
        (p : ℕ) (w : World env) → P w.session → P (channel_cleanup env p w).session
    unfolding channel_cleanup
    channel_cleanup_lasting p w h =
        let same : (incoming_cleanup env p (outgoing_cleanup env p w)).session ≡ w.session =
          ground arith in
        session_unref_lasting (incoming_cleanup env p (outgoing_cleanup env p w)) (rw same h)

    pub channel_unref_lasting :
        (p : ℕ) (w : World env) → P w.session → P (channel_unref env p w).session
    unfolding channel_unref channel_on_finalize
    channel_unref_lasting p w h = elim (Bool-cases (env.succeeds w.log (Call.channel_unref p))) [
      | inl last ↦ rw last (channel_cleanup_lasting p _ h)
      | inr more ↦ rw more h
    ]

    pub channel_close_lasting :
        (p : ℕ) (w : World env) → P w.session → P (channel_close env p w).session
    channel_close_lasting p w h = elim (channel_close_cases p w) [
      | inl closed ↦ rw closed h
      | inr live ↦
          rw live (channel_unref_lasting p _ (rw (session-channel_dc_close p (deactivated p w)) h))
    ]

    close_element_lasting :
        (o : Option (Option ℕ)) (w : World env) → P w.session → P (close_element env o w).session
    unfolding close_element
    close_element_lasting none w h = h
    close_element_lasting (some none) w h = h
    close_element_lasting (some (some p)) w h = channel_close_lasting p w h

    pub close_channels_lasting :
        (rounds i : ℕ) (w : World env) → P w.session → P (close_channels env rounds i w).session
    unfolding close_channels
    close_channels_lasting zero i w h = h
    close_channels_lasting (suc rounds) i w h =
        close_channels_lasting rounds (i + 1) _ (close_element_lasting _ w h)

    pub close_system_channel_lasting :
        (w : World env) → P w.session → P (close_system_channel env w).session
    unfolding close_system_channel
    close_system_channel_lasting w h = close_element_lasting (some w.session.system_channel) w h

  -- All that a closed session has let go of.
  pub record IsQuiet (s : Session env) : Type 0 where
    pub inactive : s.flags.active ≡ false
    pub ws_inactive : s.flags.ws_active ≡ false
    pub pc_inactive : s.flags.pc_active ≡ false
    pub no_ping : s.ping_task ≡ none
    pub no_native : s.native_session ≡ none
    pub unlisted : s.list_entry ≡ none

  -- What holds of it after the ping has stopped and until the WebSocket is closed.
  abbrev IsStopped : Session env → Type 0
  IsStopped s = (s.flags.active ≡ false) × (s.ping_task ≡ none)

  stop_ping-IsStopped :
      (w : World env) → w.session.flags.active ≡ false → IsStopped (stop_ping env w).session
  unfolding stop_ping
  stop_ping-IsStopped w h = ground arith

  rest-IsQuiet :
      (w : World env)
      → IsStopped w.session
      → IsQuiet
          (socket_remove_session env
            (destroy_native_session env (pc_close env (ws_close env w)))).session
  unfolding socket_remove_session destroy_native_session pc_close ws_close
  rest-IsQuiet w h = ground arith

  close_parts-IsQuiet :
      (w : World env) → w.session.flags.active ≡ false → IsQuiet (close_parts env w).session
  unfolding close_parts
  close_parts-IsQuiet w h =
      let w1 = stop_ping env w in
      rest-IsQuiet _ (
        close_system_channel_lasting IsStopped (λ s k. (refl, refl)) _
          (close_channels_lasting IsStopped (λ s k. (refl, refl))
            (env.pointers.size w1.session.channels) 0 w1 (stop_ping-IsStopped w h)))

  cleaned-IsQuiet : Lasting IsQuiet
  cleaned-IsQuiet s h = ground arith

  pub session_close_cases :
      (w : World env)
      → (session_close env w ≡ w)
        ⊎ (session_close env w
            ≡ session_unref env
                (close_parts env (update_flags env (λ f. record f { active = false }) w)))
  unfolding session_close
  session_close_cases w = elim (Bool-cases w.session.flags.active) [
    | inl live ↦ inr (ground arith)
    | inr closed ↦ inl (ground arith)
  ]

  -- Closing an active session leaves it deactivated, with its WebSocket and its peer connection
  -- deactivated, no ping task, no native session and no entry in the socket's list, whatever the
  -- reference counters and the libraries do.
  pub session_close-IsQuiet :
      (w : World env) → w.session.flags.active ≡ true → IsQuiet (session_close env w).session
  unfolding session_close
  session_close-IsQuiet w h =
      rw h (session_unref_lasting IsQuiet cleaned-IsQuiet _ (close_parts-IsQuiet _ refl))

  -- A second close changes nothing: no call is made and no state changes.
  pub session_close-session_close :
      (w : World env) → session_close env (session_close env w) ≡ session_close env w
  session_close-session_close w = elim (Bool-cases w.session.flags.active) [
    | inl live ↦ closed_again (session_close env w) (session_close-IsQuiet w live).inactive
    | inr closed ↦ rw (closed_again w closed) (closed_again w closed)
  ]
    where
      closed_again : (v : World env) → v.session.flags.active ≡ false → session_close env v ≡ v
      closed_again v e = unfold session_close in rw e

  -- Closing a session does not authenticate it.
  abbrev IsUnauthenticated : Session env → Type 0
  IsUnauthenticated s = s.flags.ws_authenticated ≡ false

  stop_ping-IsUnauthenticated :
      (w : World env) → IsUnauthenticated w.session → IsUnauthenticated (stop_ping env w).session
  unfolding stop_ping
  stop_ping-IsUnauthenticated w h = ground arith

  rest-IsUnauthenticated :
      (w : World env)
      → IsUnauthenticated w.session
      → IsUnauthenticated
          (socket_remove_session env
            (destroy_native_session env (pc_close env (ws_close env w)))).session
  unfolding socket_remove_session destroy_native_session pc_close ws_close
  rest-IsUnauthenticated w h = ground arith

  close_parts-IsUnauthenticated :
      (w : World env) → IsUnauthenticated w.session → IsUnauthenticated (close_parts env w).session
  unfolding close_parts
  close_parts-IsUnauthenticated w h = rest-IsUnauthenticated _ (
      close_system_channel_lasting IsUnauthenticated (λ s k. refl) _
        (close_channels_lasting IsUnauthenticated (λ s k. refl)
          (env.pointers.size (stop_ping env w).session.channels) 0 (stop_ping env w)
          (stop_ping-IsUnauthenticated w h)))

  pub session_close-IsUnauthenticated :
      (w : World env)
      → w.session.flags.ws_authenticated ≡ false
      → (session_close env w).session.flags.ws_authenticated ≡ false
  session_close-IsUnauthenticated w h = elim (session_close_cases w) [
    | inl closed ↦ rw closed h
    | inr live ↦ rw live (
        session_unref_lasting IsUnauthenticated (λ s k. refl) _
          (close_parts-IsUnauthenticated (update_flags env (λ f. record f { active = false }) w) h))
  ]
