-- ===== src/Session/Auth/Remote.antt =====
-- src/session/session-ws.c: how far the messages of a client without an acceptable token get.
use pomelo_udp_webrtc_plugin.Base.{
  ℕ, ◌≡◌, ◌⊎◌, refl, ◌∙◌, inl, inr, false, Bool-cases, Option-cases, ap, none, some, List, [], ◌∷◌,
  Bytes, length, ◌==◌, not, ◌&&◌, arith,
}
use pomelo_udp_webrtc_plugin.Env.{Env, Call}
use pomelo_udp_webrtc_plugin.World.{World, emit}
use pomelo_udp_webrtc_plugin.Message.{
  result_auth_failed, ignored, overread, auth, read_unauthenticated,
}
use pomelo_udp_webrtc_plugin.Session.Cleanup.{unschedule_timeout}
use pomelo_udp_webrtc_plugin.Session.Close.Quiet.{session_close-IsUnauthenticated}
use pomelo_udp_webrtc_plugin.Session.Auth.{on_auth_result, ws_auth_result, auth_decoded, recv_auth}
use pomelo_udp_webrtc_plugin.Session.Receive.{perform, process_message, ws_on_message_callback}
use pomelo_udp_webrtc_plugin.Session.Close.Remote.{
  remote_calls, session_close-remote_calls, ends-remote_calls,
}

module _ (env : Env) where
  -- The host refuses the token that this text encodes, if it encodes one.
  abbrev Refuses : Bytes → Type 0
  Refuses text =
      (calls : List Call) (token : Bytes)
      → env.base64_decode text ≡ some token
      → env.token_info calls token ≡ none

  -- The host refuses each token that the messages carry; of others nothing is said.
  abbrev pub RefusesAll : List (ℕ × Bytes) → Type 0
  RefusesAll [] = Unit
  RefusesAll ((buffer, message) ∷ more) =
      ((text : Bytes) → read_unauthenticated message ≡ auth text → Refuses text) × RefusesAll more

  -- Nothing more was given to the peer connection, and the session is still not authenticated.
  abbrev KeptOut : World env → World env → Type 0
  KeptOut w v =
      (remote_calls v.log ≡ remote_calls w.log) × (v.session.flags.ws_authenticated ≡ false)

  refused-KeptOut :
      (w : World env)
      → w.session.flags.ws_authenticated ≡ false
      → KeptOut w (ws_auth_result env none w)
  unfolding ws_auth_result on_auth_result
  refused-KeptOut w h =
      let v = emit env (Call.ws_send w.session.ws_client result_auth_failed) w in
      let ends = ends-remote_calls env v in
      (
        session_close-remote_calls env (unschedule_timeout env v) ∙ ends.1,
        session_close-IsUnauthenticated env (unschedule_timeout env v)
            (ap (λ f. f.ws_authenticated) ends.2 ∙ h),
      )

  recv_auth_refused :
      (token : Bytes) (w : World env)
      → Refuses token
      → (recv_auth env token w ≡ ws_auth_result env none w)
        ⊎ ((bytes : Bytes) × (recv_auth env token w
              ≡ ws_auth_result env none (emit env (Call.token_decode bytes) w)))
  unfolding recv_auth auth_decoded
  recv_auth_refused token w refuses =
      elim (Bool-cases (
        not (length token == env.token_base64_length)
        && not (length token == env.token_base64_no_padding_length))) [
          | inl bad ↦ inl (ground arith)
          | inr good ↦ elim (Option-cases (env.base64_decode token)) [
            | inl garbled ↦ inl (ground arith)
            | inr (bytes, e) ↦ inr (bytes, ground (arith, refuses w.log bytes e))
          ]
        ]

  recv_auth-KeptOut :
      (token : Bytes) (w : World env)
      → Refuses token
      → w.session.flags.ws_authenticated ≡ false
      → KeptOut w (recv_auth env token w)
  recv_auth-KeptOut token w refuses h = elim (recv_auth_refused token w refuses) [
    | inl e ↦ rw e (refused-KeptOut w h)
    | inr (bytes, e) ↦ rw e (refused-KeptOut (emit env (Call.token_decode bytes) w) h)
  ]

  read_unauthenticated_cases :
      (message : Bytes)
      → (read_unauthenticated message ≡ ignored)
        ⊎ ((read_unauthenticated message ≡ overread)
            ⊎ ((token : Bytes) × (read_unauthenticated message ≡ auth token)))
  unfolding read_unauthenticated
  read_unauthenticated_cases message = ground arith

  process_message_unauthenticated :
      (message : Bytes) (w : World env)
      → w.session.flags.ws_authenticated ≡ false
      → process_message env message w ≡ perform env (read_unauthenticated message) w
  unfolding process_message
  process_message_unauthenticated message w h = ground arith

  perform-KeptOut :
      (message : Bytes) (w : World env)
      → ((text : Bytes) → read_unauthenticated message ≡ auth text → Refuses text)
      → w.session.flags.ws_authenticated ≡ false
      → KeptOut w (perform env (read_unauthenticated message) w)
  unfolding perform
  perform-KeptOut message w refuses h = elim (read_unauthenticated_cases message) [
    | inl e ↦ rw e (refl, h)
    | inr (inl e) ↦ rw e (refl, h)
    | inr (inr (token, e)) ↦ rw e (recv_auth-KeptOut token w (refuses token e) h)
  ]

  ws_on_message_cases :
      (buffer : ℕ) (message : Bytes) (w : World env)
      → (ws_on_message_callback env buffer message w ≡ emit env (Call.buffer_unref buffer) w)
        ⊎ (ws_on_message_callback env buffer message w
            ≡ emit env (Call.buffer_unref buffer) (process_message env message w))
  unfolding ws_on_message_callback
  ws_on_message_cases buffer message w = elim (Bool-cases w.session.flags.ws_active) [
    | inl live ↦ inr (ground arith)
    | inr closed ↦ inl (ground arith)
  ]

  ws_on_message-KeptOut :
      (buffer : ℕ) (message : Bytes) (w : World env)
      → ((text : Bytes) → read_unauthenticated message ≡ auth text → Refuses text)
      → w.session.flags.ws_authenticated ≡ false
      → KeptOut w (ws_on_message_callback env buffer message w)
  ws_on_message-KeptOut buffer message w refuses h = elim (ws_on_message_cases buffer message w) [
    | inl e ↦ rw e (refl, h)
    | inr e ↦
        rw (e, process_message_unauthenticated message w h) (perform-KeptOut message w refuses h)
  ]

  -- The client's messages with the buffers that hold them, one after another.
  unfoldable pub receive_all : List (ℕ × Bytes) → World env → World env
  receive_all [] w = w
  receive_all ((buffer, message) ∷ more) w =
      receive_all more (ws_on_message_callback env buffer message w)

  -- A client that sends no token which the host accepts never reaches the peer connection, and is never
  -- authenticated: whatever messages it sends, in whatever number, where the host refuses each token that
  -- one of them carries in base64, no remote description and no remote candidate is set. Other tokens the
  -- host may accept. (The read of an empty message, which is undefined, is taken to do nothing.)
  pub receive_all-remote_calls :
      (messages : List (ℕ × Bytes)) (w : World env)
      → RefusesAll messages
      → w.session.flags.ws_authenticated ≡ false
      → (remote_calls (receive_all messages w).log ≡ remote_calls w.log)
        × ((receive_all messages w).session.flags.ws_authenticated ≡ false)
  unfolding receive_all
  receive_all-remote_calls [] w refuses h = (refl, h)
  receive_all-remote_calls ((buffer, message) ∷ more) w refuses h =
      let step = ws_on_message-KeptOut buffer message w refuses.0 h in
      let v = ws_on_message_callback env buffer message w in
      let rest = receive_all-remote_calls more v refuses.1 (step.1) in (rest.0 ∙ step.0, rest.1)
