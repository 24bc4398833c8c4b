-- ===== src/Session/Auth/Accept.antt =====
-- src/session/session-ws.c, src/session/session.c: what an accepted token leads to.
use pomelo_udp_webrtc_plugin.Base.{
  ℕ, ◌<◌, ◌^◌, ◌≡◌, ◌⊎◌, refl, sym, ap, subst, ◌∙◌, inl, inr, true, Bool-cases, some, ◌∷◌, ◌++◌,
  Bytes, length, arith,
}
use pomelo_udp_webrtc_plugin.Decimal.{ℤ, print_i64, print_u64, IsI64}
use pomelo_udp_webrtc_plugin.Env.{Env, Call, Mode}
use pomelo_udp_webrtc_plugin.World.{World, emit, update_session, update_flags}
use pomelo_udp_webrtc_plugin.Label.{system_index}
use pomelo_udp_webrtc_plugin.Session.Cleanup.{unschedule_timeout}
use pomelo_udp_webrtc_plugin.Session.Close.Quiet.{IsQuiet, session_close-IsQuiet}
use pomelo_udp_webrtc_plugin.StringBuffer.{StringBuffer, done, to_binary}
use pomelo_udp_webrtc_plugin.StringBuffer.Growth.{IsValid}
use pomelo_udp_webrtc_plugin.Message.{result_auth_ok, compose_auth_success}
use pomelo_udp_webrtc_plugin.Message.Compose.{joined, compose_auth_success_exact}
use pomelo_udp_webrtc_plugin.Session.Send.{ws_send_auth_success, send_composed}
use pomelo_udp_webrtc_plugin.Session.Auth.{
  create_channels, pc_negotiate, schedule_negotiation, on_auth_result, ws_auth_result, auth_decoded,
  recv_auth,
}
use pomelo_udp_webrtc_plugin.Session.Auth.Untouched.{
  texts, then_Untouched, create_channels-Untouched, schedule_negotiation-Untouched,
  unschedule_timeout-Untouched,
}
use pomelo_udp_webrtc_plugin.Session.Close.{session_close}
use pomelo_udp_webrtc_plugin.Session.Auth.Openings.{
  ChannelsLack, TimeoutLacks, create_channels_fails, schedule_negotiation_fails,
}
use pomelo_udp_webrtc_plugin.Session.Auth.Channels.{
  openings, opening, openings_from, ArrayLaws, create_channels_made,
}

module _ (env : Env) where
  -- The session as the negotiation starts: it is authenticated, the answer was sent, and nothing else,
  -- and each index has its channel, whose data channel has the label of the index.
  pub record IsPrepared (client_id : ℤ) (answer : Bytes) (w v : World env) : Type 0 where
    pub live : v.session.flags.active ≡ true
    pub authenticated : v.session.flags.ws_authenticated ≡ true
    pub client : v.session.client_id ≡ client_id
    pub answered : texts v.log ≡ answer ∷ texts w.log
    pub there :
        (j : ℕ)
        → j < env.modes.size w.channel_modes
        → (p : ℕ) × (env.pointers.get v.session.channels j ≡ some (some p))
    pub system : (q : ℕ) × (v.session.system_channel ≡ some q)
    pub named :
        openings v.log
        ≡ opening system_index Mode.unreliable
          ∷ (openings_from env w.channel_modes 0 (env.modes.size w.channel_modes) ++ openings w.log)

  -- The session is closed after the answer, since the environment refused something.
  pub record IsGivenUp (answer : Bytes) (w v : World env) : Type 0 where
    pub quiet : IsQuiet env (session_close env v).session
    pub answered : texts v.log ≡ answer ∷ texts w.log
    pub refused : ChannelsLack env w.channel_modes ⊎ TimeoutLacks env

  -- From the answer on: the session is closed, or it is prepared and the negotiation starts.
  on_auth_result_accepted :
      ArrayLaws env.pointers
      → (timeout client_id : ℤ) (answer : Bytes) (w u : World env) → u.session.flags.active ≡ true
      → u.session.flags.ws_authenticated ≡ true
      → u.session.client_id ≡ client_id
      → texts u.log ≡ answer ∷ texts w.log
      → openings u.log ≡ openings w.log
      → u.channel_modes ≡ w.channel_modes
      → ((v : World env) × (on_auth_result env (some timeout) u ≡ session_close env v)
          × IsGivenUp answer w v)
        ⊎ ((v : World env) × (on_auth_result env (some timeout) u ≡ pc_negotiate env v)
            × IsPrepared client_id answer w v)
  unfolding on_auth_result
  on_auth_result_accepted laws timeout client_id answer w u live authenticated client answered named
        modes =
      let u1 = unschedule_timeout env u in
      let (first, modes1, labels1) = unschedule_timeout-Untouched env u in
      let u2 = (create_channels env u1).0 in
      let second = create_channels-Untouched env u1 in
      let u3 = (schedule_negotiation env timeout u2).0 in
      let (third, channels3, system3, labels3) = schedule_negotiation-Untouched env timeout u2 in
      let till2 = then_Untouched env u u1 u2 first second in
      let till3 = then_Untouched env u u2 u3 till2 third in
      elim (Bool-cases (create_channels env u1).1) [
        | inr stopped ↦ inl (
          u2,
          rw stopped refl,
          record {
            quiet = session_close-IsQuiet env u2 (ap (λ f. f.active) till2.0 ∙ live);
            answered = till2.2 ∙ answered;
            refused =
                inl (
                  subst (ChannelsLack env) (modes1 ∙ modes) (create_channels_fails env u1 stopped));
          },
        )
        | inl created ↦ elim (Bool-cases (schedule_negotiation env timeout u2).1) [
          | inr unscheduled ↦ inl (
            u3,
            rw (created, unscheduled) refl,
            record {
              quiet = session_close-IsQuiet env u3 (ap (λ f. f.active) till3.0 ∙ live);
              answered = till3.2 ∙ answered;
              refused = inr (schedule_negotiation_fails env timeout u2 unscheduled);
            },
          )
          | inl scheduled ↦
              let (size, there, (q, system), made) = create_channels_made env laws u1 created in
              let n_eq = ap (λ m. env.modes.size m) (modes1 ∙ modes) in
              inr (
                u3,
                rw (created, scheduled) refl,
                record {
                  live = ap (λ f. f.active) till3.0 ∙ live;
                  authenticated = ap (λ f. f.ws_authenticated) till3.0 ∙ authenticated;
                  client = till3.1 ∙ client;
                  answered = till3.2 ∙ answered;
                  there = λ j h.
                      let (p, at_j) = there j (omega (arith, h, n_eq)) in
                      (p, ap (λ c. env.pointers.get c j) channels3 ∙ at_j);
                  system = (q, system3 ∙ system);
                  named = rw (sym (modes1 ∙ modes), sym (labels1 ∙ named)) (labels3 ∙ made);
                },
              )
        ]
      ]

  -- The time that the answer carries.
  abbrev pub answer_time : World env → ℕ
  answer_time w = env.number (Call.acquire_string_buffer ∷ w.log) Call.socket_time

  -- The text of the answer.
  abbrev pub answer_text : ℤ → World env → Bytes
  answer_text client_id w = joined result_auth_ok (print_i64 client_id) (print_u64 (answer_time w))

  ws_send_auth_success_lem :
      (w : World env) (b : StringBuffer)
      → env.string_buffer w.log ≡ some b
      → IsValid b
      → b.position ≡ 0
      → 49 < b.capacity
      → IsI64 w.session.client_id
      → answer_time w < 2 ^ 64
      → ws_send_auth_success env w
        ≡ emit env Call.release_string_buffer (
            emit env
              (Call.ws_send w.session.ws_client (answer_text w.session.client_id w))
              (emit env Call.socket_time (emit env Call.acquire_string_buffer w)))
  ws_send_auth_success_lem w b found valid emptied room signed unsigned =
      let w2 = emit env Call.socket_time (emit env Call.acquire_string_buffer w) in
      let (b1, ran, same) =
        compose_auth_success_exact (env.malloc w2.log) w.session.client_id (answer_time w) b valid
          emptied signed unsigned room in
      composed w b found ∙ ap (λ o. send_composed env o w2) ran ∙ sent w2 b1 same
    where
      composed :
          (x : World env) (c : StringBuffer)
          → env.string_buffer x.log ≡ some c
          → let x2 = emit env Call.socket_time (emit env Call.acquire_string_buffer x) in
            ws_send_auth_success env x
            ≡ send_composed env
                (compose_auth_success (env.malloc x2.log) x.session.client_id (answer_time x) c)
                x2
      composed x c e = unfold ws_send_auth_success in ground (arith, e)

      sent :
          (x : World env) (c : StringBuffer) {text : Bytes}
          → to_binary c ≡ text
          → send_composed env (done c) x
            ≡ emit env Call.release_string_buffer
                (emit env (Call.ws_send x.session.ws_client text) x)
      sent x c e = unfold send_composed in rw e refl

  -- The session as it is when the token was accepted.
  abbrev accepted : Bytes → ℤ → World env → World env
  accepted token client_id w =
      update_flags env (λ f. record f { ws_authenticated = true })
        (update_session env (λ s. record s { client_id = client_id })
          (emit env (Call.token_decode token) w))

  recv_auth_success :
      (auth token : Bytes) (client_id timeout : ℤ) (w : World env)
      → (length auth ≡ env.token_base64_length) ⊎ (length auth ≡ env.token_base64_no_padding_length)
      → env.base64_decode auth ≡ some token
      → env.token_info w.log token ≡ some (client_id, timeout)
      → recv_auth env auth w
        ≡ on_auth_result env (some timeout) (ws_send_auth_success env (accepted token client_id w))
  unfolding recv_auth auth_decoded ws_auth_result
  recv_auth_success auth token client_id timeout w fits decoded known =
      ground (arith, fits, decoded, known)

  -- Where the arrays keep to their documentation: a token of a right length that is base64 and that the
  -- host accepts, received by an active session, is answered with `AUTH|OK|<client id>|<time>`, if an
  -- emptied buffer of 50 bytes or more is to be had and the two numbers have 64 bits; and then the session
  -- is closed (and quiet), but only where the environment refuses an array, a mode in range, a channel, a
  -- data channel, the thread, a timer or its start; or its negotiation starts in a state in which the
  -- session is active and authenticated and has the client id of the token, nothing but the answer was sent, and each index of
  -- the socket has its channel, opened with its label and the reliability of its mode, and a system
  -- channel behind them.
  pub recv_auth_accepts :
      ArrayLaws env.pointers
      → (auth token : Bytes) (client_id timeout : ℤ) (b : StringBuffer) (w : World env)
      → w.session.flags.active ≡ true
      → (length auth ≡ env.token_base64_length) ⊎ (length auth ≡ env.token_base64_no_padding_length)
      → env.base64_decode auth ≡ some token
      → env.token_info w.log token ≡ some (client_id, timeout)
      → IsI64 client_id
      → env.string_buffer (Call.token_decode token ∷ w.log) ≡ some b
      → IsValid b
      → b.position ≡ 0
      → 49 < b.capacity
      → answer_time (emit env (Call.token_decode token) w) < 2 ^ 64
      → ((v : World env) × (recv_auth env auth w ≡ session_close env v)
          × IsGivenUp (answer_text client_id (emit env (Call.token_decode token) w)) w v)
        ⊎ ((v : World env) × (recv_auth env auth w ≡ pc_negotiate env v)
            × IsPrepared client_id
                (answer_text client_id (emit env (Call.token_decode token) w))
                w
                v)
  recv_auth_accepts laws auth token client_id timeout b w live fits decoded known signed found valid
        emptied room unsigned =
      let u = accepted token client_id w in
      let answer = answer_text client_id (emit env (Call.token_decode token) w) in
      rw
        (
          recv_auth_success auth token client_id timeout w fits decoded known,
          ws_send_auth_success_lem u b found valid emptied room signed unsigned,
        )
        (on_auth_result_accepted laws timeout client_id answer w
          (emit env Call.release_string_buffer (
            emit env (Call.ws_send w.session.ws_client answer)
              (emit env Call.socket_time (emit env Call.acquire_string_buffer u))))
          live refl refl refl refl refl)
