-- ===== src/Session/Auth/Reject.antt =====
-- src/session/session-ws.c: what becomes of a session whose token is not accepted.
use pomelo_udp_webrtc_plugin.Base.{
  ◌≡◌, ◌≢◌, ◌⊎◌, refl, ◌∙◌, inl, inr, true, false, not, ap, ◌&&◌, Bool-cases, none, some, Bytes,
  length, ◌==◌, arith,
}
use pomelo_udp_webrtc_plugin.Env.{Env, Call}
use pomelo_udp_webrtc_plugin.World.{World, emit}
use pomelo_udp_webrtc_plugin.Message.{result_auth_failed}
use pomelo_udp_webrtc_plugin.Session.Cleanup.{unschedule_timeout}
use pomelo_udp_webrtc_plugin.Session.Close.Quiet.{
  IsQuiet, session_close-IsQuiet, session_close-IsUnauthenticated,
}
use pomelo_udp_webrtc_plugin.Session.Auth.{on_auth_result, ws_auth_result, auth_decoded, recv_auth}

module _ (env : Env) where
  -- The three ways in which a token fails: its length is neither of the two that base64 gives, it is
  -- no base64, or the host does not accept it.
  abbrev pub Rejected : Bytes → World env → Type 0
  Rejected auth w =
      ((length auth ≢ env.token_base64_length) × (length auth ≢ env.token_base64_no_padding_length))
      ⊎ ((env.base64_decode auth ≡ none)
          ⊎ ((token : Bytes) × (env.base64_decode auth ≡ some token)
              × (env.token_info w.log token ≡ none)))

  -- Some step on the calls alone, and then the refusal.
  recv_auth_refuses :
      (auth : Bytes) (w : World env)
      → Rejected auth w
      → (v : World env) × (recv_auth env auth w ≡ ws_auth_result env none v)
        × (v.session ≡ w.session)
  unfolding recv_auth auth_decoded
  recv_auth_refuses auth w (inl (h, k)) = (w, ground arith, refl)
  recv_auth_refuses auth w (inr (inl e)) = (w, ground arith, refl)
  recv_auth_refuses auth w (inr (inr (token, e, k))) =
      elim (Bool-cases (
        not (length auth == env.token_base64_length)
        && not (length auth == env.token_base64_no_padding_length))) [
          | inl bad ↦ (w, ground arith, refl)
          | inr good ↦ (emit env (Call.token_decode token) w, ground arith, refl)
        ]

  refused :
      (v : World env)
      → v.session.flags.active ≡ true
      → v.session.flags.ws_authenticated ≡ false
      → IsQuiet env (ws_auth_result env none v).session
        × ((ws_auth_result env none v).session.flags.ws_authenticated ≡ false)
  unfolding ws_auth_result on_auth_result
  refused v live fresh =
      let u =
        unschedule_timeout env (emit env (Call.ws_send v.session.ws_client result_auth_failed) v) in
      (
        session_close-IsQuiet env u (active v live),
        session_close-IsUnauthenticated env u (unauthenticated v fresh),
      )
    where
      active :
          (x : World env)
          → x.session.flags.active ≡ true
          → (unschedule_timeout env (
              emit env
                (Call.ws_send x.session.ws_client result_auth_failed)
                x)).session.flags.active
            ≡ true
      active x h = unfold unschedule_timeout in ground arith

      unauthenticated :
          (x : World env)
          → x.session.flags.ws_authenticated ≡ false
          → (unschedule_timeout env (
              emit env
                (Call.ws_send x.session.ws_client result_auth_failed)
                x)).session.flags.ws_authenticated
            ≡ false
      unauthenticated x h = unfold unschedule_timeout in ground arith

  -- A token of a wrong length, one that is no base64 or one that the host does not accept, received
  -- by an active session that is not yet authenticated, closes the session (which is then quiet)
  -- and leaves it unauthenticated.
  pub recv_auth_rejects :
      (auth : Bytes) (w : World env)
      → w.session.flags.active ≡ true
      → w.session.flags.ws_authenticated ≡ false
      → Rejected auth w
      → IsQuiet env (recv_auth env auth w).session
        × ((recv_auth env auth w).session.flags.ws_authenticated ≡ false)
  recv_auth_rejects auth w live fresh bad =
      let (v, e, same) = recv_auth_refuses auth w bad in
      rw e (
        refused v (ap (λ s. s.flags.active) same ∙ live)
          (ap (λ s. s.flags.ws_authenticated) same ∙ fresh))
