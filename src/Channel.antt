-- ===== src/Channel.antt =====
-- src/channel: the channel and its data channels (channel.c, channel-dc.c).
pub mod Events
pub mod Receiving
pub mod Release
use pomelo_udp_webrtc_plugin.Base.{
  ℕ, Bool, true, false, not, Option, none, some, Bytes, length, ◌==◌, if◌then◌else◌,
}
use pomelo_udp_webrtc_plugin.Env.{Env, Call, Mode, Reliability}
use pomelo_udp_webrtc_plugin.Label.{server_label}
use pomelo_udp_webrtc_plugin.World.{World, emit, update_channel}
use pomelo_udp_webrtc_plugin.Session.Cleanup.{session_unref}

-- The `switch` of `pomelo_webrtc_channel_dc_init`.
unfoldable pub reliability_of : Mode → Reliability
reliability_of Mode.sequenced = record { is_unreliable = true; is_unordered = false }
reliability_of Mode.reliable = record { is_unreliable = false; is_unordered = false }
reliability_of Mode.unreliable = record { is_unreliable = true; is_unordered = true }

module _ (env : Env) where
  -- `pomelo_webrtc_channel_dc_cleanup`, for one of the two data channels
  unfoldable pub outgoing_cleanup : ℕ → World env → World env
  outgoing_cleanup p w = elim (w.channel p).outgoing_dc [
    | none ↦ w
    | some dc ↦
        update_channel env p (λ c. record c { outgoing_dc = none })
          (emit env (Call.dc_destroy (some dc)) w)
  ]

  unfoldable pub incoming_cleanup : ℕ → World env → World env
  incoming_cleanup p w = elim (w.channel p).incoming_dc [
    | none ↦ w
    | some dc ↦
        update_channel env p (λ c. record c { incoming_dc = none })
          (emit env (Call.dc_destroy (some dc)) w)
  ]

  -- `pomelo_webrtc_channel_cleanup`, which the channel pool calls when a channel is released to it.
  unfoldable pub channel_cleanup : ℕ → World env → World env
  unfolding outgoing_cleanup incoming_cleanup
  channel_cleanup p w =
      update_channel env p
        (λ c. record c {
          session = false;
          active = false;
          dc_active = false;
          dc_receive = false;
          index = 0;
          mode = Mode.unreliable;
        })
        (session_unref env (incoming_cleanup p (outgoing_cleanup p w)))

  unfoldable pub channel_on_finalize : ℕ → World env → World env
  channel_on_finalize p w = channel_cleanup p (emit env (Call.release_channel p) w)

  unfoldable pub channel_unref : ℕ → World env → World env
  channel_unref p w =
      let w1 = emit env (Call.channel_unref p) w in
      if env.succeeds w.log (Call.channel_unref p) then channel_on_finalize p w1 else w1

  -- `pomelo_webrtc_channel_dc_close`
  unfoldable pub channel_dc_close : ℕ → World env → World env
  channel_dc_close p w =
      let w1 = update_channel env p (λ c. record c { dc_active = false }) w in
      let w2 = emit env (Call.dc_close (w.channel p).outgoing_dc) w1 in
      if not (w.channel p).dc_active then w else elim (w.channel p).incoming_dc [
        | none ↦ w2
        | some dc ↦ emit env (Call.dc_close (some dc)) w2
      ]

  unfoldable pub channel_close : ℕ → World env → World env
  unfolding channel_dc_close
  channel_close p w =
      if not (w.channel p).active
      then w
      else channel_unref p
          (channel_dc_close p (update_channel env p (λ c. record c { active = false }) w))

  -- `pomelo_webrtc_channel_dc_init`; `false` is the error.
  unfoldable pub channel_dc_init : ℕ → World env → World env × Bool
  unfolding reliability_of
  channel_dc_init p w =
      let c = w.channel p in
      let call = Call.dc_create w.session.pc p (server_label c.index) (reliability_of c.mode) in
      elim (env.pointer w.log call) [
        | none ↦ (emit env call w, false)
        | some dc ↦ (
          emit env (Call.channel_ref p) (
              update_channel env p (λ c. record c { outgoing_dc = some dc; dc_active = true })
                (emit env call w)),
          true,
        )
      ]

  -- `pomelo_webrtc_channel_init`, by which the pool prepares the channel that it hands out.
  unfoldable pub channel_init : ℕ → ℕ → Mode → World env → World env × Bool
  channel_init p index mode w = channel_dc_init p (
      update_channel env p
        (λ c. record c { session = true; index = index; mode = mode; active = true })
        (emit env Call.session_ref (emit env (Call.channel_ref_init p) w)))

  -- `pomelo_webrtc_context_acquire_channel`: the pool returns NULL where it has no element, and where
  -- the initializer fails; what it does with the element then is its own.
  unfoldable pub acquire_channel : ℕ → Mode → World env → World env × Option ℕ
  acquire_channel index mode w = elim (env.pointer w.log Call.acquire_channel) [
    | none ↦ (emit env Call.acquire_channel w, none)
    | some p ↦
        let (w1, initialized) = channel_init p index mode (emit env Call.acquire_channel w) in
        if initialized then (w1, some p) else (emit env (Call.channel_init_failed p) w1, none)
  ]

  -- `pomelo_webrtc_channel_dc_enable_receiving`
  unfoldable pub channel_enable_receiving : ℕ → World env → World env
  channel_enable_receiving p w = update_channel env p (λ c. record c { dc_receive = true }) w

  -- `pomelo_webrtc_channel_send`
  unfoldable pub channel_send : ℕ → Bytes → World env → World env
  channel_send p bytes w =
      if length bytes == 0 then w else emit env (Call.dc_send (w.channel p).outgoing_dc bytes) w

  -- `pomelo_webrtc_channel_send_buffer`
  unfoldable pub channel_send_buffer : ℕ → ℕ → World env → World env
  channel_send_buffer p buffer w = emit env (Call.dc_send_buffer (w.channel p).outgoing_dc buffer) w

  -- `pomelo_webrtc_channel_dc_set_incoming_data_channel`
  unfoldable pub channel_set_incoming : ℕ → ℕ → World env → World env
  channel_set_incoming p dc w = elim (w.channel p).incoming_dc [
    | some set ↦ w
    | none ↦
        update_channel env p (λ c. record c { incoming_dc = some dc })
          (emit env (Call.dc_set_data dc p) w)
  ]

  -- `pomelo_webrtc_channel_receive`
  unfoldable pub channel_receive : ℕ → ℕ → World env → World env
  channel_receive p message w =
      let w1 = emit env (Call.buffer_ref message) (emit env (Call.channel_ref p) w) in
      let w2 = emit env Call.acquire_command w1 in
      let submit = Call.submit_session_receive p message w2.session.native_session in
      let w3 = emit env submit w2 in
      elim (env.pointer w1.log Call.acquire_command) [
        | none ↦ channel_unref p (emit env (Call.buffer_unref message) w2)
        | some command ↦
            if env.succeeds w2.log submit
            then w3
            else emit env Call.release_command
                (channel_unref p (emit env (Call.buffer_unref message) w3))
      ]

  -- `pomelo_webrtc_channel_receive_complete`
  unfoldable pub channel_receive_complete : ℕ → ℕ → World env → World env
  channel_receive_complete p message w =
      emit env Call.release_command (channel_unref p (emit env (Call.buffer_unref message) w))
