-- ===== src/Channel/Receiving.antt =====
-- src/channel/channel.c, channel-dc.c, channel-plugin.c: the references behind the messages that pass
-- through the plugin's thread, to the host and from it.
pub mod Balance
use pomelo_udp_webrtc_plugin.Base.{
  ℕ, ◌+◌, ◌≡◌, ◌⊎◌, refl, sym, ap, ◌∙◌, inl, inr, Bool, true, false, not, Option, none, some, List,
  [], ◌∷◌, Bytes, Bool-cases, Option-cases, ◌==◌, if◌then◌else◌, arith,
}
use pomelo_udp_webrtc_plugin.Env.{Env, Call}
use pomelo_udp_webrtc_plugin.World.{World, emit, update_channel}
use pomelo_udp_webrtc_plugin.Channel.{
  outgoing_cleanup, incoming_cleanup, channel_cleanup, channel_on_finalize, channel_unref,
  channel_send, channel_send_buffer, channel_receive, channel_receive_complete,
}
use pomelo_udp_webrtc_plugin.Channel.Events.{
  same_pointer, channel_of, dc_process_message, dc_on_message_callback, send_at,
  session_send_callback,
}
use pomelo_udp_webrtc_plugin.Session.Cleanup.{session_cleanup, session_on_finalize, session_unref}
use pomelo_udp_webrtc_plugin.Frame.{decode_ping, pong_frame}
use pomelo_udp_webrtc_plugin.Session.System.{
  system_send, process_ping, process_pong, process_system_message,
}

-- How often one buffer and one channel were referenced and unreferenced, and how many commands that hold
-- them the host has taken; and how many receive commands the pool handed out and took back, and the host
-- has taken, of whatever buffer and channel.
pub record Ledger : Type 0 where
  pub buffer_refs : ℕ
  pub buffer_unrefs : ℕ
  pub buffer_taken : ℕ
  pub channel_refs : ℕ
  pub channel_unrefs : ℕ
  pub channel_taken : ℕ
  pub acquired : ℕ
  pub released : ℕ
  pub taken : ℕ

abbrev empty_ledger : Ledger
empty_ledger = record {
  buffer_refs = 0;
  buffer_unrefs = 0;
  buffer_taken = 0;
  channel_refs = 0;
  channel_unrefs = 0;
  channel_taken = 0;
  acquired = 0;
  released = 0;
  taken = 0;
}

-- One more where two pointers are the same.
abbrev pub one_if : ℕ → ℕ → ℕ
one_if p q = if p == q then 1 else 0

-- A command that the host has taken.
abbrev take_command : Bool → ℕ → ℕ → Ledger → Ledger
take_command false on_buffer on_channel b = b
take_command true on_buffer on_channel b = record b {
  buffer_taken = b.buffer_taken + on_buffer;
  channel_taken = b.channel_taken + on_channel;
  taken = b.taken + 1;
}

-- One entry of the book on a buffer and a channel, given whether the pool had a command and whether the
-- call had success.
abbrev booked : ℕ → ℕ → Bool → Bool → Call → Ledger → Ledger
booked buffer channel has ok (Call.buffer_ref q) b = record b {
  buffer_refs = b.buffer_refs + one_if buffer q;
}
booked buffer channel has ok (Call.buffer_unref q) b = record b {
  buffer_unrefs = b.buffer_unrefs + one_if buffer q;
}
booked buffer channel has ok (Call.channel_ref p) b = record b {
  channel_refs = b.channel_refs + one_if channel p;
}
booked buffer channel has ok (Call.channel_unref p) b = record b {
  channel_unrefs = b.channel_unrefs + one_if channel p;
}
booked buffer channel has ok (Call.submit_session_receive p q native) b =
    take_command ok (one_if buffer q) (one_if channel p) b
booked buffer channel has ok Call.acquire_command b =
    if has then record b { acquired = b.acquired + 1 } else b
booked buffer channel has ok Call.release_command b = record b { released = b.released + 1 }
booked buffer channel has ok c b = b

-- A pointer that is not NULL.
abbrev is_there : Option ℕ → Bool
is_there none = false
is_there (some p) = true

module _ (env : Env) (buffer channel : ℕ) where
  abbrev pub ledger : List Call → Ledger
  ledger [] = empty_ledger
  ledger (c ∷ l) =
      booked buffer channel (is_there (env.pointer l c)) (env.succeeds l c) c (ledger l)

  session_cleanup-ledger : (w : World env) → ledger (session_cleanup env w).log ≡ ledger w.log
  unfolding session_cleanup
  session_cleanup-ledger w = ground arith

  session_unref-ledger : (w : World env) → ledger (session_unref env w).log ≡ ledger w.log
  unfolding session_unref session_on_finalize
  session_unref-ledger w = ground (
    arith,
    session_cleanup-ledger (emit env Call.release_session (emit env Call.session_unref w)),
  )

  dcs-ledger :
      (p : ℕ) (w : World env)
      → ledger (incoming_cleanup env p (outgoing_cleanup env p w)).log ≡ ledger w.log
  unfolding incoming_cleanup outgoing_cleanup
  dcs-ledger p w = ground arith

  channel_cleanup-ledger :
      (p : ℕ) (w : World env) → ledger (channel_cleanup env p w).log ≡ ledger w.log
  unfolding channel_cleanup
  channel_cleanup-ledger p w =
      session_unref-ledger (incoming_cleanup env p (outgoing_cleanup env p w)) ∙ dcs-ledger p w

  pub channel_unref-ledger :
      (p : ℕ) (w : World env)
      → ledger (channel_unref env p w).log ≡ ledger (emit env (Call.channel_unref p) w).log
  unfolding channel_unref channel_on_finalize
  channel_unref-ledger p w = elim (Bool-cases (env.succeeds w.log (Call.channel_unref p))) [
    | inl last ↦ rw last (
        channel_cleanup-ledger p
          (emit env (Call.release_channel p) (emit env (Call.channel_unref p) w)))
    | inr more ↦ rw more refl
  ]

  system_send-ledger :
      (bytes : Bytes) (w : World env) → ledger (system_send env bytes w).log ≡ ledger w.log
  unfolding system_send channel_send
  system_send-ledger bytes w = ground arith

  answer-ledger :
      (decoded : Option ℕ) (w : World env)
      → ledger
          (elim decoded as (λ x. World env) [
            | none ↦ w
            | some sequence ↦
                system_send env
                  (pong_frame env.payload sequence (env.number w.log Call.socket_time))
                  (emit env Call.socket_time w)
          ]).log
        ≡ ledger w.log
  answer-ledger none w = refl
  answer-ledger (some sequence) w =
      system_send-ledger (pong_frame env.payload sequence (env.number w.log Call.socket_time))
        (emit env Call.socket_time w)

  process_ping-ledger :
      (message : Bytes) (w : World env) → ledger (process_ping env message w).log ≡ ledger w.log
  unfolding process_ping
  process_ping-ledger message w = answer-ledger (decode_ping env.payload message) w

  process_pong-ledger :
      (message : Bytes) (recv_time : ℕ) (w : World env)
      → ledger (process_pong env message recv_time w).log ≡ ledger w.log
  unfolding process_pong
  process_pong-ledger message recv_time w = ground arith

  pub process_system_message-ledger :
      (message : Bytes) (recv_time : ℕ) (w : World env)
      → ledger (process_system_message env message recv_time w).log ≡ ledger w.log
  unfolding process_system_message
  process_system_message-ledger [] recv_time w = refl
  process_system_message-ledger (header ∷ rest) recv_time w = ground (
    arith,
    process_ping-ledger (header ∷ rest) w,
    process_pong-ledger (header ∷ rest) recv_time w,
  )
