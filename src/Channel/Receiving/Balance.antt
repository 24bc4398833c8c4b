-- ===== src/Channel/Receiving/Balance.antt =====
-- src/channel/channel.c, channel-dc.c, channel-plugin.c: what becomes of the references that come with
-- messages.
use pomelo_udp_webrtc_plugin.Base.{
  ℕ, ◌+◌, ◌≡◌, inl, inr, Bool, false, Option, none, some, List, [], ◌∷◌, Bytes, Option-cases,
  if◌then◌else◌, arith,
}
use pomelo_udp_webrtc_plugin.Env.{Env, Call}
use pomelo_udp_webrtc_plugin.World.{World, emit}
use pomelo_udp_webrtc_plugin.Channel.{
  channel_send_buffer, channel_receive, channel_receive_complete,
}
use pomelo_udp_webrtc_plugin.Channel.Events.{
  same_pointer, channel_of, dc_process_message, dc_on_message_callback, send_at,
  session_send_callback,
}
use pomelo_udp_webrtc_plugin.Channel.Receiving.{
  Ledger, ledger, one_if, channel_unref-ledger, process_system_message-ledger,
}

-- What passed through: how many references to the buffer were brought along and left behind, how many
-- commands that hold the buffer or the channel the host was done with, and how many in all.
pub record Passage : Type 0 where
  pub brought : ℕ
  pub left : ℕ
  pub buffer_done : ℕ
  pub channel_done : ℕ
  pub done : ℕ

-- From one book to another: what is neither given back nor left behind is held by a command that the host
-- has taken and is not done with; and so is each command that did not go back to its pool.
pub record Balanced (m : Passage) (b c : Ledger) : Type 0 where
  pub buffers :
      c.buffer_refs + m.brought + m.buffer_done + (b.buffer_unrefs + b.buffer_taken)
      ≡ c.buffer_unrefs + c.buffer_taken + m.left + b.buffer_refs
  pub channels :
      c.channel_refs + m.channel_done + (b.channel_unrefs + b.channel_taken)
      ≡ c.channel_unrefs + c.channel_taken + b.channel_refs
  pub commands : c.acquired + m.done + (b.released + b.taken) ≡ c.released + c.taken + b.acquired

-- What goes through the plugin's thread: a message from a data channel to the host, the end of the
-- host's work on it, and a message of the host.
pub data Passing : Type 0 where
  received : (dc buffer : ℕ) → Bytes → Passing
  completed : (p buffer : ℕ) → Passing
  sent : (index buffer : ℕ) → Passing

module _ (env : Env) where
  unfoldable pub pass : Passing → World env → World env
  pass (received dc q message) w = dc_on_message_callback env dc q message w
  pass (completed p q) w = channel_receive_complete env p q w
  pass (sent index q) w = session_send_callback env index q w

  unfoldable pub pass_all : List Passing → World env → World env
  pass_all [] w = w
  pass_all (e ∷ es) w = pass_all es (pass e w)

  -- A data channel that leads to a channel, and is the one that this channel receives from.
  unfoldable pub is_incoming : ℕ → World env → Bool
  is_incoming dc w = elim (env.pointer (Call.hrtime ∷ w.log) (Call.dc_get_data dc)) [
    | none ↦ false
    | some p ↦ same_pointer (w.channel p).incoming_dc dc
  ]

module _ (env : Env) (buffer channel : ℕ) where
  abbrev passage : (brought left buffer_done channel_done done : ℕ) → Passage
  passage brought left buffer_done channel_done done = record {
    brought = brought;
    left = left;
    buffer_done = buffer_done;
    channel_done = channel_done;
    done = done;
  }

  abbrev nothing_passed : Passage
  nothing_passed = passage 0 0 0 0 0

  abbrev book : World env → Ledger
  book w = ledger env buffer channel w.log

  channel_receive-Balanced :
      (p message : ℕ) (w : World env)
      → Balanced nothing_passed (book w) (book (channel_receive env p message w))
  unfolding channel_receive
  channel_receive-Balanced p message w =
      let w1 = emit env (Call.buffer_ref message) (emit env (Call.channel_ref p) w) in
      let w2 = emit env Call.acquire_command w1 in
      let w3 = emit env (Call.submit_session_receive p message w2.session.native_session) w2 in
      let unheld =
        channel_unref-ledger env buffer channel p (emit env (Call.buffer_unref message) w2) in
      let refused =
        channel_unref-ledger env buffer channel p (emit env (Call.buffer_unref message) w3) in
      record {
        buffers = ground (arith, unheld, refused);
        channels = ground (arith, unheld, refused);
        commands = ground (arith, unheld, refused);
      }

  channel_receive_complete-Balanced :
      (p message : ℕ) (w : World env)
      → Balanced
          (passage 0 0 (one_if buffer message) (one_if channel p) 1)
          (book w)
          (book (channel_receive_complete env p message w))
  unfolding channel_receive_complete
  channel_receive_complete-Balanced p message w =
      let after =
        channel_unref-ledger env buffer channel p (emit env (Call.buffer_unref message) w) in
      record {
        buffers = ground (arith, after);
        channels = ground (arith, after);
        commands = ground (arith, after);
      }

  dc_process_message-Balanced :
      (p q : ℕ) (message : Bytes) (recv_time : ℕ) (w : World env)
      → Balanced nothing_passed (book w) (book (dc_process_message env p q message recv_time w))
  unfolding dc_process_message
  dc_process_message-Balanced p q message recv_time w =
      let system = process_system_message-ledger env buffer channel message recv_time w in
      let host = channel_receive-Balanced p q w in
      record {
        buffers = ground (arith, system, host.buffers);
        channels = ground (arith, system, host.channels);
        commands = ground (arith, system, host.commands);
      }

  send_at-ledger :
      (at : Option (Option ℕ)) (q : ℕ) (w : World env) → book (send_at env at q w) ≡ book w
  unfolding send_at channel_send_buffer
  send_at-ledger at q w = ground arith

  -- What an event brings to the buffer and the channel: a message that is not for the incoming data
  -- channel of its channel is left behind.
  unfoldable pub passed_by : Passing → World env → Passage
  passed_by (received dc q message) w =
      passage (one_if buffer q) (if is_incoming env dc w then 0 else one_if buffer q) 0 0 0
  passed_by (completed p q) w = passage 0 0 (one_if buffer q) (one_if channel p) 1
  passed_by (sent index q) w = passage (one_if buffer q) 0 0 0 0

  abbrev and_then : Passage → Passage → Passage
  and_then m n =
      passage (m.brought + n.brought) (m.left + n.left) (m.buffer_done + n.buffer_done)
        (m.channel_done + n.channel_done) (m.done + n.done)

  unfoldable pub passed : List Passing → World env → Passage
  passed [] w = nothing_passed
  passed (e ∷ es) w = and_then (passed_by e w) (passed es (pass env e w))

  received-Balanced :
      (dc q : ℕ) (message : Bytes) (w : World env)
      → Balanced
          (passed_by (received dc q message) w)
          (book w)
          (book (dc_on_message_callback env dc q message w))
  unfolding dc_on_message_callback passed_by is_incoming
  received-Balanced dc q message w =
      let w2 = emit env (Call.dc_get_data dc) (emit env Call.hrtime w) in
      let recv_time = env.number w.log Call.hrtime in
      elim (Option-cases (channel_of env dc (emit env Call.hrtime w))) [
        | inl e ↦ record {
          buffers = ground (arith, e);
          channels = ground (arith, e);
          commands = ground (arith, e);
        }
        | inr (p, e) ↦
            let done = dc_process_message-Balanced p q message recv_time w2 in
            record {
              buffers = ground (arith, e, done.buffers);
              channels = ground (arith, e, done.channels);
              commands = ground (arith, e, done.commands);
            }
      ]

  sent-Balanced :
      (index q : ℕ) (w : World env)
      → Balanced (passed_by (sent index q) w) (book w) (book (session_send_callback env index q w))
  unfolding session_send_callback passed_by
  sent-Balanced index q w =
      let at = send_at-ledger (env.pointers.get w.session.channels index) q w in
      record {
        buffers = ground (arith, at);
        channels = ground (arith, at);
        commands = ground (arith, at);
      }

  pass-Balanced :
      (e : Passing) (w : World env) → Balanced (passed_by e w) (book w) (book (pass env e w))
  unfolding pass
  pass-Balanced (received dc q message) w = received-Balanced dc q message w
  pass-Balanced (completed p q) w = unfold passed_by in channel_receive_complete-Balanced p q w
  pass-Balanced (sent index q) w = sent-Balanced index q w

  -- One event after others.
  then_Balanced :
      (m n : Passage) (b c d : Ledger)
      → Balanced m b c
      → Balanced n c d
      → Balanced (and_then m n) b d
  then_Balanced m n b c d first second = record {
    buffers = omega (arith, first.buffers, second.buffers);
    channels = omega (arith, first.channels, second.channels);
    commands = omega (arith, first.commands, second.commands);
  }

  -- Whatever messages go through the plugin's thread, to the host, back from it and from the host, in
  -- whatever order, for each single buffer and each single channel: the references to the buffer that
  -- were taken or came with the events are those that were given back, and one for each command with this
  -- buffer that the host has taken and is not done with, and one for each message in it of a data channel
  -- that leads to no channel or is not the incoming one of its channel, which is given back never; the
  -- references to the channel are those that were given back, and one for each command with this channel
  -- that the host has taken and is not done with; and so many commands are out of their pool.
  pub pass_all-Balanced :
      (es : List Passing) (w : World env)
      → Balanced (passed es w) (book w) (book (pass_all env es w))
  unfolding pass_all passed
  pass_all-Balanced [] w = record {
    buffers = omega arith;
    channels = omega arith;
    commands = omega arith;
  }
  pass_all-Balanced (e ∷ es) w =
      then_Balanced (passed_by e w) (passed es (pass env e w)) (book w) (book (pass env e w))
        (book (pass_all env es (pass env e w))) (pass-Balanced e w)
        (pass_all-Balanced es (pass env e w))
