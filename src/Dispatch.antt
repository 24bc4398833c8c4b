-- ===== src/Dispatch.antt =====
-- The functions that the wrapper and the host call on their own threads, and that pack their arguments
-- and submit a task (src/session/session-ws.c, session-pc.c, session-plugin.c, src/channel/channel-dc.c,
-- channel-plugin.c, src/socket/socket-wss.c, socket-plugin.c).
--
-- `has_context` says whether the plugin's context was found, `acquired` and `pushed` how the pool of
-- tasks and the list answer. What is done to the counters of buffers is a list, the last use first.
use pomelo_udp_webrtc_plugin.Base.{
  ℕ, Bool, true, false, Option, none, some, List, [], ◌∷◌, ◌==◌, Bytes, if◌then◌else◌,
}
use pomelo_udp_webrtc_plugin.Label.{parse_channel_label}
use pomelo_udp_webrtc_plugin.Context.Tasks.{Tasks, submit_task}
pub mod Buffers
pub mod Messages

-- `pomelo_webrtc_variant_t`
pub data Variant : Type 0 where
  ptr size i32 address : ℕ → Variant
  b : Bool → Variant

-- The callbacks of the tasks, by the names of their functions without prefix and suffix.
pub data Callback : Type 0 where
  dc_on_open dc_on_closed dc_on_error dc_on_message : Callback
  ws_on_closed ws_on_message : Callback
  pc_on_local_candidate pc_on_state_changed pc_on_data_channel : Callback
  wss_on_client wss_on_closed : Callback
  socket_on_listening socket_on_stopped : Callback
  session_create session_disconnect session_set_mode session_send session_receive : Callback

pub data Use : Type 0 where
  reference unreference : ℕ → Use

pub record Sender : Type 0 where
  pub tasks : Tasks Callback Variant
  pub uses : List Use

abbrev pub use_buffer : Use → Sender → Sender
use_buffer u s = record s { uses = u ∷ s.uses }

module _ (has_context : Bool) (acquired : Option ℕ) (pushed : Bool) where
  -- The submission, and whether a task is returned.
  abbrev pub submitted : Callback → List Variant → Sender → Sender × Bool
  submitted callback args s =
      let (tasks, task) = submit_task acquired pushed callback args s.tasks in
      (record s { tasks = tasks }, elim task [ none ↦ false | some p ↦ true ])

  -- A submission whose result is not looked at, where there is a context.
  abbrev pub submit_only : Callback → List Variant → Sender → Sender
  submit_only callback args s = if has_context then (submitted callback args s).0 else s

  -- `pomelo_webrtc_dc_on_open`
  unfoldable pub submit_dc_on_open : ℕ → Sender → Sender
  submit_dc_on_open dc s = submit_only dc_on_open (ptr dc ∷ []) s

  -- `pomelo_webrtc_dc_on_closed`
  unfoldable pub submit_dc_on_closed : ℕ → Sender → Sender
  submit_dc_on_closed dc s = submit_only dc_on_closed (ptr dc ∷ []) s

  -- `pomelo_webrtc_dc_on_error`
  unfoldable pub submit_dc_on_error : ℕ → Sender → Sender
  submit_dc_on_error dc s = submit_only dc_on_error (ptr dc ∷ []) s

  -- `pomelo_webrtc_dc_on_message`
  unfoldable pub submit_dc_on_message : ℕ → ℕ → Sender → Sender
  submit_dc_on_message dc message s =
      let (s1, task) =
        submitted dc_on_message (ptr dc ∷ ptr message ∷ []) (use_buffer (reference message) s) in
      if has_context then (if task then s1 else use_buffer (unreference message) s1) else s

  -- `pomelo_webrtc_ws_on_closed`
  unfoldable pub submit_ws_on_closed : ℕ → Sender → Sender
  submit_ws_on_closed client s = submit_only ws_on_closed (ptr client ∷ []) s

  -- `pomelo_webrtc_ws_on_message`
  unfoldable pub submit_ws_on_message : ℕ → ℕ → Sender → Sender
  submit_ws_on_message client message s =
      let (s1, task) =
        submitted ws_on_message (ptr client ∷ ptr message ∷ [])
          (use_buffer (reference message) s) in
      if has_context then (if task then s1 else use_buffer (unreference message) s1) else s

  -- `pomelo_webrtc_pc_on_local_candidate`
  unfoldable pub submit_pc_on_local_candidate : ℕ → ℕ → ℕ → Sender → Sender
  submit_pc_on_local_candidate pc cand mid s =
      let (s1, task) =
        submitted pc_on_local_candidate (ptr pc ∷ ptr cand ∷ ptr mid ∷ [])
          (use_buffer (reference mid) (use_buffer (reference cand) s)) in
      if has_context
      then (if task then s1 else use_buffer (unreference mid) (use_buffer (unreference cand) s1))
      else s

  -- `pomelo_webrtc_pc_on_state_changed`
  unfoldable pub submit_pc_on_state_changed : ℕ → ℕ → Sender → Sender
  submit_pc_on_state_changed pc state s =
      submit_only pc_on_state_changed (ptr pc ∷ i32 state ∷ []) s

  -- `pomelo_webrtc_pc_on_data_channel`, with the label of the data channel; the index stays 0 where the
  -- label is refused.
  unfoldable pub submit_pc_on_data_channel : ℕ → ℕ → Bytes → Sender → Sender
  submit_pc_on_data_channel pc dc label s = elim (parse_channel_label label) [
    | none ↦ submit_only pc_on_data_channel (ptr pc ∷ b false ∷ size 0 ∷ ptr dc ∷ []) s
    | some index ↦ submit_only pc_on_data_channel (ptr pc ∷ b true ∷ size index ∷ ptr dc ∷ []) s
  ]

  -- `pomelo_webrtc_socket_wss_on_client`
  unfoldable pub submit_wss_on_client : ℕ → ℕ → Sender → Sender
  submit_wss_on_client server client s = submit_only wss_on_client (ptr server ∷ ptr client ∷ []) s

  -- `pomelo_webrtc_socket_plugin_on_listening`, after its count of the socket
  unfoldable pub submit_on_listening : ℕ → ℕ → ℕ → Sender → Sender
  submit_on_listening plugin native at s =
      (submitted socket_on_listening (ptr plugin ∷ ptr native ∷ address at ∷ []) s).0

  -- The last part of `pomelo_webrtc_socket_plugin_on_stopped`, after its count of the socket
  unfoldable pub submit_on_stopped : ℕ → ℕ → Sender → Sender
  submit_on_stopped plugin native s =
      (submitted socket_on_stopped (ptr plugin ∷ ptr native ∷ []) s).0

  -- The last part of `pomelo_webrtc_socket_wss_close_process`
  unfoldable pub submit_wss_on_closed : ℕ → Sender → Sender
  submit_wss_on_closed socket s = (submitted wss_on_closed (ptr socket ∷ []) s).0

  -- The last part of `pomelo_webrtc_plugin_session_receive`
  unfoldable pub submit_session_receive_callback : ℕ → Sender → Sender
  submit_session_receive_callback command s = (submitted session_receive (ptr command ∷ []) s).0

  -- `pomelo_webrtc_plugin_session_create`, with the native session that the host creates, 0 for NULL
  unfoldable pub submit_session_create_callback : ℕ → ℕ → Sender → Sender
  submit_session_create_callback session native s =
      (submitted session_create (ptr session ∷ ptr native ∷ []) s).0

  -- `pomelo_webrtc_plugin_session_disconnect`
  unfoldable pub submit_session_disconnect : ℕ → ℕ → Sender → Sender
  submit_session_disconnect plugin native s =
      (submitted session_disconnect (ptr plugin ∷ ptr native ∷ []) s).0

  -- `pomelo_webrtc_plugin_session_set_mode`; `false` is the error.
  unfoldable pub submit_session_set_mode : ℕ → ℕ → ℕ → ℕ → Sender → Sender × Bool
  submit_session_set_mode plugin native index mode s =
      submitted session_set_mode (ptr plugin ∷ ptr native ∷ size index ∷ i32 mode ∷ []) s

  -- `pomelo_webrtc_plugin_session_send`: `prepared` is the buffer for the message, `is_read` whether the
  -- host's message was copied to it.
  unfoldable pub submit_session_send : ℕ → ℕ → ℕ → ℕ → Option ℕ → Bool → Sender → Sender
  submit_session_send plugin native index message_length prepared is_read s =
      if message_length == 0 then s else elim prepared [
        | none ↦ s
        | some buffer ↦
            let (s1, task) =
              submitted session_send (ptr plugin ∷ ptr native ∷ size index ∷ ptr buffer ∷ []) s in
            if is_read then (if task then s1 else use_buffer (unreference buffer) s1) else s
      ]
