-- ===== src/Tests/Accepted.antt =====
-- A run of the theorem on an accepted token.
use pomelo_udp_webrtc_plugin.Base.{
  ℕ, ◌≡◌, ◌⊎◌, ◌∙◌, inl, refl, false, some, none, List, [], ◌∷◌, Bytes, if◌then◌else◌, codes, arith,
}
use pomelo_udp_webrtc_plugin.Decimal.{pos}
use pomelo_udp_webrtc_plugin.Env.{Env, Call}
use pomelo_udp_webrtc_plugin.World.{Session, World, emit}
use pomelo_udp_webrtc_plugin.Session.Close.{session_close}
use pomelo_udp_webrtc_plugin.Session.Auth.{pc_negotiate, recv_auth}
use pomelo_udp_webrtc_plugin.Session.Auth.Accept.{
  IsGivenUp, IsPrepared, answer_text, recv_auth_accepts,
}
use pomelo_udp_webrtc_plugin.Label.{bytes_eq}
use pomelo_udp_webrtc_plugin.Message.{ignored, auth, opcode_cmp, read_unauthenticated}
use pomelo_udp_webrtc_plugin.Session.Close.Remote.{remote_calls}
use pomelo_udp_webrtc_plugin.Session.Auth.Remote.{RefusesAll, receive_all, receive_all-remote_calls}
use pomelo_udp_webrtc_plugin.Tests.Arrays.{list_array-ArrayLaws}
use pomelo_udp_webrtc_plugin.Tests.Fixture.{
  test_env, the_world, the_session, empty_buffer, empty_buffer-IsValid,
}

-- The host accepts every token.
abbrev accepting : Env
accepting = record test_env { token_info = λ log token. some (pos 7, pos 60) }

abbrev new_session : Session accepting
new_session = record {
  flags = the_session.flags;
  socket = the_session.socket;
  channels = the_session.channels;
  system_channel = the_session.system_channel;
  list_entry = the_session.list_entry;
  opened_channels = the_session.opened_channels;
  ping_task = the_session.ping_task;
  native_session = the_session.native_session;
  client_id = the_session.client_id;
  pc = the_session.pc;
  ws_client = the_session.ws_client;
  task_timeout = the_session.task_timeout;
}

abbrev new_world : World accepting
new_world = record {
  session = new_session;
  channel = the_world.channel;
  channel_modes = the_world.channel_modes;
  log = the_world.log;
}

recv_auth_accepts_example :
    ((v : World accepting) × (recv_auth accepting (codes "abcd") new_world
        ≡ session_close accepting v)
      × IsGivenUp accepting
          (answer_text accepting
            (pos 7)
            (emit accepting (Call.token_decode (codes "abcd")) new_world))
          new_world
          v)
    ⊎ ((v : World accepting) × (recv_auth accepting (codes "abcd") new_world
          ≡ pc_negotiate accepting v)
        × IsPrepared accepting
            (pos 7)
            (answer_text accepting
              (pos 7)
              (emit accepting (Call.token_decode (codes "abcd")) new_world))
            new_world
            v)
recv_auth_accepts_example =
    recv_auth_accepts accepting (list_array-ArrayLaws none) (codes "abcd") (codes "abcd") (pos 7)
      (pos 60) empty_buffer new_world refl (inl refl) refl refl (omega arith) refl
      empty_buffer-IsValid refl (omega arith) (omega arith)

-- The host accepts one token only.
abbrev choosy : Env
choosy = record test_env {
  token_info = λ log token. if bytes_eq token (codes "good") then some (pos 7, pos 60) else none;
}

abbrev choosy_session : Session choosy
choosy_session = record {
  flags = the_session.flags;
  socket = the_session.socket;
  channels = the_session.channels;
  system_channel = the_session.system_channel;
  list_entry = the_session.list_entry;
  opened_channels = the_session.opened_channels;
  ping_task = the_session.ping_task;
  native_session = the_session.native_session;
  client_id = the_session.client_id;
  pc = the_session.pc;
  ws_client = the_session.ws_client;
  task_timeout = the_session.task_timeout;
}

abbrev choosy_world : World choosy
choosy_world = record {
  session = choosy_session;
  channel = the_world.channel;
  channel_modes = the_world.channel_modes;
  log = the_world.log;
}

-- A description that comes too early, a token, and a candidate after it.
abbrev attempts : List (ℕ × Bytes)
attempts = (21, codes "DESC|offer|v=0!") ∷ (22, codes "AUTH|abcd!") ∷ (23, codes "CAND|0|c=1!") ∷ []

not_auth : (text : Bytes) → ignored ≡ auth text → ⊥
not_auth text e = cc

no_good : bytes_eq (codes "abcd") (codes "good") ≡ false
unfolding bytes_eq
no_good = refl

refused_token :
    (text : Bytes) (calls : List Call) (token : Bytes)
    → auth (codes "abcd") ≡ auth text
    → choosy.base64_decode text ≡ some token
    → choosy.token_info calls token ≡ none
refused_token text calls token e d =
    let first : codes "abcd" ≡ text = cc in
    let second : text ≡ token = cc in
    let same : codes "abcd" ≡ token = first ∙ second in rw (← same, no_good) refl

attempts-RefusesAll : RefusesAll choosy attempts
unfolding read_unauthenticated opcode_cmp bytes_eq
attempts-RefusesAll = (
  λ text e calls token d. absurd (not_auth text e),
  (
    λ text e calls token d. refused_token text calls token e d,
    (λ text e calls token d. absurd (not_auth text e), tt),
  ),
)

receive_all-remote_calls_example :
    (remote_calls (receive_all choosy attempts choosy_world).log ≡ remote_calls choosy_world.log)
    × ((receive_all choosy attempts choosy_world).session.flags.ws_authenticated ≡ false)
receive_all-remote_calls_example =
    receive_all-remote_calls choosy attempts choosy_world attempts-RefusesAll refl
