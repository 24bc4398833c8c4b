-- ===== src/Tests/Sockets.antt =====
-- Runs of the theorems on the socket.
use pomelo_udp_webrtc_plugin.Base.{
  ℕ, ◌+◌, ◌-◌, ◌≤◌, ◌≡◌, ◌⊎◌, refl, true, false, none, some, [], ◌∷◌, ◌++◌, ◌==◌, if◌then◌else◌,
  arith,
}
use pomelo_udp_webrtc_plugin.Socket.{
  Counter, client_destroyed, session, Socket, did, plugin_init, wss_init, socket_init, socket_close,
  on_client,
}
use pomelo_udp_webrtc_plugin.Socket.Close.{Counts, closed, socket_close-closed}
use pomelo_udp_webrtc_plugin.Socket.Executor.{
  started, stopped, after, idle, Alternates, after-Alternates,
}
use pomelo_udp_webrtc_plugin.Socket.References
use pomelo_udp_webrtc_plugin.Socket.References.{
  System, fresh, arrived, flag, server_holds, releases, Step, client_came, stop, Reach, here, next,
}
use pomelo_udp_webrtc_plugin.Socket.Holders.{Reach-holders}

-- The counter is a number.
abbrev numbers : Counter
numbers = record { Ref = ℕ; ref_init = 1; ref_ref = λ n. n + 1; ref_unref = λ n. (n - 1, n == 1) }

numbers_count : (r n : ℕ) → r ≡ n + 1 → (r - 1 ≡ n) × ((r == 1) ≡ (n == 0))
numbers_count r n h = (omega (arith, h), ground (arith, h))

abbrev numbers-Counts : Counts numbers
numbers-Counts = record {
  count = λ n. n;
  count-init = refl;
  count-ref = λ r h. refl;
  count-unref = numbers_count;
}

-- A socket of the pool.
abbrev pooled_socket : Socket numbers
pooled_socket = record {
  ref = 0;
  active = false;
  wss_active = false;
  channel_modes = [];
  sessions = [];
  native_socket = none;
  ws_server = none;
  deeds = [];
}

abbrev served : Socket numbers
served = record pooled_socket {
  ref = 4;
  active = true;
  wss_active = true;
  sessions = 8 ∷ 9 ∷ [];
  ws_server = some 3;
}

socket_close-closed_example :
    (socket_close numbers true served ≡ closed numbers true served)
    × (4 - 1 + 1 ≡ 4)
    × (socket_close numbers true (closed numbers true served) ≡ closed numbers true served)
    × (on_client numbers 5 (session 10) true (closed numbers true served)
        ≡ did numbers (client_destroyed 5) (closed numbers true served))
socket_close-closed_example =
    socket_close-closed numbers numbers-Counts true served 5 (session 10) true true refl
      (omega arith)

after-Alternates_example :
    ((after (started ∷ stopped ∷ []) idle).running_sockets ≡ 0)
    × Alternates false (after (started ∷ stopped ∷ []) idle).orders
    × ((1 ≤ 0)
        ⊎ Alternates false
            (after ((started ∷ stopped ∷ []) ++ (stopped ∷ started ∷ [])) idle).orders)
after-Alternates_example = after-Alternates (started ∷ stopped ∷ []) (omega arith) (omega arith, tt)

abbrev initialized : Socket numbers
initialized = (socket_init numbers 2 2 (λ i. i) (some []) true (some 3) pooled_socket).0

abbrev with_client : System numbers
with_client = arrived numbers 5 (session 8) true (fresh numbers initialized)

abbrev stopped_system : System numbers
stopped_system = References.stopped numbers true with_client

Reach-holders_example :
    (numbers-Counts.count stopped_system.socket.ref
      ≡ flag stopped_system.socket.active
        + server_holds stopped_system.server
        + stopped_system.sessions
        + stopped_system.left_behind)
    × (releases stopped_system.socket.deeds ≡ (
        if flag stopped_system.socket.active
            + server_holds stopped_system.server
            + stopped_system.sessions
            + stopped_system.left_behind
          == 0
        then 1
        else 0))
unfolding socket_init plugin_init wss_init
Reach-holders_example =
    Reach-holders numbers numbers-Counts 2 2 (λ i. i) (some []) true (some 3) pooled_socket refl
      refl (next (next here (client_came 5 (session 8) true refl)) (stop true))
