-- ===== src/Context/Elements.antt =====
-- What the pools of sockets, sessions and channels do with a new element and with one that they give up
-- (`on_alloc` and `on_free` in src/socket/socket.c, src/session/session.c, src/channel/channel.c).
--
-- The list and the arrays are made by other repositories: what their functions return is an argument,
-- NULL is `none`. What was made and destroyed is a list, the last first.
use pomelo_udp_webrtc_plugin.Base.{
  ℕ, ◌+◌, ◌≡◌, Bool, true, false, Option, none, some, List, [], ◌∷◌, ◌==◌, if◌then◌else◌, arith,
}

pub data Container : Type 0 where
  sessions_list modes_array channels_array : Container

abbrev container_number : Container → ℕ
container_number sessions_list = 0
container_number modes_array = 1
container_number channels_array = 2

pub data Work : Type 0 where
  made destroyed : Container → Work

-- The fields of a socket, of a session and of a channel that these functions touch.
pub record SocketElement : Type 0 where
  pub context : Option ℕ
  pub sessions : Option ℕ
  pub channel_modes : Option ℕ

pub record SessionElement : Type 0 where
  pub context : Option ℕ
  pub channels : Option ℕ

pub record ChannelElement : Type 0 where
  pub context : Option ℕ

-- `pomelo_webrtc_socket_on_alloc`, given the new list and the new array; `false` is the error.
unfoldable pub socket_on_alloc :
    ℕ → Option ℕ → Option ℕ → SocketElement → List Work → SocketElement × List Work × Bool
socket_on_alloc context new_list new_array e l =
    let e1 = record e { context = some context; sessions = new_list } in
    elim new_list [
      | none ↦ (e1, l, false)
      | some p ↦
          let e2 = record e1 { channel_modes = new_array } in
          elim new_array [
            | none ↦ (e2, made sessions_list ∷ l, false)
            | some q ↦ (e2, made modes_array ∷ made sessions_list ∷ l, true)
          ]
    ]

-- One of the blocks of the functions that free
abbrev free_container : Container → Option ℕ → List Work → List Work
free_container c field l = elim field [ none ↦ l | some p ↦ destroyed c ∷ l ]

-- `pomelo_webrtc_socket_on_free`
unfoldable pub socket_on_free : SocketElement → List Work → SocketElement × List Work
socket_on_free e l = (
  record { context = none; sessions = none; channel_modes = none },
  free_container modes_array e.channel_modes (free_container sessions_list e.sessions l),
)

-- `pomelo_webrtc_session_on_alloc`
unfoldable pub session_on_alloc :
    ℕ → Option ℕ → SessionElement → List Work → SessionElement × List Work × Bool
session_on_alloc context new_array e l =
    let e1 = record e { context = some context; channels = new_array } in
    elim new_array [ none ↦ (e1, l, false) | some p ↦ (e1, made channels_array ∷ l, true) ]

-- `pomelo_webrtc_session_on_free`
unfoldable pub session_on_free : SessionElement → List Work → SessionElement × List Work
session_on_free e l =
    (record { context = none; channels = none }, free_container channels_array e.channels l)

-- `pomelo_webrtc_channel_on_alloc`
unfoldable pub channel_on_alloc : ℕ → ChannelElement → ChannelElement × Bool
channel_on_alloc context e = (record e { context = some context }, true)

-- `pomelo_webrtc_channel_on_free`
unfoldable pub channel_on_free : ChannelElement → ChannelElement
channel_on_free e = record e { context = none }

abbrev pub makings : Container → List Work → ℕ
makings c [] = 0
makings c (made d ∷ l) =
    if container_number c == container_number d then makings c l + 1 else makings c l
makings c (destroyed d ∷ l) = makings c l

abbrev pub endings : Container → List Work → ℕ
endings c [] = 0
endings c (made d ∷ l) = endings c l
endings c (destroyed d ∷ l) =
    if container_number c == container_number d then endings c l + 1 else endings c l

-- From a blank element, whether its allocation succeeds or fails at either container, what was made of
-- each kind is destroyed when the element is freed, for sockets and for sessions.
pub on_alloc-on_free :
    (context : ℕ) (new_list new_array : Option ℕ) (c : Container)
    → let blank : SocketElement = record {
      context = none;
      sessions = none;
      channel_modes = none;
    } in
      let (s, l, ok) = socket_on_alloc context new_list new_array blank [] in
      let (t, k, allocated) =
        session_on_alloc context new_array (record { context = none; channels = none }) [] in
      (makings c (socket_on_free s l).1 ≡ endings c (socket_on_free s l).1)
      × (makings c (session_on_free t k).1 ≡ endings c (session_on_free t k).1)
unfolding socket_on_alloc socket_on_free session_on_alloc session_on_free
on_alloc-on_free context new_list new_array c = ground arith
