-- ===== src/Context/Life.antt =====
-- The creation and the destruction of the context (src/context.c).
--
-- Each part of the context is made by a function of another repository, which returns a pointer or NULL:
-- `made` is the answer. The parts come in the order in which the code creates and destroys them, which
-- is the same.
use pomelo_udp_webrtc_plugin.Base.{
  ℕ, Bool, true, false, not, Option, none, some, List, [], ◌∷◌, ◌==◌, if◌then◌else◌,
}
pub mod Balance
pub mod Loops
pub mod Parts

pub data Part : Type 0 where
  rtc_context socket_map string_buffer_pool connect_token_pool socket_pool session_pool : Part
  channel_pool tasks async_tasks_pool scheduled_tasks_pool worker_tasks_pool : Part
  recv_command_pool : Part

abbrev pub part_number : Part → ℕ
part_number rtc_context = 0
part_number socket_map = 1
part_number string_buffer_pool = 2
part_number connect_token_pool = 3
part_number socket_pool = 4
part_number session_pool = 5
part_number channel_pool = 6
part_number tasks = 7
part_number async_tasks_pool = 8
part_number scheduled_tasks_pool = 9
part_number worker_tasks_pool = 10
part_number recv_command_pool = 11

-- The parts that are created after the first one.
abbrev pub other_parts : List Part
other_parts =
    socket_map ∷ string_buffer_pool ∷ connect_token_pool ∷ socket_pool ∷ session_pool ∷ channel_pool
    ∷ tasks ∷ async_tasks_pool ∷ scheduled_tasks_pool ∷ worker_tasks_pool ∷ recv_command_pool ∷ []

abbrev pub parts : List Part
parts = rtc_context ∷ other_parts

-- What was done, the last first. `freed` has the allocator that the context remembers, or NULL;
-- `loop_initialized` is the event loop with its two asynchronous handles, which nothing closes.
pub data Deed : Type 0 where
  created destroyed : Part → Deed
  configured_callbacks loop_initialized thread_created thread_joined : Deed
  freed : Option ℕ → Deed

-- `pomelo_webrtc_context_t`, as far as its life goes; the event loop and the handles are parts of the
-- struct and have no pointers.
pub record Context : Type 0 where
  pub allocator : Option ℕ
  pub part : Part → Option ℕ
  pub thread_running : Bool
  pub deeds : List Deed

abbrev pub set_part : Part → Option ℕ → Context → Context
set_part p pointer c = record c {
  part = λ q. if part_number p == part_number q then pointer else c.part q;
}

abbrev pub did : Deed → Context → Context
did d c = record c { deeds = d ∷ c.deeds }

-- `pomelo_webrtc_thread_shutdown`
unfoldable pub thread_shutdown : Context → Context
thread_shutdown c =
    if c.thread_running then did Deed.thread_joined (record c { thread_running = false }) else c

-- One of the blocks of `pomelo_webrtc_context_destroy`
unfoldable pub destroy_part : Part → Context → Context
destroy_part p c = elim (c.part p) [
  | none ↦ c
  | some pointer ↦ set_part p none (did (Deed.destroyed p) c)
]

unfoldable pub destroy_parts : List Part → Context → Context
destroy_parts [] c = c
destroy_parts (p ∷ ps) c = destroy_parts ps (destroy_part p c)

-- `pomelo_webrtc_context_destroy`
unfoldable pub context_destroy : Context → Context
context_destroy c =
    let c1 = destroy_parts parts (thread_shutdown c) in did (Deed.freed c1.allocator) c1

-- The context after its `memset`; the allocator is not stored.
abbrev pub cleared : Context
cleared = record { allocator = none; part = λ p. none; thread_running = false; deeds = [] }

-- The event loop is initialized and the thread is started last; the running flag is set before, and taken
-- back where it fails.
unfoldable pub start_thread : Bool → Context → Context × Bool
start_thread started c =
    let c1 = did Deed.loop_initialized c in
    if started
    then (did Deed.thread_created (record c1 { thread_running = true }), true)
    else (record c1 { thread_running = false }, false)

module _ (made : Part → Option ℕ) where
  -- One of the blocks of `pomelo_webrtc_context_create`; `false` is NULL.
  unfoldable pub create_part : Part → Context → Context × Bool
  create_part p c = elim (made p) [
    | none ↦ (c, false)
    | some pointer ↦ (set_part p (some pointer) (did (Deed.created p) c), true)
  ]

  -- The first NULL ends the creation.
  unfoldable pub create_parts : List Part → Context → Context × Bool
  create_parts [] c = (c, true)
  create_parts (p ∷ ps) c =
      let (c1, ok) = create_part p c in
      let rest = create_parts ps c1 in if ok then rest else (c1, false)

  -- `pomelo_webrtc_context_create` from the `memset` on: what is left of the context, and whether it is
  -- returned.
  unfoldable pub fill_context : Bool → Context × Bool
  fill_context started =
      let (c, ok) = create_part rtc_context cleared in
      let (c1, ok1) = create_parts other_parts (did Deed.configured_callbacks c) in
      let (c2, ok2) = start_thread started c1 in
      if not ok
      then (context_destroy c, false)
      else if not ok1
      then (context_destroy c1, false)
      else if ok2
      then (c2, true)
      else (context_destroy c2, false)

  -- `pomelo_webrtc_context_create`, given whether there is memory for the context itself; without it
  -- nothing is done.
  unfoldable pub context_create : (allocated started : Bool) → Context × Bool
  context_create allocated started = if allocated then fill_context started else (cleared, false)
