-- ===== src/Context/Shutdown.antt =====
-- The end of the event loop (src/context.c: `thread_shutdown`, on the thread that destroys the context,
-- and `thread_entry` with `async_shutdown_callback`, on the thread of the loop).
--
-- The two threads take turns in any order, and a thread that cannot go on waits in its turn. `uv_run`
-- calls the callback after `uv_async_send`, and returns after `uv_stop` and not before, since the handles
-- of the loop are never closed; `uv_thread_join` waits for the end of the thread.
use pomelo_udp_webrtc_plugin.Base.{Bool, true, false, List, [], ◌∷◌, if◌then◌else◌}
pub mod Stages

-- Where `thread_shutdown` is: before the exchange of the flag, before `uv_async_send`, in
-- `uv_thread_join`, or back in its caller.
pub data Closing : Type 0 where
  exchanging sending joining returned : Closing

-- Where `thread_entry` is: in `uv_run`, before the store of the flag, or over.
pub data Looping : Type 0 where
  in_loop storing over : Looping

-- The `thread_running` of the context, whether `async_shutdown` was sent, and whether the loop is to stop.
pub record Loop : Type 0 where
  pub thread_running : Bool
  pub sent : Bool
  pub stop : Bool
  pub closing : Closing
  pub looping : Looping

-- A step of `pomelo_webrtc_thread_shutdown`
abbrev pub exchange_running : Bool → Loop → Loop
exchange_running true l = record l { thread_running = false; closing = sending }
exchange_running false l = record l { closing = returned }

abbrev pub join_thread : Looping → Loop → Loop
join_thread over l = record l { closing = returned }
join_thread storing l = l
join_thread in_loop l = l

abbrev pub shutdown_from : Closing → Loop → Loop
shutdown_from exchanging l = exchange_running l.thread_running l
shutdown_from sending l = record l { sent = true; closing = joining }
shutdown_from joining l = join_thread l.looping l
shutdown_from returned l = l

unfoldable pub shutdown_step : Loop → Loop
shutdown_step l = shutdown_from l.closing l

-- `pomelo_webrtc_async_shutdown_callback`
unfoldable pub async_shutdown_callback : Loop → Loop
async_shutdown_callback l = record l { stop = true }

-- A step of `pomelo_webrtc_thread_entry`
abbrev pub entry_from : Looping → Loop → Loop
entry_from in_loop l =
    if l.stop
    then record l { looping = storing }
    else if l.sent
    then async_shutdown_callback l
    else l
entry_from storing l = record l { thread_running = false; looping = over }
entry_from over l = l

unfoldable pub entry_step : Loop → Loop
entry_step l = entry_from l.looping l

pub data Thread : Type 0 where
  main_thread loop_thread : Thread

abbrev pub turn : Thread → Loop → Loop
turn main_thread l = shutdown_step l
turn loop_thread l = entry_step l

abbrev pub turns : List Thread → Loop → Loop
turns [] l = l
turns (t ∷ ts) l = turns ts (turn t l)

-- After `context_create`, which set the flag, the loop is running.
abbrev pub loop_at : Closing → Bool → Bool → Bool → Looping → Loop
loop_at closing thread_running sent stop looping = record {
  thread_running = thread_running;
  sent = sent;
  stop = stop;
  closing = closing;
  looping = looping;
}

abbrev pub started : Loop
started = loop_at exchanging true false false in_loop

abbrev pub shut_down : Loop
shut_down = loop_at returned false true true over

-- Turns enough for the end of both.
abbrev pub last_turns : List Thread
last_turns = main_thread ∷ main_thread ∷ loop_thread ∷ loop_thread ∷ loop_thread ∷ main_thread ∷ []
