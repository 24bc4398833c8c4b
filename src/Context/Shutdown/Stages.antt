-- ===== src/Context/Shutdown/Stages.antt =====
-- src/context.c: the stages of the shutdown of the event loop, over all the orders in which its two threads
-- take their turns.
use pomelo_udp_webrtc_plugin.Base.{◌≡◌, ◌↔◌, refl, ap, ◌∙◌, true, false, List, [], ◌∷◌, ◌++◌}
use pomelo_udp_webrtc_plugin.Context.Shutdown.{
  sending, joining, returned, in_loop, storing, over, Loop, shutdown_step, async_shutdown_callback,
  entry_step, Thread, main_thread, loop_thread, turn, turns, loop_at, started, shut_down,
  last_turns,
}

-- The states that two threads can bring about.
data Stage : Loop → Type 0 where
  stage_started : Stage started
  stage_exchanged : Stage (loop_at sending false false false in_loop)
  stage_sent : Stage (loop_at joining false true false in_loop)
  stage_stopped : Stage (loop_at joining false true true in_loop)
  stage_left : Stage (loop_at joining false true true storing)
  stage_over : Stage (loop_at joining false true true over)
  stage_shut_down : Stage shut_down

turn-Stage : (t : Thread) {l : Loop} → Stage l → Stage (turn t l)
unfolding shutdown_step entry_step async_shutdown_callback
turn-Stage main_thread stage_started = stage_exchanged
turn-Stage main_thread stage_exchanged = stage_sent
turn-Stage main_thread stage_sent = stage_sent
turn-Stage main_thread stage_stopped = stage_stopped
turn-Stage main_thread stage_left = stage_left
turn-Stage main_thread stage_over = stage_shut_down
turn-Stage main_thread stage_shut_down = stage_shut_down
turn-Stage loop_thread stage_started = stage_started
turn-Stage loop_thread stage_exchanged = stage_exchanged
turn-Stage loop_thread stage_sent = stage_stopped
turn-Stage loop_thread stage_stopped = stage_left
turn-Stage loop_thread stage_left = stage_over
turn-Stage loop_thread stage_over = stage_over
turn-Stage loop_thread stage_shut_down = stage_shut_down

turns-Stage : (ts : List Thread) {l : Loop} → Stage l → Stage (turns ts l)
turns-Stage [] s = s
turns-Stage (t ∷ ts) s = turns-Stage ts (turn-Stage t s)

last_turns-Stage : {l : Loop} → Stage l → turns last_turns l ≡ shut_down
unfolding shutdown_step entry_step async_shutdown_callback
last_turns-Stage stage_started = refl
last_turns-Stage stage_exchanged = refl
last_turns-Stage stage_sent = refl
last_turns-Stage stage_stopped = refl
last_turns-Stage stage_left = refl
last_turns-Stage stage_over = refl
last_turns-Stage stage_shut_down = refl

turns_append : (ts us : List Thread) (l : Loop) → turns (ts ++ us) l ≡ turns us (turns ts l)
turns_append [] us l = refl
turns_append (t ∷ ts) us l = turns_append ts us (turn t l)

-- Where `thread_shutdown` is back, the other thread is over.
returned-shut_down : {l : Loop} → Stage l → l.closing ≡ returned → l ≡ shut_down
returned-shut_down stage_started e = cc
returned-shut_down stage_exchanged e = cc
returned-shut_down stage_sent e = cc
returned-shut_down stage_stopped e = cc
returned-shut_down stage_left e = cc
returned-shut_down stage_over e = cc
returned-shut_down stage_shut_down e = refl

-- In whatever order the two threads take their turns from the start of the loop, `thread_shutdown` has
-- returned exactly if the flag is cleared, the loop was told to stop and its thread is over; and after two
-- more turns of the closing thread, three of the loop's and one of the closing thread, it has returned.
pub turns-shut_down :
    (ts : List Thread)
    → (((turns ts started).closing ≡ returned) ↔ (turns ts started ≡ shut_down))
      × (turns (ts ++ last_turns) started ≡ shut_down)
turns-shut_down ts = (
  (returned-shut_down (turns-Stage ts stage_started), λ e. ap (λ l. l.closing) e),
  turns_append ts last_turns started ∙ last_turns-Stage (turns-Stage ts stage_started),
)
