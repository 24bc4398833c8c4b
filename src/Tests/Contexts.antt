-- ===== src/Tests/Contexts.antt =====
-- Runs of the theorems on the context and on the tasks that are handed to it.
use pomelo_udp_webrtc_plugin.Base.{
  ℕ, ◌≡◌, ◌↔◌, ◌⊎◌, List, append-nil, sym, ◌==◌, if◌then◌else◌, refl, true, false, Option, none,
  some, [], ◌∷◌, ◌++◌, arith,
}
use pomelo_udp_webrtc_plugin.Dispatch.{
  ptr, dc_on_open, dc_on_message, ws_on_message, pc_on_local_candidate, reference, Sender,
  submit_dc_on_message, submit_ws_on_message, submit_pc_on_local_candidate,
}
use pomelo_udp_webrtc_plugin.Dispatch.Buffers.{Handed, message_buffers}
use pomelo_udp_webrtc_plugin.Context.Life.{Part, context_create, context_destroy}
use pomelo_udp_webrtc_plugin.Context.Life.Balance.{
  HasFailed, HasSucceeded, context_create-context_destroy,
}
use pomelo_udp_webrtc_plugin.Context.Shutdown.{
  returned, main_thread, loop_thread, turns, started, shut_down, last_turns,
}
use pomelo_udp_webrtc_plugin.Context.Shutdown.Stages.{turns-shut_down}
use pomelo_udp_webrtc_plugin.Context.Life.Loops.{loops}
use pomelo_udp_webrtc_plugin.Plugin.{entry, unloads}
use pomelo_udp_webrtc_plugin.Plugin.Unload.{IsGone, entry-unloads}
use pomelo_udp_webrtc_plugin.Context.Tasks.{Task, Tasks, submit_task, pop_task, async_task_callback}
use pomelo_udp_webrtc_plugin.Context.Tasks.Order.{
  waiting, Run, IsFree, submitted, popped, submit, pop, Reach, here, next, in_hand, tasks_at,
  Reach-IsQueue,
}
use pomelo_udp_webrtc_plugin.Context.Tasks.Drain.{waiting_tasks, async_task_callback_ends}
use pomelo_udp_webrtc_plugin.Context.Tasks.Race.{fresh, raced, called_with_other_args}

abbrev nothing : ℕ → Task ℕ ℕ
nothing p = record { callback = 0; args = [] }

abbrev start : Run ℕ ℕ
start = fresh nothing

abbrev one_submitted : Run ℕ ℕ
one_submitted = submitted (some 0) 7 (1 ∷ 2 ∷ []) start

abbrev one_in_hand : Run ℕ ℕ
one_in_hand = popped one_submitted

abbrev two_submitted : Run ℕ ℕ
two_submitted = submitted (some 1) 8 (3 ∷ []) one_in_hand

one_submitted-IsFree : IsFree true one_in_hand (some 1)
unfolding submit_task pop_task
one_submitted-IsFree = (tt, omega arith)

one_waiting : one_submitted.worker ≡ waiting
unfolding submit_task
one_waiting = refl

two_submitted_reached : Reach true start two_submitted
two_submitted_reached =
    next (next (next here (submit (some 0) 7 (1 ∷ 2 ∷ []) (tt, tt))) (pop one_waiting))
      (submit (some 1) 8 (3 ∷ []) one_submitted-IsFree)

Reach-IsQueue_example :
    two_submitted.queued
    ≡ two_submitted.called
      ++ (in_hand two_submitted.worker two_submitted.tasks
          ++ tasks_at two_submitted.tasks.element two_submitted.tasks.pending)
Reach-IsQueue_example = Reach-IsQueue two_submitted_reached refl

abbrev first : Task ℕ ℕ
first = record { callback = 7; args = 1 ∷ 2 ∷ [] }

abbrev second : Task ℕ ℕ
second = record { callback = 8; args = 3 ∷ 4 ∷ [] }

called_with_other_args_example :
    Reach false (fresh nothing) (raced nothing 0 first second)
    × ((raced nothing 0 first second).called ≡ record { callback = 7; args = 3 ∷ 4 ∷ [] } ∷ [])
called_with_other_args_example = called_with_other_args nothing 0 first second (omega arith) refl

-- Callbacks that submit nothing.
abbrev submits_nothing : Task ℕ ℕ → Tasks ℕ ℕ → Tasks ℕ ℕ
submits_nothing t s = s

abbrev three_waiting : Tasks ℕ ℕ
three_waiting = record {
  thread_running = true;
  element = λ p. if p == 5 then first else second;
  pending = 4 ∷ 5 ∷ 6 ∷ [];
}

async_task_callback_ends_example :
    (r : Tasks ℕ ℕ) × (after : List (Task ℕ ℕ)) × (async_task_callback submits_nothing 4
        three_waiting []
      ≡ some (r, [] ++ (waiting_tasks three_waiting ++ after)))
    × (r.pending ≡ [])
async_task_callback_ends_example =
    async_task_callback_ends (λ t. 1) submits_nothing
      (λ t s. ([], sym (append-nil (waiting_tasks s)), omega arith)) 4 three_waiting []
      (omega arith)

-- There is no memory for the channels' pool.
abbrev some_made : Part → Option ℕ
some_made Part.channel_pool = none
some_made _ = some 5

context_create-context_destroy_example :
    (true ≡ false)
      × ((context_create some_made true true).1 ≡ false)
      × ((context_create some_made true true).0.deeds ≡ [])
    ⊎ (true ≡ true)
      × (HasFailed Part.socket_pool (context_create some_made true true)
          ⊎ HasSucceeded Part.socket_pool (context_create some_made true true)
            × (loops (context_destroy (context_create some_made true true).0).deeds ≡ 1))
context_create-context_destroy_example =
    context_create-context_destroy some_made true true Part.socket_pool

-- A thread of the wrapper hands over its events.
abbrev sender : Sender
sender = record {
  tasks = record {
    thread_running = true;
    element = λ p. record { callback = dc_on_open; args = [] };
    pending = 4 ∷ [];
  };
  uses = [];
}

message_buffers_example :
    Handed dc_on_message
      (ptr 6 ∷ ptr 7 ∷ [])
      (reference 7 ∷ [])
      sender
      (submit_dc_on_message true (some 5) true 6 7 sender)
    × Handed ws_on_message
        (ptr 6 ∷ ptr 7 ∷ [])
        (reference 7 ∷ [])
        sender
        (submit_ws_on_message true (some 5) true 6 7 sender)
    × Handed pc_on_local_candidate
        (ptr 6 ∷ ptr 8 ∷ ptr 9 ∷ [])
        (reference 9 ∷ reference 8 ∷ [])
        sender
        (submit_pc_on_local_candidate true (some 5) true 6 8 9 sender)
message_buffers_example = message_buffers true (some 5) 6 7 8 9 sender

entry-unloads_example : IsGone Part.socket_pool true (unloads 2 (entry some_made true true))
entry-unloads_example = entry-unloads some_made true true 1 Part.socket_pool

turns-shut_down_example :
    (((turns (loop_thread ∷ main_thread ∷ loop_thread ∷ []) started).closing ≡ returned)
      ↔ (turns (loop_thread ∷ main_thread ∷ loop_thread ∷ []) started ≡ shut_down))
    × (turns ((loop_thread ∷ main_thread ∷ loop_thread ∷ []) ++ last_turns) started ≡ shut_down)
turns-shut_down_example = turns-shut_down (loop_thread ∷ main_thread ∷ loop_thread ∷ [])
