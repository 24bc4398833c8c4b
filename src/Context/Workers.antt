-- ===== src/Context/Workers.antt =====
-- The tasks that the context gives to worker threads, and what libuv calls back (src/context.c:
-- `spawn_task`, `worker_task_process`, `worker_task_callback`, `timer_callback`).
use pomelo_udp_webrtc_plugin.Base.{
  ℕ, Bool, not, Option, none, some, List, ltb, if◌then◌else◌, length,
}
use pomelo_udp_webrtc_plugin.Context.Tasks.{max_args, Task}

-- `pomelo_webrtc_worker_task_t`: the base with its arguments, and the work; the callback may be NULL.
pub record WorkerTask (C V : Type 0) : Type 0 where
  pub base : Task (Option C) V
  pub work_fn : C

-- A call of a function with its arguments.
pub record Invocation (C V : Type 0) : Type 0 where
  pub function : C
  pub args : List V

module _ {C V : Type 0} where
  -- `pomelo_webrtc_context_spawn_task`: the task that is handed to libuv, if one is.
  unfoldable pub spawn_task : Bool → Option ℕ → C → Option C → List V → Option (ℕ × WorkerTask C V)
  spawn_task thread_running acquired work callback args =
      if not thread_running
      then none
      else if ltb max_args (length args)
      then none
      else elim acquired [
        | none ↦ none
        | some p ↦
            some (p, record { base = record { callback = callback; args = args }; work_fn = work })
      ]

  -- `pomelo_webrtc_worker_task_process`, on a worker thread
  unfoldable pub worker_task_process : WorkerTask C V → Invocation C V
  worker_task_process t = record { function = t.work_fn; args = t.base.args }

  -- `pomelo_webrtc_worker_task_callback`, back on the plugin's thread
  unfoldable pub worker_task_callback : Bool → WorkerTask C V → Option (Invocation C V)
  worker_task_callback canceled t = if canceled then none else elim t.base.callback [
    | none ↦ none
    | some callback ↦ some (record { function = callback; args = t.base.args })
  ]

  -- `pomelo_webrtc_timer_callback`, each time that the timer fires
  unfoldable pub timer_callback : Task C V → Invocation C V
  timer_callback t = record { function = t.callback; args = t.args }
