-- ===== src/Context/Tasks.antt =====
-- The tasks that other threads hand to the plugin's thread (src/context.c: `submit_task`,
-- `async_task_callback`).
--
-- A task lies in an element of a pool, a pointer to it in a synchronized list. The pool and the list
-- belong to another repository: the element that the pool hands out is an argument, and so is whether
-- the list took the pointer. The thread that drains the list gives each element back to the pool before
-- it calls the callback, which then reads its arguments out of that element.
use pomelo_udp_webrtc_plugin.Base.{
  ℕ, zero, suc, Bool, true, false, not, Option, none, some, List, [], ◌∷◌, ◌++◌, ltb, ◌==◌,
  if◌then◌else◌, length, take,
}
pub mod Drain
pub mod Order
pub mod Race

-- `POMELO_WEBRTC_TASK_MAX_ARGS`
abbrev pub max_args : ℕ
max_args = 10

-- `pomelo_webrtc_task_t`, for a type of callbacks and one of argument values
pub record Task (C V : Type 0) : Type 0 where
  pub callback : C
  pub args : List V

-- The elements of the pool by their pointers, and the list `context->tasks`, its front first.
pub record Tasks (C V : Type 0) : Type 0 where
  pub thread_running : Bool
  pub element : ℕ → Task C V
  pub pending : List ℕ

module _ {C V : Type 0} where
  abbrev pub write_element : ℕ → Task C V → (ℕ → Task C V) → ℕ → Task C V
  write_element p t f = λ q. if p == q then t else f q

  -- `pomelo_webrtc_context_submit_task`; the result of the push is not looked at.
  unfoldable pub submit_task : Option ℕ → Bool → C → List V → Tasks C V → Tasks C V × Option ℕ
  submit_task acquired pushed callback args s =
      if not s.thread_running
      then (s, none)
      else if ltb max_args (length args)
      then (s, none)
      else elim acquired [
        | none ↦ (s, none)
        | some p ↦ (
          record s {
            element = write_element p (record { callback = callback; args = args }) s.element;
            pending = if pushed then s.pending ++ p ∷ [] else s.pending;
          },
          some p,
        )
      ]

  -- One round of the loop of `pomelo_webrtc_async_task_callback` up to the release: the callback and
  -- the number of arguments are read, and the pointer to the arguments is kept.
  unfoldable pub pop_task : Tasks C V → Option (Tasks C V × (C × ℕ × ℕ))
  pop_task s = elim s.pending [
    | [] ↦ none
    | p ∷ rest ↦
        some (record s { pending = rest }, ((s.element p).callback, length (s.element p).args, p))
  ]

  -- The rest of the round: what the callback finds behind the pointer when it is called.
  unfoldable pub call_task : C × ℕ × ℕ → Tasks C V → Task C V
  call_task (callback, argc, p) s = record {
    callback = callback;
    args = take argc (s.element p).args;
  }

  -- `pomelo_webrtc_async_task_callback`; `run` is what the call of a task does to the list and the pool.
  -- The result has the tasks that were called, in their order; `none` stands for a loop that goes on.
  unfoldable pub async_task_callback :
      (Task C V → Tasks C V → Tasks C V)
      → ℕ
      → Tasks C V
      → List (Task C V)
      → Option (Tasks C V × List (Task C V))
  async_task_callback run zero s called = none
  async_task_callback run (suc fuel) s called = elim (pop_task s) [
    | none ↦ some (s, called)
    | some (s1, popped) ↦
        let t = call_task popped s1 in async_task_callback run fuel (run t s1) (called ++ t ∷ [])
  ]
