-- ===== src/Context/Tasks/Race.antt =====
-- src/context.c: a submission between the release of a task and its call.
use pomelo_udp_webrtc_plugin.Base.{
  ℕ, ◌≤◌, ◌≡◌, refl, sym, subst, ap, ◌∙◌, true, false, some, List, [], ◌∷◌, ◌++◌, length, take, ltb,
  arith,
}
use pomelo_udp_webrtc_plugin.Context.Tasks.{
  Task, max_args, write_element, submit_task, pop_task, call_task,
}
use pomelo_udp_webrtc_plugin.Context.Tasks.Order.{
  Worker, waiting, calling, IsFree, take-length, write_element_same, Run, submitted, popped,
  finished, Step, submit, pop, call, Reach, here, next,
}

module _ {C V : Type 0} where
  -- No task was ever submitted.
  abbrev pub fresh : (ℕ → Task C V) → Run C V
  fresh element = record {
    tasks = record { thread_running = true; element = element; pending = [] };
    worker = waiting;
    queued = [];
    called = [];
  }

  abbrev pub raced : (ℕ → Task C V) → ℕ → Task C V → Task C V → Run C V
  raced element p first second = finished first.callback (length first.args) p (
      submitted (some p) second.callback second.args
        (popped (submitted (some p) first.callback first.args (fresh element))))

  submitted_lem :
      (element : ℕ → Task C V) (p : ℕ) (t : Task C V) (w : Worker C)
      (queued called : List (Task C V))
      → length t.args ≤ max_args
      → submitted (some p) t.callback t.args (record {
        tasks = record { thread_running = true; element = element; pending = [] };
        worker = w;
        queued = queued;
        called = called;
      })
        ≡ record {
          tasks = record {
            thread_running = true;
            element = write_element p t element;
            pending = p ∷ [];
          };
          worker = w;
          queued = queued ++ t ∷ [];
          called = called;
        }
  unfolding submit_task
  submitted_lem element p t w queued called few =
      let fits : ltb max_args (length t.args) ≡ false = ground (arith, few) in rw fits refl

  -- The run when the first task was taken, and when the second one came.
  abbrev taken : (ℕ → Task C V) → ℕ → Task C V → List ℕ → List (Task C V) → Run C V
  taken element p first pending queued = record {
    tasks = record { thread_running = true; element = element; pending = pending };
    worker = calling first.callback (length first.args) p;
    queued = queued;
    called = [];
  }

  first_taken :
      (element : ℕ → Task C V) (p : ℕ) (first : Task C V)
      → length first.args ≤ max_args
      → popped (submitted (some p) first.callback first.args (fresh element))
        ≡ taken (write_element p first element) p first [] (first ∷ [])
  unfolding pop_task
  first_taken element p first few =
      let e = write_element_same p first element in
      ap popped (submitted_lem element p first waiting [] [] few)
      ∙ ap (λ t. taken (write_element p first element) p t [] (first ∷ [])) e

  second_came :
      (element : ℕ → Task C V) (p : ℕ) (first second : Task C V)
      → length first.args ≤ max_args
      → length second.args ≤ max_args
      → submitted
          (some p)
          second.callback
          second.args
          (popped (submitted (some p) first.callback first.args (fresh element)))
        ≡ taken
            (write_element p second (write_element p first element))
            p
            first
            (p ∷ [])
            (first ∷ second ∷ [])
  second_came element p first second few few2 =
      ap (submitted (some p) second.callback second.args) (first_taken element p first few)
      ∙ submitted_lem (write_element p first element) p second
          (calling first.callback (length first.args) p) (first ∷ []) [] few2

  -- Where the pool may hand out an element as soon as it was given back: for any two tasks of equally
  -- many arguments (ten at most) there is an interleaving, of two submissions and one round of the
  -- plugin's thread, in which the callback of the first task is called with the arguments of the second.
  pub called_with_other_args :
      (element : ℕ → Task C V) (p : ℕ) (first second : Task C V)
      → length first.args ≤ max_args
      → length second.args ≡ length first.args
      → Reach false (fresh element) (raced element p first second)
        × ((raced element p first second).called
            ≡ record { callback = first.callback; args = second.args } ∷ [])
  unfolding call_task
  called_with_other_args element p first second few same =
      let start = fresh element in
      let one = submitted (some p) first.callback first.args start in
      let two = popped one in
      let three = submitted (some p) second.callback second.args two in
      let is_two = first_taken element p first few in
      let is_three = second_came element p first second few (omega (arith, same)) in
      let step1 : Step false start one = submit (some p) first.callback first.args tt in
      let step2 : Step false one two =
        pop (ap (λ r. r.worker) (submitted_lem element p first waiting [] [] few)) in
      let step3 : Step false two three =
        submit (some p) second.callback second.args
          (subst (λ r. IsFree false r (some p)) (sym is_two) tt) in
      let step4 : Step false three (raced element p first second) =
        call first.callback (length first.args) p (ap (λ r. r.worker) is_three) in
      let found = write_element_same p second (write_element p first element) in
      (
        next (next (next (next here step1) step2) step3) step4,
        ap (λ r. (finished first.callback (length first.args) p r).called) is_three
            ∙ ap
                (λ t.
                  record { callback = first.callback; args = take (length first.args) t.args } ∷ [])
                found
            ∙ ap (λ n. record { callback = first.callback; args = take n second.args } ∷ [])
                (sym same)
            ∙ ap (λ xs. record { callback = first.callback; args = xs } ∷ [])
                (take-length second.args),
      )
