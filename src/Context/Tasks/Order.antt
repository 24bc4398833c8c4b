-- ===== src/Context/Tasks/Order.antt =====
-- src/context.c: which tasks are called, and in which order, while other threads submit more.
use mathlib.Core.Path.{ap₂}
use pomelo_udp_webrtc_plugin.Base.{
  ℕ, ◌≡◌, ◌≢◌, ◌⊎◌, refl, sym, ap, subst, ◌∙◌, inl, inr, Bool, true, false, Bool-cases, Option,
  none, some, List, [], ◌∷◌, ◌++◌, append_assoc, ltb, ◌==◌, length, take, All, arith,
}
use pomelo_udp_webrtc_plugin.Context.Tasks.{
  max_args, Task, Tasks, write_element, submit_task, pop_task, call_task,
}

-- The plugin's thread between two rounds, or in one, with what it has read.
pub data Worker (C : Type 0) : Type 0 where
  waiting : Worker C
  calling : C → ℕ → ℕ → Worker C

-- The whole system, with the tasks that were queued and those that were called, in order.
pub record Run (C V : Type 0) : Type 0 where
  pub tasks : Tasks C V
  pub worker : Worker C
  pub queued : List (Task C V)
  pub called : List (Task C V)

-- The thread does not hold this element.
abbrev pub IsNotHeld : {C : Type 0} → Worker C → ℕ → Type 0
IsNotHeld waiting p = Unit
IsNotHeld (calling callback argc q) p = q ≢ p

pub take-length {ℓ} : {A : Type ℓ} (xs : List A) → take (length xs) xs ≡ xs
take-length [] = refl
take-length (x ∷ xs) = ap (◌∷◌ x) (take-length xs)

module _ {C V : Type 0} where
  -- What is known of the element that the pool hands out: it is not in the list. If the pool is
  -- `exclusive`, it is not the one either that the thread has given back and still reads.
  abbrev pub IsFree : Bool → Run C V → Option ℕ → Type 0
  IsFree exclusive s none = Unit
  IsFree true s (some p) = All (λ q. q ≢ p) s.tasks.pending × IsNotHeld s.worker p
  IsFree false s (some p) = All (λ q. q ≢ p) s.tasks.pending

  -- The result of a submission; the task counts as queued if the submitter gets it.
  abbrev pub settled : Tasks C V × Option ℕ → Task C V → Run C V → Run C V
  settled (tasks, none) t s = record s { tasks = tasks }
  settled (tasks, some p) t s = record s { tasks = tasks; queued = s.queued ++ t ∷ [] }

  -- A thread submits a task; the list takes the pointer.
  abbrev pub submitted : Option ℕ → C → List V → Run C V → Run C V
  submitted acquired callback args s =
      settled (submit_task acquired true callback args s.tasks)
        (record { callback = callback; args = args }) s

  abbrev pub popped : Run C V → Run C V
  popped s = elim (pop_task s.tasks) [
    | none ↦ s
    | some (tasks, (callback, argc, p)) ↦ record s {
      tasks = tasks;
      worker = calling callback argc p;
    }
  ]

  abbrev pub finished : C → ℕ → ℕ → Run C V → Run C V
  finished callback argc p s = record s {
    worker = waiting;
    called = s.called ++ call_task (callback, argc, p) s.tasks ∷ [];
  }

  -- One step of the system: any thread may submit at any time.
  pub data Step (exclusive : Bool) (s : Run C V) : Run C V → Type 0 where
    submit :
        (acquired : Option ℕ) (callback : C) (args : List V)
        → IsFree exclusive s acquired
        → Step exclusive s (submitted acquired callback args s)
    pop : s.worker ≡ waiting → Step exclusive s (popped s)
    call :
        (callback : C) (argc p : ℕ)
        → s.worker ≡ calling callback argc p
        → Step exclusive s (finished callback argc p s)

  -- What a run may lead to.
  pub data Reach (exclusive : Bool) (s : Run C V) : Run C V → Type 0 where
    here : Reach exclusive s s
    next : {t u : Run C V} → Reach exclusive s t → Step exclusive t u → Reach exclusive s u

  abbrev pub tasks_at : (ℕ → Task C V) → List ℕ → List (Task C V)
  tasks_at f [] = []
  tasks_at f (p ∷ ps) = f p ∷ tasks_at f ps

  -- The task that the thread is about to call.
  abbrev pub in_hand : Worker C → Tasks C V → List (Task C V)
  in_hand waiting tasks = []
  in_hand (calling callback argc p) tasks = call_task (callback, argc, p) tasks ∷ []

  -- The list is a queue of the tasks: those called, then the one in hand, then those in the list.
  abbrev pub IsQueue : Run C V → Type 0
  IsQueue s =
      s.queued ≡ s.called ++ (in_hand s.worker s.tasks ++ tasks_at s.tasks.element s.tasks.pending)

  tasks_at-append :
      (f : ℕ → Task C V) (ps qs : List ℕ) → tasks_at f (ps ++ qs) ≡ tasks_at f ps ++ tasks_at f qs
  tasks_at-append f [] qs = refl
  tasks_at-append f (p ∷ ps) qs = ap (◌∷◌ (f p)) (tasks_at-append f ps qs)

  write_element_other :
      (p q : ℕ) (t : Task C V) (f : ℕ → Task C V) → q ≢ p → write_element p t f q ≡ f q
  write_element_other p q t f h = elim (Bool-cases (p == q)) [
    | inl same ↦ absurd (h (ground arith))
    | inr other ↦ rw other refl
  ]

  tasks_at-write_element :
      (p : ℕ) (t : Task C V) (f : ℕ → Task C V) (ps : List ℕ)
      → All (λ q. q ≢ p) ps
      → tasks_at (write_element p t f) ps ≡ tasks_at f ps
  tasks_at-write_element p t f [] h = refl
  tasks_at-write_element p t f (q ∷ qs) (h, hs) =
      rw (write_element_other p q t f h, tasks_at-write_element p t f qs hs) refl

  popped_lem :
      (running : Bool) (f : ℕ → Task C V) (ps : List ℕ) (w : Worker C)
      (queued called : List (Task C V))
      → w ≡ waiting
      → queued
        ≡ called
          ++ (in_hand w (record { thread_running = running; element = f; pending = ps })
              ++ tasks_at f ps)
      → IsQueue (
          popped (record {
            tasks = record { thread_running = running; element = f; pending = ps };
            worker = w;
            queued = queued;
            called = called;
          }))
  unfolding pop_task call_task
  popped_lem running f ps (calling c n p) queued called idle h = absurd (ground (arith, idle))
  popped_lem running f [] waiting queued called idle h = h
  popped_lem running f (p ∷ ps) waiting queued called idle h =
      h
      ∙ ap (λ xs. called ++ (record { callback = (f p).callback; args = xs } ∷ tasks_at f ps))
          (sym (take-length (f p).args))

  call-IsQueue :
      (callback : C) (argc p : ℕ) (s : Run C V)
      → s.worker ≡ calling callback argc p
      → IsQueue s
      → IsQueue (finished callback argc p s)
  call-IsQueue callback argc p s busy h =
      let rest = tasks_at s.tasks.element s.tasks.pending in
      h
      ∙ ap (λ w. s.called ++ (in_hand w s.tasks ++ rest)) busy
      ∙ sym (append_assoc s.called (call_task (callback, argc, p) s.tasks ∷ []) rest)

  pub submit_task-none :
      (callback : C) (args : List V) (s : Tasks C V)
      → submit_task none true callback args s ≡ (s, none)
  unfolding submit_task
  submit_task-none callback args s = ground arith

  -- The two outcomes of a submission for which the pool has an element.
  pub submit_task_cases :
      (p : ℕ) (callback : C) (args : List V) (s : Tasks C V)
      → (submit_task (some p) true callback args s ≡ (s, none))
        ⊎ (submit_task (some p) true callback args s ≡ (
          record s {
            element = write_element p (record { callback = callback; args = args }) s.element;
            pending = s.pending ++ p ∷ [];
          },
          some p,
        ))
  unfolding submit_task
  submit_task_cases p callback args s = elim (Bool-cases s.thread_running) [
    | inl on ↦ elim (Bool-cases (ltb max_args (length args))) [
      | inl many ↦ inl (ground arith)
      | inr few ↦ inr (ground arith)
    ]
    | inr off ↦ inl (ground arith)
  ]

  -- A write to an element that the thread does not hold leaves the task in its hand.
  in_hand-write_element :
      (w : Worker C) (running : Bool) (p : ℕ) (t : Task C V) (f : ℕ → Task C V) (ps qs : List ℕ)
      → IsNotHeld w p
      → in_hand w (record { thread_running = running; element = write_element p t f; pending = qs })
        ≡ in_hand w (record { thread_running = running; element = f; pending = ps })
  unfolding call_task
  in_hand-write_element waiting running p t f ps qs h = refl
  in_hand-write_element (calling c n q) running p t f ps qs h =
      ap (λ e. record { callback = c; args = take n e.args } ∷ []) (write_element_other p q t f h)

  pub write_element_same : (p : ℕ) (t : Task C V) (f : ℕ → Task C V) → write_element p t f p ≡ t
  write_element_same p t f = ground arith

  submit-IsQueue :
      (acquired : Option ℕ) (callback : C) (args : List V) (s : Run C V)
      → IsFree true s acquired
      → IsQueue s
      → IsQueue (submitted acquired callback args s)
  submit-IsQueue none callback args s free h =
      subst (λ r. IsQueue (settled r (record { callback = callback; args = args }) s))
        (sym (submit_task-none callback args s.tasks)) h
  submit-IsQueue (some p) callback args s (fresh, unheld) h =
      let t : Task C V = record { callback = callback; args = args } in
      let f' = write_element p t s.tasks.element in
      let ps = s.tasks.pending in
      let hand = in_hand s.worker s.tasks in
      let rest = tasks_at s.tasks.element ps in
      let same_hand =
        in_hand-write_element s.worker s.tasks.thread_running p t s.tasks.element ps (ps ++ p ∷ [])
          unheld in
      let same_rest : tasks_at f' (ps ++ p ∷ []) ≡ rest ++ t ∷ [] =
        tasks_at-append f' ps (p ∷ [])
        ∙ ap₂ ◌++◌ (tasks_at-write_element p t s.tasks.element ps fresh)
            (ap (λ u. u ∷ []) (write_element_same p t s.tasks.element)) in
      elim (submit_task_cases p callback args s.tasks) [
        | inl e ↦ subst (λ r. IsQueue (settled r t s)) (sym e) h
        | inr e ↦
            subst (λ r. IsQueue (settled r t s)) (sym e)
              (ap (λ q. q ++ t ∷ []) h
                ∙ append_assoc s.called (hand ++ rest) (t ∷ [])
                ∙ ap (λ q. s.called ++ q) (append_assoc hand rest (t ∷ []))
                ∙ ap (λ q. s.called ++ q) (sym (ap₂ ◌++◌ same_hand same_rest)))
      ]

  Step-IsQueue : {s t : Run C V} → Step true s t → IsQueue s → IsQueue t
  Step-IsQueue {s} (submit acquired callback args free) h =
      submit-IsQueue acquired callback args s free h
  Step-IsQueue {s} (pop idle) h =
      popped_lem s.tasks.thread_running s.tasks.element s.tasks.pending s.worker s.queued s.called
        idle h
  Step-IsQueue {s} (call callback argc p busy) h = call-IsQueue callback argc p s busy h

  -- Where the pool hands out no element that is in the list or that the thread still reads: in whatever
  -- way the submissions of other threads and the rounds of the plugin's thread interleave, the tasks
  -- that were queued are those that were called, with the arguments that they were submitted with, then
  -- the one that is about to be called, then those in the list, in the order of their submission.
  pub Reach-IsQueue :
      {s t : Run C V}
      → Reach true s t
      → IsQueue s
      → t.queued
        ≡ t.called ++ (in_hand t.worker t.tasks ++ tasks_at t.tasks.element t.tasks.pending)
  Reach-IsQueue here h = h
  Reach-IsQueue (next r st) h = Step-IsQueue st (Reach-IsQueue r h)
