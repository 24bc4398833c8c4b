-- ===== src/Context/Tasks/Drain.antt =====
-- src/context.c: the loop of `pomelo_webrtc_async_task_callback`, which empties the list of tasks, on the
-- plugin's thread while no other thread submits.
use pomelo_udp_webrtc_plugin.Base.{
  ℕ, zero, suc, ◌+◌, ◌<◌, ◌≡◌, ◌⊎◌, inl, inr, refl, sym, ap, ◌∙◌, some, List, [], ◌∷◌, ◌++◌,
  append_assoc, append-nil, length, arith,
}
use pomelo_udp_webrtc_plugin.Context.Tasks.{Task, Tasks, pop_task, call_task, async_task_callback}
use pomelo_udp_webrtc_plugin.Context.Tasks.Order.{take-length, tasks_at}

List-cases {ℓ} :
    {A : Type ℓ} (xs : List A) → (xs ≡ []) ⊎ ((x : A) × (rest : List A) × (xs ≡ x ∷ rest))
List-cases [] = inl refl
List-cases (x ∷ rest) = inr (x, rest, refl)

-- One element at the end of what was done, and what follows it.
regroup {ℓ} :
    {A : Type ℓ} (called : List A) (t : A) (rest later after : List A)
    → (called ++ t ∷ []) ++ ((rest ++ later) ++ after) ≡ called ++ ((t ∷ rest) ++ (later ++ after))
regroup called t rest later after =
    append_assoc called (t ∷ []) ((rest ++ later) ++ after)
    ∙ ap (λ l. called ++ t ∷ l) (append_assoc rest later after)

module _ {C V : Type 0} where
  -- The tasks in the list.
  abbrev pub waiting_tasks : Tasks C V → List (Task C V)
  waiting_tasks s = tasks_at s.element s.pending

  -- The whole weight of some tasks.
  abbrev pub load : (Task C V → ℕ) → List (Task C V) → ℕ
  load weight [] = 0
  load weight (t ∷ ts) = weight t + load weight ts

  -- What a call may do to the list: it submits further tasks, which together weigh less than its own.
  abbrev pub SubmitsLess : (Task C V → ℕ) → (Task C V → Tasks C V → Tasks C V) → Type 0
  SubmitsLess weight run =
      (t : Task C V) (s : Tasks C V)
      → (later : List (Task C V)) × (waiting_tasks (run t s) ≡ waiting_tasks s ++ later)
        × (load weight later < weight t)

  load-append :
      (weight : Task C V → ℕ) (xs ys : List (Task C V))
      → load weight (xs ++ ys) ≡ load weight xs + load weight ys
  load-append weight [] ys = omega arith
  load-append weight (x ∷ xs) ys = omega (arith, load-append weight xs ys)

  call_task_own :
      (p : ℕ) (rest : List ℕ) (s : Tasks C V)
      → call_task
          ((s.element p).callback, length (s.element p).args, p)
          (record s { pending = rest })
        ≡ s.element p
  unfolding call_task
  call_task_own p rest s =
      ap (λ args. record { callback = (s.element p).callback; args = args })
        (take-length (s.element p).args)

  round_none :
      (run : Task C V → Tasks C V → Tasks C V) (fuel : ℕ) (s : Tasks C V) (called : List (Task C V))
      → s.pending ≡ []
      → async_task_callback run (suc fuel) s called ≡ some (s, called)
  unfolding async_task_callback pop_task
  round_none run fuel s called e = rw e refl

  round_some :
      (run : Task C V → Tasks C V → Tasks C V) (fuel : ℕ) (s : Tasks C V) (called : List (Task C V))
      (p : ℕ) (rest : List ℕ)
      → s.pending ≡ p ∷ rest
      → async_task_callback run (suc fuel) s called
        ≡ async_task_callback run fuel
            (run (s.element p) (record s { pending = rest }))
            (called ++ s.element p ∷ [])
  unfolding async_task_callback pop_task
  round_some run fuel s called p rest e = rw e (
      ap
        (λ t. async_task_callback run fuel (run t (record s { pending = rest })) (called ++ t ∷ []))
        (call_task_own p rest s))

  -- Where a call only adds tasks to the end of the list, and these together weigh less than the task that
  -- is called (none at all, if every task weighs 1), the loop ends: after fewer rounds than its fuel,
  -- which is more than the weight of the list, it has called all the tasks that were in the list, in
  -- their order and with their own arguments, then the later ones, and the list is empty.
  pub async_task_callback_ends :
      (weight : Task C V → ℕ) (run : Task C V → Tasks C V → Tasks C V)
      → SubmitsLess weight run
      → (fuel : ℕ) (s : Tasks C V) (called : List (Task C V)) → load weight (waiting_tasks s) < fuel
      → (r : Tasks C V) × (after : List (Task C V)) × (async_task_callback run fuel s called
          ≡ some (r, called ++ (waiting_tasks s ++ after)))
        × (r.pending ≡ [])
  async_task_callback_ends weight run less zero s called enough = absurd (omega arith)
  async_task_callback_ends weight run less (suc fuel) s called enough =
      elim (List-cases s.pending) [
        | inl empty ↦ (
          s,
          [],
          round_none run fuel s called empty
              ∙ ap (λ l. some (s, l))
                  (sym (append-nil called)
                    ∙ ap (λ l. called ++ (tasks_at s.element l ++ [])) (sym empty)),
          empty,
        )
        | inr (p, rest, e) ↦
            let t = s.element p in
            let s1 : Tasks C V = record s { pending = rest } in
            let waits : waiting_tasks s ≡ t ∷ waiting_tasks s1 = ap (tasks_at s.element) e in
            let (later, submitted, lighter) = less t s1 in
            let weighs = load-append weight (waiting_tasks s1) later in
            let (r, after, ends, empty) =
              async_task_callback_ends weight run less fuel (run t s1) (called ++ t ∷ []) (
                omega (
                  arith,
                  enough,
                  lighter,
                  weighs,
                  ap (load weight) submitted,
                  ap (load weight) waits,
                )) in
            let order =
              ap (λ l. (called ++ t ∷ []) ++ (l ++ after)) submitted
              ∙ regroup called t (waiting_tasks s1) later after
              ∙ ap (λ l. called ++ (l ++ (later ++ after))) (sym waits) in
            (
              r,
              later ++ after,
              round_some run fuel s called p rest e ∙ ends ∙ ap (λ l. some (r, l)) order,
              empty,
            )
      ]
