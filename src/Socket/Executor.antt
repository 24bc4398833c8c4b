-- ===== src/Socket/Executor.antt =====
-- The counter of running sockets and the host's executor (src/socket/socket-plugin.c:
-- `pomelo_webrtc_socket_plugin_on_started` and `..._on_stopped`).
use pomelo_udp_webrtc_plugin.Base.{
  ℕ, zero, suc, ◌+◌, ◌-◌, ◌^◌, ◌≤◌, ◌<◌, ◌≡◌, ◌⊎◌, inl, inr, refl, subst, Bool, true, false,
  Bool-cases, List, [], ◌∷◌, ◌++◌, ◌==◌, if◌then◌else◌, u64, ltb, length, arith,
}

pub data Order : Type 0 where
  executor_startup executor_shutdown : Order

-- `context->running_sockets`, and what the host was told, the last first.
pub record Executor : Type 0 where
  pub running_sockets : ℕ
  pub orders : List Order

unfoldable pub on_started : Executor → Executor
on_started e =
    let e1 = record e { running_sockets = u64 (e.running_sockets + 1) } in
    if e.running_sockets == 0 then record e1 { orders = executor_startup ∷ e.orders } else e1

-- The first part of `pomelo_webrtc_socket_plugin_on_stopped`
unfoldable pub on_stopped : Executor → Executor
on_stopped e =
    let e1 = record e { running_sockets = u64 (e.running_sockets + 2 ^ 64 - 1) } in
    if e.running_sockets == 1 then record e1 { orders = executor_shutdown ∷ e.orders } else e1

-- What happens to the host's sockets: one listens or one stops.
pub data Event : Type 0 where
  started stopped : Event

abbrev pub after : List Event → Executor → Executor
after [] e = e
after (started ∷ events) e = after events (on_started e)
after (stopped ∷ events) e = after events (on_stopped e)

-- Only sockets that run stop, given the number of those that run; the rest that still runs.
abbrev pub still_running : List Event → ℕ → ℕ
still_running [] n = n
still_running (started ∷ events) n = still_running events (n + 1)
still_running (stopped ∷ events) n = still_running events (n - 1)

abbrev pub IsOrderly : List Event → ℕ → Type 0
IsOrderly [] n = Unit
IsOrderly (started ∷ events) n = IsOrderly events (n + 1)
IsOrderly (stopped ∷ events) n = (1 ≤ n) × IsOrderly events (n - 1)

-- Startups and shutdowns take turns, and the last order is a startup exactly if `up`.
abbrev pub Alternates : Bool → List Order → Type 0
Alternates up [] = up ≡ false
Alternates up (executor_startup ∷ orders) = (up ≡ true) × Alternates false orders
Alternates up (executor_shutdown ∷ orders) = (up ≡ false) × Alternates true orders

abbrev IsUp : Executor → ℕ → Type 0
IsUp e n = (e.running_sockets ≡ n) × Alternates (ltb 0 n) e.orders

on_started-IsUp : (e : Executor) (n : ℕ) → n + 1 < 2 ^ 64 → IsUp e n → IsUp (on_started e) (n + 1)
unfolding on_started
on_started-IsUp e zero small h = ground (arith, h)
on_started-IsUp e (suc n) small h = ground (arith, h)

on_stopped-IsUp :
    (e : Executor) (n : ℕ) → n < 2 ^ 64 → 1 ≤ n → IsUp e n → IsUp (on_stopped e) (n - 1)
unfolding on_stopped
on_stopped-IsUp e n small some_running h = elim (Bool-cases (n == 1)) [
  | inl last ↦ ground (arith, last, h)
  | inr more ↦ ground (arith, more, some_running, h)
]

after-IsUp :
    (events : List Event) (e : Executor) (n : ℕ)
    → n + length events < 2 ^ 64
    → IsOrderly events n
    → IsUp e n
    → IsUp (after events e) (still_running events n)
after-IsUp [] e n small orderly h = h
after-IsUp (started ∷ events) e n small orderly h =
    after-IsUp events (on_started e) (n + 1) (omega (arith, small)) orderly
      (on_started-IsUp e n (omega (arith, small)) h)
after-IsUp (stopped ∷ events) e n small (running, orderly) h =
    after-IsUp events (on_stopped e) (n - 1) (omega (arith, small, running)) orderly
      (on_stopped-IsUp e n (omega (arith, small)) running h)

-- No socket ran yet.
abbrev pub idle : Executor
idle = record { running_sockets = 0; orders = [] }

after-append : (xs ys : List Event) (e : Executor) → after (xs ++ ys) e ≡ after ys (after xs e)
after-append [] ys e = refl
after-append (started ∷ xs) ys e = after-append xs ys (on_started e)
after-append (stopped ∷ xs) ys e = after-append xs ys (on_stopped e)

-- A stop of a socket that was not counted, where none runs, and a start after it.
uncounted : (e : Executor) → IsUp e 0 → (on_started (on_stopped e)).orders ≡ e.orders
unfolding on_started on_stopped
uncounted e h = ground (arith, h)

-- In whatever order the host's sockets start to listen and stop (fewer than 2^64 times in all, and
-- none stops that is not listening): the counter has the number of those that listen, and the host
-- gets startups and shutdowns of its executor in turns, the last one a startup exactly while a socket
-- listens. But if then none listens and one is stopped that was never counted, as sockets that
-- connect to a server are not, the next socket that listens finds the executor shut down.
pub after-Alternates :
    (events : List Event)
    → length events < 2 ^ 64
    → IsOrderly events 0
    → ((after events idle).running_sockets ≡ still_running events 0)
      × Alternates (ltb 0 (still_running events 0)) (after events idle).orders
      × ((1 ≤ still_running events 0)
          ⊎ Alternates false (after (events ++ (stopped ∷ started ∷ [])) idle).orders)
after-Alternates events small orderly =
    let up = after-IsUp events idle 0 (omega (arith, small)) orderly (refl, refl) in
    (
      up.0,
      up.1,
      elim (Bool-cases (ltb 0 (still_running events 0))) [
        | inl some_running ↦ inl (ground (arith, some_running))
        | inr none_running ↦
            let zero_left : still_running events 0 ≡ 0 = ground (arith, none_running) in
            let down = subst (IsUp (after events idle)) zero_left up in
            inr (
              rw
                (
                  after-append events (stopped ∷ started ∷ []) idle,
                  uncounted (after events idle) down,
                )
                down.1)
      ],
    )
