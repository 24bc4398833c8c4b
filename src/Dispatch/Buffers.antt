-- ===== src/Dispatch/Buffers.antt =====
-- src/session/session-ws.c, src/session/session-pc.c, src/channel/channel-dc.c: the references to the
-- buffers of messages and candidates, from the thread of the wrapper to the callback of the task.
use pomelo_udp_webrtc_plugin.Base.{
  ℕ, ◌+◌, ◌≡◌, ◌⊎◌, inl, inr, refl, sym, subst, ap, Bool, true, false, Option, none, some, List, [],
  ◌∷◌, ◌++◌, ◌==◌, if◌then◌else◌, arith,
}
use pomelo_udp_webrtc_plugin.Context.Tasks.{Tasks, write_element}
use pomelo_udp_webrtc_plugin.Context.Tasks.Order.{
  submit_task-none, submit_task_cases, write_element_same,
}
use pomelo_udp_webrtc_plugin.Dispatch.{
  Variant, ptr, Callback, dc_on_message, ws_on_message, pc_on_local_candidate, Use, reference,
  unreference, Sender, use_buffer, submitted, submit_dc_on_message, submit_ws_on_message,
  submit_pc_on_local_candidate,
}

-- The references to the buffer `q` that were taken, and those that were given back.
abbrev pub taken : ℕ → List Use → ℕ
taken q [] = 0
taken q (reference p ∷ l) = if p == q then taken q l + 1 else taken q l
taken q (unreference p ∷ l) = taken q l

abbrev pub given : ℕ → List Use → ℕ
given q [] = 0
given q (reference p ∷ l) = given q l
given q (unreference p ∷ l) = if p == q then given q l + 1 else given q l

-- As many were taken as given back.
abbrev pub IsEven : Sender → Sender → Type 0
IsEven s v = (q : ℕ) → taken q v.uses + given q s.uses ≡ taken q s.uses + given q v.uses

-- Nothing was queued, and all references given back; or a task was queued, for which these were taken.
abbrev pub Handed : Callback → List Variant → List Use → Sender → Sender → Type 0
Handed callback args uses s v =
    (v.tasks ≡ s.tasks) × IsEven s v
    ⊎ ((p : ℕ) × (v.tasks.pending ≡ s.tasks.pending ++ p ∷ [])
        × (v.tasks.element p ≡ record { callback = callback; args = args })
        × (v.uses ≡ uses ++ s.uses))

-- The element of the pool after the submission of a task.
abbrev queued : ℕ → Callback → List Variant → Sender → Tasks Callback Variant
queued p callback args s = record (s.tasks) {
  element = write_element p (record { callback = callback; args = args }) s.tasks.element;
  pending = s.tasks.pending ++ p ∷ [];
}

-- A submission as the senders see it.
abbrev seen : Sender → Tasks Callback Variant × Option ℕ → Sender × Bool
seen s r = (record s { tasks = r.0 }, elim r.1 [ none ↦ false | some p ↦ true ])

submitted_cases :
    (acquired : Option ℕ) (callback : Callback) (args : List Variant) (s : Sender)
    → (submitted true acquired true callback args s ≡ (s, false))
      ⊎ ((p : ℕ) × (submitted true acquired true callback args s
            ≡ (record s { tasks = queued p callback args s }, true)))
submitted_cases none callback args s = inl (ap (seen s) (submit_task-none callback args s.tasks))
submitted_cases (some p) callback args s = elim (submit_task_cases p callback args s.tasks) [
  | inl e ↦ inl (ap (seen s) e)
  | inr e ↦ inr (p, ap (seen s) e)
]

-- What a sender makes of the submission: it keeps the references that it took, or gives them back.
abbrev settled : (Sender → Sender) → Sender × Bool → Sender
settled give_back r = if r.1 then r.0 else give_back r.0

settled-Handed :
    (acquired : Option ℕ) (callback : Callback) (args : List Variant) (uses : List Use)
    (give_back : Sender → Sender) (s s1 : Sender)
    → s1.tasks ≡ s.tasks
    → s1.uses ≡ uses ++ s.uses
    → (give_back s1).tasks ≡ s.tasks
    → IsEven s (give_back s1)
    → Handed callback args uses s
        (settled give_back (submitted true acquired true callback args s1))
settled-Handed acquired callback args uses give_back s s1 same_tasks same_uses back even =
    elim (submitted_cases acquired callback args s1) [
      | inl e ↦
          subst (λ r. Handed callback args uses s (settled give_back r)) (sym e) (inl (back, even))
      | inr (p, e) ↦
          subst (λ r. Handed callback args uses s (settled give_back r)) (sym e)
            (inr (
              p,
              ap (λ t. t.pending ++ p ∷ []) same_tasks,
              write_element_same p (record { callback = callback; args = args }) s1.tasks.element,
              same_uses,
            ))
    ]

message-Handed :
    (acquired : Option ℕ) (callback : Callback) (args : List Variant) (message : ℕ) (s : Sender)
    → Handed callback args (reference message ∷ []) s (
        settled
          (use_buffer (unreference message))
          (submitted true acquired true callback args (use_buffer (reference message) s)))
message-Handed acquired callback args message s =
    settled-Handed acquired callback args (reference message ∷ [])
      (use_buffer (unreference message)) s (use_buffer (reference message) s) refl refl refl
      (λ q. ground arith)

nothing-Handed :
    (callback : Callback) (args : List Variant) (uses : List Use) (s : Sender)
    → Handed callback args uses s s
nothing-Handed callback args uses s = inl (refl, λ q. refl)

-- Where the list of tasks takes what is pushed: a message of a data channel or of a WebSocket, and a
-- candidate, which other threads hand over, either end up in a new task at the end of the queue, which
-- has the arguments given and for which one reference to each buffer was taken; or nothing is queued,
-- and as many references to every buffer were given back as were taken.
pub message_buffers :
    (has_context : Bool) (acquired : Option ℕ) (source message cand mid : ℕ) (s : Sender)
    → Handed dc_on_message
        (ptr source ∷ ptr message ∷ [])
        (reference message ∷ [])
        s
        (submit_dc_on_message has_context acquired true source message s)
      × Handed ws_on_message
          (ptr source ∷ ptr message ∷ [])
          (reference message ∷ [])
          s
          (submit_ws_on_message has_context acquired true source message s)
      × Handed pc_on_local_candidate
          (ptr source ∷ ptr cand ∷ ptr mid ∷ [])
          (reference mid ∷ reference cand ∷ [])
          s
          (submit_pc_on_local_candidate has_context acquired true source cand mid s)
unfolding submit_dc_on_message submit_ws_on_message submit_pc_on_local_candidate
message_buffers false acquired source message cand mid s = (
  nothing-Handed dc_on_message (ptr source ∷ ptr message ∷ []) (reference message ∷ []) s,
  nothing-Handed ws_on_message (ptr source ∷ ptr message ∷ []) (reference message ∷ []) s,
  nothing-Handed pc_on_local_candidate (ptr source ∷ ptr cand ∷ ptr mid ∷ [])
      (reference mid ∷ reference cand ∷ []) s,
)
message_buffers true acquired source message cand mid s = (
  message-Handed acquired dc_on_message (ptr source ∷ ptr message ∷ []) message s,
  message-Handed acquired ws_on_message (ptr source ∷ ptr message ∷ []) message s,
  settled-Handed acquired pc_on_local_candidate (ptr source ∷ ptr cand ∷ ptr mid ∷ [])
      (reference mid ∷ reference cand ∷ [])
      (λ v. use_buffer (unreference mid) (use_buffer (unreference cand) v)) s
      (use_buffer (reference mid) (use_buffer (reference cand) s)) refl refl refl
      (λ q. ground arith),
)
