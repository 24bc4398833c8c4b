-- ===== src/Context/Life/Balance.antt =====
-- src/context.c: what was created of the context against what was destroyed.
use pomelo_udp_webrtc_plugin.Base.{
  ℕ, ◌+◌, ◌-◌, ◌≤◌, ◌≡◌, ◌⊎◌, refl, sym, ap, ◌∙◌, inl, inr, Bool, true, false, Bool-cases,
  Option-cases, Option, none, some, List, [], ◌∷◌, ◌==◌, if◌then◌else◌, arith,
}
use pomelo_udp_webrtc_plugin.Context.Life.{
  Part, part_number, parts, other_parts, Deed, created, destroyed, freed, fill_context, Context,
  did, thread_shutdown, destroy_part, destroy_parts, context_destroy, cleared, start_thread,
  create_part, create_parts, context_create,
}
use pomelo_udp_webrtc_plugin.Context.Life.Loops.{loops, context_destroy-loops, fill_context-loops}
use pomelo_udp_webrtc_plugin.Context.Life.Parts.{same_part}

-- How often a part was created, and how often it was destroyed.
abbrev pub creations : Part → List Deed → ℕ
creations p [] = 0
creations p (created q ∷ l) =
    if part_number q == part_number p then creations p l + 1 else creations p l
creations p (_ ∷ l) = creations p l

abbrev pub destructions : Part → List Deed → ℕ
destructions p [] = 0
destructions p (destroyed q ∷ l) =
    if part_number q == part_number p then destructions p l + 1 else destructions p l
destructions p (_ ∷ l) = destructions p l

-- How often the memory of the context was given to no allocator.
abbrev pub frees_of_null : List Deed → ℕ
frees_of_null [] = 0
frees_of_null (freed none ∷ l) = frees_of_null l + 1
frees_of_null (_ ∷ l) = frees_of_null l

abbrev pub present : Option ℕ → ℕ
present none = 0
present (some pointer) = 1

-- All that was created of a part and not destroyed is in its field.
abbrev pub IsBalanced : Part → Context → Type 0
IsBalanced p c = creations p c.deeds ≡ destructions p c.deeds + present (c.part p)

abbrev occurrences : Part → List Part → ℕ
occurrences p [] = 0
occurrences p (q ∷ qs) =
    if part_number q == part_number p then occurrences p qs + 1 else occurrences p qs

-- The memory of the context was given back so often to no allocator, and none is remembered.
abbrev Forgets : ℕ → Context → Type 0
Forgets n c = (c.allocator ≡ none) × (frees_of_null c.deeds ≡ n)

module _ (p : Part) where
  destroy_part_lem :
      (q : Part) (c : Context)
      → IsBalanced p c
      → IsBalanced p (destroy_part q c)
        × ((destroy_part q c).part p ≡ (if part_number q == part_number p then none else c.part p))
  unfolding destroy_part
  destroy_part_lem q c h = elim (Bool-cases (part_number q == part_number p)) [
    | inl same ↦
        let field : c.part q ≡ c.part p = ap c.part (same_part q p same) in
        elim (Option-cases (c.part q)) [
          | inl e ↦ ground (arith, e, same, field)
          | inr (pointer, e) ↦ ground (arith, e, same, field)
        ]
    | inr other ↦ elim (Option-cases (c.part q)) [
      | inl e ↦ ground (arith, e, other)
      | inr (pointer, e) ↦ ground (arith, e, other)
    ]
  ]

  destroy_parts_lem :
      (qs : List Part) (c : Context)
      → IsBalanced p c
      → 1 ≤ occurrences p qs + (1 - present (c.part p))
      → IsBalanced p (destroy_parts qs c) × (present ((destroy_parts qs c).part p) ≡ 0)
  unfolding destroy_parts
  destroy_parts_lem [] c h k = (h, ground (arith, k))
  destroy_parts_lem (q ∷ qs) c h k =
      let (balanced, field) = destroy_part_lem q c h in
      destroy_parts_lem qs (destroy_part q c) balanced (ground (arith, field, k))

  create_part_lem :
      (made : Part → Option ℕ) (q : Part) (c : Context)
      → IsBalanced p c
      → occurrences p (q ∷ []) + present (c.part p) ≤ 1
      → IsBalanced p (create_part made q c).0
        × (destructions p (create_part made q c).0.deeds ≡ destructions p c.deeds)
        × (present ((create_part made q c).0.part p)
            ≡ (if (create_part made q c).1 then occurrences p (q ∷ []) else 0) + present (c.part p))
  unfolding create_part
  create_part_lem made q c h k = elim (Option-cases (made q)) [
    | inl e ↦ ground (arith, e)
    | inr (pointer, e) ↦ ground (arith, e, k)
  ]

  create_parts_lem :
      (made : Part → Option ℕ) (qs : List Part) (c : Context)
      → IsBalanced p c
      → occurrences p qs + present (c.part p) ≤ 1
      → IsBalanced p (create_parts made qs c).0
        × (destructions p (create_parts made qs c).0.deeds ≡ destructions p c.deeds)
        × (((create_parts made qs c).1 ≡ false)
            ⊎ (present ((create_parts made qs c).0.part p) ≡ occurrences p qs + present (c.part p)))
  unfolding create_parts
  create_parts_lem made [] c h k = (h, refl, inr (omega arith))
  create_parts_lem made (q ∷ qs) c h k =
      let (balanced, kept, field) = create_part_lem made q c h (ground (arith, k)) in
      let c1 = (create_part made q c).0 in
      elim (Bool-cases (create_part made q c).1) [
        | inl ok ↦
            let rest = create_parts_lem made qs c1 balanced (ground (arith, ok, field, k)) in
            ground (arith, ok, field, rest, kept)
        | inr stopped ↦ ground (arith, stopped, balanced, kept)
      ]

destroy_part-Forgets : (n : ℕ) (q : Part) (c : Context) → Forgets n c → Forgets n (destroy_part q c)
unfolding destroy_part
destroy_part-Forgets n q c h = ground arith

destroy_parts-Forgets :
    (n : ℕ) (qs : List Part) (c : Context) → Forgets n c → Forgets n (destroy_parts qs c)
unfolding destroy_parts
destroy_parts-Forgets n [] c h = h
destroy_parts-Forgets n (q ∷ qs) c h =
    destroy_parts-Forgets n qs (destroy_part q c) (destroy_part-Forgets n q c h)

create_part-Forgets :
    (made : Part → Option ℕ) (n : ℕ) (q : Part) (c : Context)
    → Forgets n c
    → Forgets n (create_part made q c).0
unfolding create_part
create_part-Forgets made n q c h = ground arith

create_parts-Forgets :
    (made : Part → Option ℕ) (n : ℕ) (qs : List Part) (c : Context)
    → Forgets n c
    → Forgets n (create_parts made qs c).0
unfolding create_parts
create_parts-Forgets made n [] c h = h
create_parts-Forgets made n (q ∷ qs) c h =
    let c1 = (create_part made q c).0 in
    let here = create_part-Forgets made n q c h in
    let rest = create_parts-Forgets made n qs c1 here in
    elim (Bool-cases (create_part made q c).1) [
      | inl ok ↦ ground (arith, ok, rest)
      | inr stopped ↦ ground (arith, stopped, here)
    ]

occurrences-parts : (p : Part) → occurrences p parts ≡ 1
occurrences-parts Part.rtc_context = refl
occurrences-parts Part.socket_map = refl
occurrences-parts Part.string_buffer_pool = refl
occurrences-parts Part.connect_token_pool = refl
occurrences-parts Part.socket_pool = refl
occurrences-parts Part.session_pool = refl
occurrences-parts Part.channel_pool = refl
occurrences-parts Part.tasks = refl
occurrences-parts Part.async_tasks_pool = refl
occurrences-parts Part.scheduled_tasks_pool = refl
occurrences-parts Part.worker_tasks_pool = refl
occurrences-parts Part.recv_command_pool = refl

-- What the destruction leaves.
context_destroy_lem :
    (p : Part) (c : Context)
    → IsBalanced p c
    → Forgets 0 c
    → (creations p (context_destroy c).deeds ≡ destructions p (context_destroy c).deeds)
      × Forgets 1 (context_destroy c)
unfolding context_destroy thread_shutdown
context_destroy_lem p c h k =
    let c1 = thread_shutdown c in
    let same : IsBalanced p c1 × Forgets 0 c1 = ground (arith, h, k) in
    let gone = destroy_parts_lem p parts c1 (same.0) (omega (arith, occurrences-parts p)) in
    let left = destroy_parts-Forgets 0 parts c1 (same.1) in ground (arith, gone, left)

destroy_parts-creations :
    (p : Part) (qs : List Part) (c : Context)
    → creations p (destroy_parts qs c).deeds ≡ creations p c.deeds
unfolding destroy_parts destroy_part
destroy_parts-creations p [] c = refl
destroy_parts-creations p (q ∷ qs) c =
    destroy_parts-creations p qs (destroy_part q c) ∙ ground arith

context_destroy-creations :
    (p : Part) (c : Context) → creations p (context_destroy c).deeds ≡ creations p c.deeds
unfolding context_destroy thread_shutdown
context_destroy-creations p c = destroy_parts-creations p parts (thread_shutdown c) ∙ ground arith

-- A context that was created as far as `ok` says, and whose thread may run.
abbrev IsCreated : Part → Bool → Context → Type 0
IsCreated p ok c =
    IsBalanced p c
    × (destructions p c.deeds ≡ 0)
    × Forgets 0 c
    × ((ok ≡ false) ⊎ (present (c.part p) ≡ 1))

-- A creation that failed has destroyed what it created of the part, and gave its memory to no allocator.
abbrev pub HasFailed : Part → Context × Bool → Type 0
HasFailed p r =
    (r.1 ≡ false)
    × (creations p r.0.deeds ≡ destructions p r.0.deeds)
    × (frees_of_null r.0.deeds ≡ 1)

-- A creation that succeeded has created the part once, and the destruction then destroys it once.
abbrev pub HasSucceeded : Part → Context × Bool → Type 0
HasSucceeded p r =
    (r.1 ≡ true)
    × (creations p r.0.deeds ≡ 1)
    × (destructions p r.0.deeds ≡ 0)
    × (creations p (context_destroy r.0).deeds ≡ 1)
    × (destructions p (context_destroy r.0).deeds ≡ 1)
    × (frees_of_null (context_destroy r.0).deeds ≡ 1)

abbrev Ends : Part → Context × Bool → Type 0
Ends p r = HasFailed p r ⊎ HasSucceeded p r

fails : (p : Part) (ok : Bool) (c : Context) → IsCreated p ok c → Ends p (context_destroy c, false)
fails p ok c h =
    let (balanced, kept, forgets, field) = h in
    let (equal, left) = context_destroy_lem p c balanced forgets in inl (refl, equal, left.1)

succeeds : (p : Part) (c : Context) → IsCreated p true c → Ends p (c, true)
succeeds p c h =
    let (balanced, before, forgets, field) = h in
    let (equal, left) = context_destroy_lem p c balanced forgets in
    let kept = context_destroy-creations p c in ground (arith, h, equal, left, kept)

start_thread-ends :
    (p : Part) (started : Bool) (c : Context)
    → IsCreated p true c
    → Ends p (
        if (start_thread started c).1
        then ((start_thread started c).0, true)
        else (context_destroy (start_thread started c).0, false))
unfolding start_thread
start_thread-ends p true c h =
    succeeds p
      (did Deed.thread_created (record (did Deed.loop_initialized c) { thread_running = true })) h
start_thread-ends p false c h =
    fails p true (record (did Deed.loop_initialized c) { thread_running = false }) h

module _ (made : Part → Option ℕ) (p : Part) where
  -- The first part and the configured callbacks.
  first_part-IsCreated :
      IsBalanced p (create_part made Part.rtc_context cleared).0
      × Forgets 0 (create_part made Part.rtc_context cleared).0
      × (destructions p (create_part made Part.rtc_context cleared).0.deeds ≡ 0)
      × (present ((create_part made Part.rtc_context cleared).0.part p) ≡ (
          if (create_part made Part.rtc_context cleared).1
          then occurrences p (Part.rtc_context ∷ [])
          else 0))
  first_part-IsCreated =
      let (balanced, kept, field) =
        create_part_lem p made Part.rtc_context cleared refl
          (ground (arith, occurrences-parts p)) in
      (
        balanced,
        create_part-Forgets made 0 Part.rtc_context cleared (refl, refl),
        kept,
        ground (arith, field),
      )

  other_parts-IsCreated :
      (c : Context)
      → IsBalanced p c
      → Forgets 0 c
      → destructions p c.deeds ≡ 0
      → present (c.part p) ≡ occurrences p (Part.rtc_context ∷ [])
      → IsCreated p (create_parts made other_parts c).1 (create_parts made other_parts c).0
  other_parts-IsCreated c balanced forgets kept field =
      let once : occurrences p other_parts + occurrences p (Part.rtc_context ∷ []) ≡ 1 =
        ground (arith, occurrences-parts p) in
      let (balanced1, kept1, ends) =
        create_parts_lem p made other_parts c balanced (omega (arith, once, field)) in
      (
        balanced1,
        kept1 ∙ kept,
        create_parts-Forgets made 0 other_parts c forgets,
        ground (arith, ends, once, field),
      )

fill_context-Ends :
    (made : Part → Option ℕ) (started : Bool) (p : Part) → Ends p (fill_context made started)
unfolding fill_context
fill_context-Ends made started p =
    let (balanced, forgets, kept, field) = first_part-IsCreated made p in
    let c = (create_part made Part.rtc_context cleared).0 in
    let c1 = did Deed.configured_callbacks c in
    let c2 = (create_parts made other_parts c1).0 in
    elim (Bool-cases (create_part made Part.rtc_context cleared).1) [
      | inr stopped ↦ rw stopped (fails p false c (balanced, kept, forgets, inl refl))
      | inl ok ↦ rw ok (
          let second =
            other_parts-IsCreated made p c1 balanced forgets kept (ground (arith, field, ok)) in
          elim (Bool-cases (create_parts made other_parts c1).1) [
            | inr stopped ↦ rw stopped (fails p (create_parts made other_parts c1).1 c2 second)
            | inl ok1 ↦ rw ok1 (start_thread-ends p started c2 (rw (sym ok1) second))
          ])
    ]

-- Without memory for the context nothing is done. Else, a creation that fails has destroyed all that it
-- created of the twelve parts with a pointer; one that succeeds has created each of them once, and the
-- destruction of the context then destroys it once; by then the event loop was initialized once in all.
-- Where there was memory, it is given back once, by the failure or by the destruction, and to no allocator,
-- since the context does not remember its own.
pub context_create-context_destroy :
    (made : Part → Option ℕ) (allocated started : Bool) (p : Part)
    → (allocated ≡ false)
        × ((context_create made allocated started).1 ≡ false)
        × ((context_create made allocated started).0.deeds ≡ [])
      ⊎ (allocated ≡ true)
        × (HasFailed p (context_create made allocated started)
            ⊎ HasSucceeded p (context_create made allocated started)
              × (loops (context_destroy (context_create made allocated started).0).deeds ≡ 1))
unfolding context_create
context_create-context_destroy made false started p = inl (refl, refl, refl)
context_create-context_destroy made true started p = elim (fill_context-Ends made started p) [
  | inl failed ↦ inr (refl, inl failed)
  | inr done ↦ inr (
    refl,
    inr (
      done,
      context_destroy-loops (fill_context made started).0 ∙ fill_context-loops made started done.0,
    ),
  )
]
