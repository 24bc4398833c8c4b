-- ===== src/Session/Auth/Channels.antt =====
-- src/session/session.c: the channels that a successful authentication creates.
use pomelo_udp_webrtc_plugin.Base.{
  ℕ, zero, suc, ◌+◌, ◌-◌, ◌^◌, not, codes, if◌then◌else◌, Bool, ◌<◌, ◌≤◌, ◌≡◌, ◌≢◌, ◌⊎◌, refl, sym,
  ap, subst, ◌∙◌, inl, inr, true, false, Bool-cases, Option-cases, Option, none, some, List, [],
  ◌∷◌, ◌++◌, append_assoc, Bytes, ◌==◌, arith,
}
use pomelo_udp_webrtc_plugin.Env.{Mode, Call, ArrayLib, Env, Reliability}
use pomelo_udp_webrtc_plugin.World.{World, emit, update_session}
use pomelo_udp_webrtc_plugin.Decimal.{print_u64}
use pomelo_udp_webrtc_plugin.Label.{system_index, server_label}
use pomelo_udp_webrtc_plugin.Channel.{
  reliability_of, channel_dc_init, channel_init, acquire_channel,
}
use pomelo_udp_webrtc_plugin.Session.Auth.{
  create_channel, create_loop, create_system_channel, create_channels,
}

-- Documented of utils/array.h.
pub record ArrayLaws {A : Type 0} (lib : ArrayLib A) : Type 0 where
  pub size-resize : (a b : lib.Array) (n : ℕ) → lib.resize a n ≡ some b → lib.size b ≡ n
  pub size-fill_zero : (a : lib.Array) → lib.size (lib.fill_zero a) ≡ lib.size a
  pub size-set : (a : lib.Array) (i : ℕ) (x : A) → lib.size (lib.set a i x) ≡ lib.size a
  pub get-set :
      (a : lib.Array) (i : ℕ) (x : A) → i < lib.size a → lib.get (lib.set a i x) i ≡ some x
  pub get-set_other :
      (a : lib.Array) (i j : ℕ) (x : A) → i ≢ j → lib.get (lib.set a i x) j ≡ lib.get a j

-- The label that a client meets: `system` at the greatest index, else the decimal index behind a prefix.
abbrev pub label_at : ℕ → Bytes
label_at index =
    if index == 2 ^ 64 - 1 then codes "system" else codes "server-channel-" ++ print_u64 index

-- What a mode promises: that each message arrives, and that messages arrive in their order.
abbrev pub delivers : Mode → Bool
delivers Mode.reliable = true
delivers Mode.sequenced = false
delivers Mode.unreliable = false

abbrev pub orders : Mode → Bool
orders Mode.reliable = true
orders Mode.sequenced = true
orders Mode.unreliable = false

-- A data channel as it is to be opened: the label of its index, and what its mode does not promise.
abbrev pub opening : ℕ → Mode → Bytes × Reliability
opening index mode = (
  label_at index,
  record { is_unreliable = not (delivers mode); is_unordered = not (orders mode) },
)

opening_lem :
    (index : ℕ) (mode : Mode) → (server_label index, reliability_of mode) ≡ opening index mode
unfolding server_label reliability_of
opening_lem index Mode.reliable = refl
opening_lem index Mode.sequenced = refl
opening_lem index Mode.unreliable = refl

-- The data channels that were opened, the last one first.
abbrev pub openings : List Call → List (Bytes × Reliability)
openings [] = []
openings (Call.dc_create pc p label reliability ∷ l) = (label, reliability) ∷ openings l
openings (_ ∷ l) = openings l

module _ (env : Env) where
  abbrev pub opening_at : ℕ → Option Mode → List (Bytes × Reliability)
  opening_at i none = []
  opening_at i (some mode) = opening i mode ∷ []

  -- Those of so many channels from an index on, by the modes of the socket, the last one first.
  abbrev pub openings_from : env.modes.Array → ℕ → ℕ → List (Bytes × Reliability)
  openings_from modes i zero = []
  openings_from modes i (suc n) =
      openings_from modes (i + 1) n ++ opening_at i (env.modes.get modes i)

  channel_init_lem :
      (p index : ℕ) (mode : Mode) (w : World env)
      → ((channel_init env p index mode w).1 ≡ false)
        ⊎ (((channel_init env p index mode w).1 ≡ true)
            × ((channel_init env p index mode w).0.session ≡ w.session)
            × ((channel_init env p index mode w).0.channel_modes ≡ w.channel_modes)
            × (openings (channel_init env p index mode w).0.log
                ≡ opening index mode ∷ openings w.log))
  unfolding channel_init channel_dc_init
  channel_init_lem p index mode w =
      let named = opening_lem index mode in
      let label = ap (λ o. o.0) named in
      let reliability = ap (λ o. o.1) named in ground (arith, label, reliability)

  -- The outcome of `acquire_channel` with a channel that was created.
  abbrev Acquired : ℕ → Mode → World env → World env × Option ℕ → ℕ → Type 0
  Acquired index mode w r p =
      (r.1 ≡ some p)
      × (r.0.session ≡ w.session)
      × (r.0.channel_modes ≡ w.channel_modes)
      × (openings r.0.log ≡ opening index mode ∷ openings w.log)

  acquire_channel_lem :
      (index : ℕ) (mode : Mode) (w : World env)
      → ((acquire_channel env index mode w).1 ≡ none)
        ⊎ ((p : ℕ) × Acquired index mode w (acquire_channel env index mode w) p)
  acquire_channel_lem index mode w = elim (Option-cases (env.pointer w.log Call.acquire_channel)) [
    | inl none_left ↦ inl (unfold acquire_channel in ground arith)
    | inr (p, e) ↦ elim (channel_init_lem p index mode (emit env Call.acquire_channel w)) [
      | inl bad ↦ inl (unfold acquire_channel in ground (arith, bad))
      | inr good ↦ inr (p, unfold acquire_channel in ground (arith, good))
    ]
  ]

  -- A round that puts the channel `p` at an index.
  abbrev pub Created : ℕ → World env → World env → ℕ → Type 0
  Created i w v p =
      (v.session.channels ≡ env.pointers.set w.session.channels i (some p))
      × (v.channel_modes ≡ w.channel_modes)
      × (openings v.log ≡ opening_at i (env.modes.get w.channel_modes i) ++ openings w.log)

  pub create_channel_lem :
      (i : ℕ) (w : World env)
      → (create_channel env i w).1 ≡ true
      → (p : ℕ) × Created i w (create_channel env i w).0 p
  create_channel_lem i w ok = elim (Option-cases (env.modes.get w.channel_modes i)) [
    | inl outside ↦ absurd (unfold create_channel in ground arith)
    | inr (mode, e) ↦ elim (acquire_channel_lem i mode w) [
      | inl bad ↦ absurd (unfold create_channel in ground (arith, bad))
      | inr (p, good) ↦ (p, unfold create_channel in ground (arith, good))
    ]
  ]

  pub create_loop_step :
      (rounds i : ℕ) (w : World env)
      → (create_loop env (suc rounds) i w).1 ≡ true
      → ((create_channel env i w).1 ≡ true)
        × (create_loop env (suc rounds) i w
            ≡ create_loop env rounds (i + 1) (create_channel env i w).0)
  unfolding create_loop
  create_loop_step rounds i w ok = elim (Bool-cases (create_channel env i w).1) [
    | inl created ↦ (created, ground arith)
    | inr stopped ↦ absurd (ground arith)
  ]

  -- What the loop leaves after `rounds` from index `i` on.
  record Filled (i rounds : ℕ) (w v : World env) : Type 0 where
    sized : env.pointers.size v.session.channels ≡ env.pointers.size w.session.channels
    below :
        (j : ℕ)
        → j < i
        → env.pointers.get v.session.channels j ≡ env.pointers.get w.session.channels j
    filled :
        (j : ℕ)
        → i ≤ j
        → j < i + rounds
        → (p : ℕ) × (env.pointers.get v.session.channels j ≡ some (some p))
    named : openings v.log ≡ openings_from w.channel_modes i rounds ++ openings w.log

  create_loop-Filled :
      ArrayLaws env.pointers
      → (rounds i : ℕ) (w : World env) → i + rounds ≤ env.pointers.size w.session.channels
      → (create_loop env rounds i w).1 ≡ true
      → Filled i rounds w (create_loop env rounds i w).0
  unfolding create_loop
  create_loop-Filled laws zero i w fits ok = record {
    sized = refl;
    below = λ j h. refl;
    filled = λ j h k. absurd (omega (arith, h, k));
    named = refl;
  }
  create_loop-Filled laws (suc rounds) i w fits ok =
      let (created, e) = create_loop_step rounds i w ok in
      let (p, made) = create_channel_lem i w created in
      let v = (create_channel env i w).0 in
      let same_size : env.pointers.size v.session.channels ≡ env.pointers.size w.session.channels =
        ap (λ a. env.pointers.size a) made.0 ∙ laws.size-set w.session.channels i (some p) in
      let here : env.pointers.get v.session.channels i ≡ some (some p) =
        ap (λ a. env.pointers.get a i) made.0
        ∙ laws.get-set w.session.channels i (some p) (omega (arith, fits)) in
      let rest =
        create_loop-Filled laws rounds (i + 1) v (omega (arith, same_size, fits))
          (ap (λ r. r.1) (sym e) ∙ ok) in
      rw e (record {
        sized = rest.sized ∙ same_size;
        below = λ j h.
            rest.below j (omega (arith, h))
            ∙ ap (λ a. env.pointers.get a j) made.0
            ∙ laws.get-set_other w.session.channels i j (some p) (λ q. omega (arith, q, h));
        filled = λ j h k. elim (Bool-cases (i == j)) [
          | inl now ↦ (
            p,
            subst
                (λ q.
                  env.pointers.get (create_loop env rounds (i + 1) v).0.session.channels q
                  ≡ some (some p))
                (ground (arith, now)) (rest.below i (omega arith) ∙ here),
          )
          | inr later ↦ rest.filled j (ground (arith, later, h)) (omega (arith, k))
        ];
        named =
            rest.named
            ∙ ap (λ m. openings_from m (i + 1) rounds ++ openings v.log) (made.1)
            ∙ ap (λ l. openings_from w.channel_modes (i + 1) rounds ++ l) (made.2)
            ∙ sym (
                append_assoc (openings_from w.channel_modes (i + 1) rounds)
                  (opening_at i (env.modes.get w.channel_modes i)) (openings w.log));
      })

  create_system_channel_lem :
      (w : World env)
      → (create_system_channel env w).1 ≡ true
      → (p : ℕ) × ((create_system_channel env w).0.session.system_channel ≡ some p)
        × ((create_system_channel env w).0.session.channels ≡ w.session.channels)
        × (openings (create_system_channel env w).0.log
            ≡ opening system_index Mode.unreliable ∷ openings w.log)
  create_system_channel_lem w ok = elim (acquire_channel_lem system_index Mode.unreliable w) [
    | inl bad ↦ absurd (unfold create_system_channel in ground (arith, bad))
    | inr (p, good) ↦ (
      p,
      unfold create_system_channel in ground (arith, good),
      unfold create_system_channel in ground (arith, good),
      unfold create_system_channel in ground (arith, good),
    )
  ]

  -- The array in which the channels are created.
  abbrev pub cleared : env.pointers.Array → World env → World env
  cleared a w = update_session env (λ s. record s { channels = env.pointers.fill_zero a }) w

  -- The loop from a cleared array of the right size, and the system channel after it.
  pub create_channels_step :
      (w : World env)
      → (create_channels env w).1 ≡ true
      → let n = env.modes.size w.channel_modes in
        (a : env.pointers.Array) × (env.pointers.resize w.session.channels n ≡ some a)
        × ((create_loop env n 0 (cleared a w)).1 ≡ true)
        × (create_channels env w ≡ create_system_channel env (create_loop env n 0 (cleared a w)).0)
  create_channels_step w ok =
      let n = env.modes.size w.channel_modes in
      elim (Option-cases (env.pointers.resize w.session.channels n)) [
        | inl full ↦ absurd (unfold create_channels in ground arith)
        | inr (a, e) ↦ elim (Bool-cases (create_loop env n 0 (cleared a w)).1) [
          | inl done ↦ (a, e, done, unfold create_channels in ground arith)
          | inr stopped ↦ absurd (unfold create_channels in ground arith)
        ]
      ]

  pub create_channels_made :
      ArrayLaws env.pointers
      → (w : World env) → (create_channels env w).1 ≡ true
      → let v = (create_channels env w).0 in
        (env.pointers.size v.session.channels ≡ env.modes.size w.channel_modes)
        × ((j : ℕ)
            → j < env.modes.size w.channel_modes
            → (p : ℕ) × (env.pointers.get v.session.channels j ≡ some (some p)))
        × ((q : ℕ) × (v.session.system_channel ≡ some q))
        × (openings v.log
            ≡ opening system_index Mode.unreliable
              ∷ (openings_from w.channel_modes 0 (env.modes.size w.channel_modes)
                  ++ openings w.log))
  create_channels_made laws w ok =
      let n = env.modes.size w.channel_modes in
      let (a, resized, done, e) = create_channels_step w ok in
      let size : env.pointers.size (cleared a w).session.channels ≡ n =
        laws.size-fill_zero a ∙ laws.size-resize w.session.channels a n resized in
      let loop = create_loop-Filled laws n 0 (cleared a w) (omega (arith, size)) done in
      let (q, system, same, named) =
        create_system_channel_lem (create_loop env n 0 (cleared a w)).0
          (ap (λ r. r.1) (sym e) ∙ ok) in
      rw e (
        ap (λ c. env.pointers.size c) same ∙ loop.sized ∙ size,
        λ j h.
            let (p, at_j) = loop.filled j (omega arith) (omega (arith, h)) in
            (p, ap (λ c. env.pointers.get c j) same ∙ at_j),
        (q, system),
        named ∙ ap (λ l. opening system_index Mode.unreliable ∷ l) loop.named,
      )
