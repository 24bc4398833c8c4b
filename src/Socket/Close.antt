-- ===== src/Socket/Close.antt =====
-- src/socket: what the close of a socket does, and what comes after it.
use pomelo_udp_webrtc_plugin.Base.{
  ℕ, ◌+◌, ◌-◌, ◌≤◌, ◌≡◌, inl, inr, refl, sym, ◌∙◌, ap, Bool, true, false, ◌&&◌, Bool-cases, List,
  [], ◌∷◌, ◌++◌, append_assoc, append-nil, ◌==◌, if◌then◌else◌, arith,
}
use pomelo_udp_webrtc_plugin.Socket.{
  Counter, Deed, session_closed, client_destroyed, close_spawned, Acquired, Socket, did,
  socket_unref, wss_close, close_sessions, socket_close, on_client,
}

-- The documented behaviour of the counter of base/ref.h, with its value as a number: an object has one
-- reference at first, and the finalizer is called when the last one is given up.
pub record Counts (counter : Counter) : Type 0 where
  pub count : counter.Ref → ℕ
  pub count-init : count counter.ref_init ≡ 1
  pub count-ref : (r : counter.Ref) → 1 ≤ count r → count (counter.ref_ref r) ≡ count r + 1
  pub count-unref :
      (r : counter.Ref) (n : ℕ)
      → count r ≡ n + 1
      → (count (counter.ref_unref r).0 ≡ n) × ((counter.ref_unref r).1 ≡ (n == 0))

abbrev pub closes : List ℕ → List Deed
closes [] = []
closes (p ∷ ps) = session_closed p ∷ closes ps

module _ (counter : Counter) where
  close_sessions_lem :
      (ps : List ℕ) (s : Socket counter)
      → s.sessions ≡ ps
      → close_sessions counter ps s ≡ record s { sessions = []; deeds = s.deeds ++ closes ps }
  unfolding close_sessions
  close_sessions_lem [] s h =
      ap (λ d. record s { deeds = d }) (sym (append-nil s.deeds))
      ∙ ap (λ ps. record s { sessions = ps; deeds = s.deeds ++ [] }) h
  close_sessions_lem (p ∷ ps) s h =
      close_sessions_lem ps (did counter (session_closed p) (record s { sessions = ps })) refl
      ∙ ap (λ d. record s { sessions = []; deeds = d })
          (append_assoc s.deeds (session_closed p ∷ []) (closes ps))

  -- The socket after its close, for the reference that is then left.
  abbrev pub closed : Bool → Socket counter → Socket counter
  closed spawned s = record s {
    ref = (counter.ref_unref s.ref).0;
    active = false;
    wss_active = false;
    sessions = [];
    deeds =
        (s.deeds ++ closes s.sessions)
        ++ (if s.wss_active && spawned then close_spawned ∷ [] else []);
  }

  no_deed :
      (s : Socket counter)
      → record s { wss_active = false } ≡ record s { wss_active = false; deeds = s.deeds ++ [] }
  no_deed s = ap (λ d. record s { wss_active = false; deeds = d }) (sym (append-nil s.deeds))

  wss_close_lem :
      (spawned : Bool) (s : Socket counter)
      → wss_close counter spawned s ≡ record s {
        wss_active = false;
        deeds = s.deeds ++ (if s.wss_active && spawned then close_spawned ∷ [] else []);
      }
  unfolding wss_close
  wss_close_lem true s = elim (Bool-cases s.wss_active) [
    | inl on ↦ rw on refl
    | inr off ↦ rw off (no_deed s)
  ]
  wss_close_lem false s = elim (Bool-cases s.wss_active) [
    | inl on ↦ rw on (no_deed s)
    | inr off ↦ rw off (no_deed s)
  ]

  module _ (counts : Counts counter) where
    pub socket_unref_lem :
        (s : Socket counter)
        → 2 ≤ counts.count s.ref
        → socket_unref counter s ≡ record s { ref = (counter.ref_unref s.ref).0 }
    unfolding socket_unref
    socket_unref_lem s shared =
        let (less, last) =
          counts.count-unref s.ref (counts.count s.ref - 1) (omega (arith, shared)) in
        let more : (counter.ref_unref s.ref).1 ≡ false = ground (arith, last, shared) in
        rw more refl

    pub socket_close_lem :
        (spawned : Bool) (s : Socket counter)
        → s.active ≡ true
        → 2 ≤ counts.count s.ref
        → socket_close counter spawned s ≡ closed spawned s
    unfolding socket_close
    socket_close_lem spawned s live shared =
        let s1 = record s { active = false } in
        let s2 = record s1 { sessions = []; deeds = s1.deeds ++ closes s.sessions } in
        rw live (
          ap (λ t. socket_unref counter (wss_close counter spawned t))
            (close_sessions_lem s.sessions s1 refl)
          ∙ ap (socket_unref counter) (wss_close_lem spawned s2)
          ∙ socket_unref_lem _ shared)

    pub closed_again :
        (spawned : Bool) (s : Socket counter)
        → s.active ≡ false
        → socket_close counter spawned s ≡ s
    unfolding socket_close
    closed_again spawned s closed = rw closed refl

    client_after :
        (client : ℕ) (acquired : Acquired) (pushed : Bool) (s : Socket counter)
        → s.wss_active ≡ false
        → on_client counter client acquired pushed s ≡ did counter (client_destroyed client) s
    unfolding on_client
    client_after client acquired pushed s h = rw h refl

    -- Where the counter of base/ref.h counts: the close of an active socket to which another reference
    -- is left closes every session of its list, once and in the order of the list, hands the close of
    -- an active server to a worker (if the context takes the task), gives up one reference, and leaves
    -- the socket without sessions. A second close then changes nothing, and a client that still comes
    -- is destroyed, whatever the pool of the sessions could have given it.
    pub socket_close-closed :
        (spawned : Bool) (s : Socket counter) (client : ℕ) (acquired : Acquired)
        (again pushed : Bool)
        → s.active ≡ true
        → 2 ≤ counts.count s.ref
        → (socket_close counter spawned s ≡ closed spawned s)
          × (counts.count (closed spawned s).ref + 1 ≡ counts.count s.ref)
          × (socket_close counter again (closed spawned s) ≡ closed spawned s)
          × (on_client counter client acquired pushed (closed spawned s)
              ≡ did counter (client_destroyed client) (closed spawned s))
    socket_close-closed spawned s client acquired again pushed live shared =
        let (less, last) =
          counts.count-unref s.ref (counts.count s.ref - 1) (omega (arith, shared)) in
        (
          socket_close_lem spawned s live shared,
          omega (arith, less, shared),
          closed_again again (closed spawned s) refl,
          client_after client acquired pushed (closed spawned s) refl,
        )
