-- ===== src/Channel/Release.antt =====
-- src/channel: when a channel goes back to its pool, by its references.
use pomelo_udp_webrtc_plugin.Base.{
  ℕ, ◌+◌, ◌-◌, ◌<◌, ◌≡◌, ◌⊎◌, refl, ap, ◌∙◌, true, false, none, some, List, [], ◌∷◌, ◌==◌,
  if◌then◌else◌, arith,
}
use pomelo_udp_webrtc_plugin.Env.{Env, Call, Mode}
use pomelo_udp_webrtc_plugin.World.{Channel, World, emit, update_channel}
use pomelo_udp_webrtc_plugin.Channel.{
  outgoing_cleanup, incoming_cleanup, channel_cleanup, channel_on_finalize, channel_unref,
  channel_dc_close, channel_close, channel_init, channel_dc_init,
}
use pomelo_udp_webrtc_plugin.Channel.Events.{channel_of, remove_channel, dc_on_closed_callback}
use pomelo_udp_webrtc_plugin.Session.Cleanup.{session_cleanup, session_on_finalize, session_unref}

-- The references to a channel, as the calls tell: 1 at its initialization, one more for each
-- reference, one less for each unreference.
abbrev pub channel_refs : ℕ → List Call → ℕ
channel_refs p [] = 0
channel_refs p (Call.channel_ref_init q ∷ l) = if p == q then 1 else channel_refs p l
channel_refs p (Call.channel_ref q ∷ l) = if p == q then channel_refs p l + 1 else channel_refs p l
channel_refs p (Call.channel_unref q ∷ l) =
    if p == q then channel_refs p l - 1 else channel_refs p l
channel_refs p (_ ∷ l) = channel_refs p l

-- How often a channel went back to its pool.
abbrev pub releases : ℕ → List Call → ℕ
releases p [] = 0
releases p (Call.release_channel q ∷ l) = if p == q then releases p l + 1 else releases p l
releases p (_ ∷ l) = releases p l

-- Documented of base/ref.h: the finalizer runs at the unreference that takes the last reference.
abbrev pub CountsChannels : Env → Type 0
CountsChannels env =
    (log : List Call) (p : ℕ) → env.succeeds log (Call.channel_unref p) ≡ (channel_refs p log == 1)

module _ (env : Env) (p : ℕ) where
  -- What an operation leaves alone: the references of `p` and how often it was released.
  abbrev Leaves : World env → World env → Type 0
  Leaves w v = (channel_refs p v.log ≡ channel_refs p w.log) × (releases p v.log ≡ releases p w.log)

  session_cleanup-Leaves : (w : World env) → Leaves w (session_cleanup env w)
  unfolding session_cleanup
  session_cleanup-Leaves w = ground arith

  session_unref-Leaves : (w : World env) → Leaves w (session_unref env w)
  unfolding session_unref session_on_finalize
  session_unref-Leaves w = ground (
    arith,
    session_cleanup-Leaves (emit env Call.release_session (emit env Call.session_unref w)),
  )

  -- The state in which a channel lies in its pool: every field of it is reset.
  abbrev pub IsReset : Channel → Type 0
  IsReset c =
      (c.active ≡ false)
      × (c.dc_active ≡ false)
      × (c.session ≡ false)
      × (c.incoming_dc ≡ none)
      × (c.outgoing_dc ≡ none)
      × (c.dc_receive ≡ false)
      × (c.index ≡ 0)
      × (c.mode ≡ Mode.unreliable)

  channel-session_unref : (w : World env) → (session_unref env w).channel ≡ w.channel
  unfolding session_unref session_on_finalize session_cleanup
  channel-session_unref w = ground arith

  dcs-IsReset :
      (w : World env)
      → (((incoming_cleanup env p (outgoing_cleanup env p w)).channel p).incoming_dc ≡ none)
        × (((incoming_cleanup env p (outgoing_cleanup env p w)).channel p).outgoing_dc ≡ none)
  unfolding incoming_cleanup outgoing_cleanup
  dcs-IsReset w = ground arith

  dcs-Leaves : (w : World env) → Leaves w (incoming_cleanup env p (outgoing_cleanup env p w))
  unfolding incoming_cleanup outgoing_cleanup
  dcs-Leaves w = ground arith

  channel_cleanup_lem :
      (w : World env)
      → Leaves w (channel_cleanup env p w) × IsReset ((channel_cleanup env p w).channel p)
  unfolding channel_cleanup
  channel_cleanup_lem w =
      let v = incoming_cleanup env p (outgoing_cleanup env p w) in
      let left = session_unref-Leaves v in
      let before = dcs-Leaves w in
      let same = channel-session_unref v in
      ((left.0 ∙ before.0, left.1 ∙ before.1), rw same (ground (arith, dcs-IsReset w)))

  -- Not the last reference: one is gone, and nothing else happens.
  channel_unref_more :
      (w : World env)
      → CountsChannels env
      → 1 < channel_refs p w.log
      → channel_unref env p w ≡ emit env (Call.channel_unref p) w
  unfolding channel_unref
  channel_unref_more w law h = ground (arith, law w.log p)

  -- The last reference: the channel is released once and lies reset in its pool.
  channel_unref_last :
      (w : World env)
      → CountsChannels env
      → channel_refs p w.log ≡ 1
      → (channel_refs p (channel_unref env p w).log ≡ 0)
        × (releases p (channel_unref env p w).log ≡ releases p w.log + 1)
        × IsReset ((channel_unref env p w).channel p)
  unfolding channel_unref channel_on_finalize
  channel_unref_last w law h =
      let v = emit env (Call.release_channel p) (emit env (Call.channel_unref p) w) in
      ground (arith, law w.log p, channel_cleanup_lem v)

  channel_dc_close-Leaves :
      (w : World env)
      → Leaves w (channel_dc_close env p w)
        × ((channel_dc_close env p w).channel p).active ≡ (w.channel p).active
  unfolding channel_dc_close
  channel_dc_close-Leaves w = ground arith

  -- A channel that was released so often and holds so many references.
  abbrev Stands : ℕ → ℕ → World env → Type 0
  Stands refs released w = (channel_refs p w.log ≡ refs) × (releases p w.log ≡ released)

  unref_one :
      (n : ℕ) (w : World env)
      → CountsChannels env
      → Stands 2 n w
      → Stands 1 n (channel_unref env p w) × ((channel_unref env p w).channel ≡ w.channel)
  unref_one n w law h = rw (channel_unref_more w law (omega (arith, h.0))) (ground arith, refl)

  unref_last :
      (n : ℕ) (w : World env)
      → CountsChannels env
      → Stands 1 n w
      → Stands 0 (n + 1) (channel_unref env p w) × IsReset ((channel_unref env p w).channel p)
  unref_last n w law h = ground (arith, channel_unref_last w law h.0)

  -- `pomelo_webrtc_channel_close` up to its unreference
  abbrev closing : World env → World env
  closing w = channel_dc_close env p (update_channel env p (λ c. record c { active = false }) w)

  closing-Stands :
      (r n : ℕ) (w : World env)
      → Stands r n w
      → Stands r n (closing w) × (((closing w).channel p).active ≡ false)
  closing-Stands r n w h =
      ground
        (arith, channel_dc_close-Leaves (update_channel env p (λ c. record c { active = false }) w))

  channel_close_live :
      (w : World env)
      → (w.channel p).active ≡ true
      → channel_close env p w ≡ channel_unref env p (closing w)
  unfolding channel_close
  channel_close_live w h = ground arith

  -- `pomelo_webrtc_dc_on_closed_callback` up to its unreference
  abbrev dc_closing : ℕ → World env → World env
  dc_closing dc w = remove_channel env p (emit env (Call.dc_get_data dc) w)

  dc_closing-Stands :
      (dc r n : ℕ) (w : World env)
      → Stands r n w
      → Stands r n (dc_closing dc w) × ((dc_closing dc w).channel ≡ w.channel)
  unfolding remove_channel
  dc_closing-Stands dc r n w h = (h, refl)

  dc_on_closed_found :
      (dc : ℕ) (w : World env)
      → channel_of env dc w ≡ some p
      → dc_on_closed_callback env dc w ≡ channel_unref env p (dc_closing dc w)
  unfolding dc_on_closed_callback
  dc_on_closed_found dc w h = ground arith

  -- Where the counter of base/ref.h counts: an active channel with its two references, which its
  -- data channel leads to, is released exactly once, and then lies reset in the pool, when it is
  -- closed and then its data channel closes; the close itself leaves one reference and releases
  -- nothing.
  pub close_then_dc_closed :
      (dc : ℕ) (w : World env)
      → CountsChannels env
      → (w.channel p).active ≡ true
      → channel_refs p w.log ≡ 2
      → channel_of env dc (channel_close env p w) ≡ some p
      → (releases p (channel_close env p w).log ≡ releases p w.log)
        × (releases p (dc_on_closed_callback env dc (channel_close env p w)).log
            ≡ releases p w.log + 1)
        × IsReset ((dc_on_closed_callback env dc (channel_close env p w)).channel p)
  close_then_dc_closed dc w law live two found =
      let n = releases p w.log in
      let w1 = channel_close env p w in
      let first : Stands 1 n w1 =
        rw (channel_close_live w live)
          (unref_one n (closing w) law (closing-Stands 2 n w (two, refl)).0).0 in
      let last = unref_last n (dc_closing dc w1) law (dc_closing-Stands dc 1 n w1 first).0 in
      (
        first.1,
        rw (dc_on_closed_found dc w1 found) (last.0.1),
        rw (dc_on_closed_found dc w1 found) (last.1),
      )

  -- Where the counter of base/ref.h counts: an active channel with its two references, which its
  -- data channel leads to, is released exactly once, and then lies reset in the pool, when its data
  -- channel closes and then the channel is closed; the closing of the data channel itself releases
  -- nothing.
  pub dc_closed_then_close :
      (dc : ℕ) (w : World env)
      → CountsChannels env
      → (w.channel p).active ≡ true
      → channel_refs p w.log ≡ 2
      → channel_of env dc w ≡ some p
      → (releases p (dc_on_closed_callback env dc w).log ≡ releases p w.log)
        × (releases p (channel_close env p (dc_on_closed_callback env dc w)).log
            ≡ releases p w.log + 1)
        × IsReset ((channel_close env p (dc_on_closed_callback env dc w)).channel p)
  dc_closed_then_close dc w law live two found =
      let n = releases p w.log in
      let w1 = dc_on_closed_callback env dc w in
      let before = dc_closing-Stands dc 2 n w (two, refl) in
      let step = unref_one n (dc_closing dc w) law before.0 in
      let first : Stands 1 n w1 = rw (dc_on_closed_found dc w found) step.0 in
      let still : (w1.channel p).active ≡ true =
        rw (dc_on_closed_found dc w found) (ap (λ f. (f p).active) (step.1 ∙ before.1) ∙ live) in
      let last = unref_last n (closing w1) law (closing-Stands 1 n w1 first).0 in
      (
        first.1,
        rw (channel_close_live w1 still) (last.0.1),
        rw (channel_close_live w1 still) (last.1),
      )

  -- A channel that its initializer prepared without error is active and has exactly the two references,
  -- its own and that of its data channel; where the data channel cannot be created it has its own alone.
  channel_init_refs :
      (index : ℕ) (mode : Mode) (w : World env)
      → (((channel_init env p index mode w).1 ≡ true)
          × (channel_refs p (channel_init env p index mode w).0.log ≡ 2)
          × (((channel_init env p index mode w).0.channel p).active ≡ true)
          × (((channel_init env p index mode w).0.channel p).dc_active ≡ true))
        ⊎ (((channel_init env p index mode w).1 ≡ false)
            × (channel_refs p (channel_init env p index mode w).0.log ≡ 1)
            × (((channel_init env p index mode w).0.channel p).dc_active ≡ (w.channel p).dc_active))
  unfolding channel_init channel_dc_init
  channel_init_refs index mode w = ground arith
