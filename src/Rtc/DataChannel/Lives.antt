-- ===== src/Rtc/DataChannel/Lives.antt =====
-- src/rtc-api: the pooled WebSocket clients over all their lives, from one library client to the next.
use pomelo_udp_webrtc_plugin.Base.{
  ℕ, ◌+◌, ◌≡◌, refl, ap, Bool, Option, none, some, List, [], ◌∷◌, Bytes, if◌then◌else◌, arith,
}
use pomelo_udp_webrtc_plugin.Rtc.Client.{
  Peer, Handlers, LibraryRequest, force_close, reset_callbacks, wsc_init, wsc_finalize,
  wsc_close_request, wsc_send_text, wsc_send_bytes,
}
use pomelo_udp_webrtc_plugin.Rtc.DataChannel.{
  new_peer, set_data, websocket_client_destroy, client_send_string, client_send_binary,
}

-- What happens to the object of a client. It is given a library client whenever the pool hands it out; where
-- the `init` throws it goes back to the pool at once, with that library client still in its field.
pub data Event : Peer → Peer → Type 0 where
  given : {p : Peer} (h : Handlers) (l : ℕ) → Event p (wsc_init h l p)
  associated : {p : Peer} (pointer : Option ℕ) → Event p (set_data pointer p)
  closed : {p : Peer} → Event p (wsc_close_request p)
  sent_text :
      {p : Peer} (text : Bytes) (answer : Option Bool)
      → Event p (client_send_string text answer p).0
  sent_bytes :
      {p : Peer} (bytes : Bytes) (answer : Option Bool)
      → Event p (client_send_binary bytes answer p).0
  destroyed : {p : Peer} (thrown : Bool) → Event p (websocket_client_destroy thrown p)

abbrev pub gifts_in : {p q : Peer} → Event p q → ℕ
gifts_in (given h l) = 1
gifts_in _ = 0

abbrev pub held : Option ℕ → ℕ
held none = 0
held (some l) = 1

-- A library client whose place another one takes.
abbrev pub dropped_in : {p q : Peer} → Event p q → ℕ
dropped_in {p = p} (given h l) = held p.library
dropped_in _ = 0

-- The exceptions of destructions that find a library client.
abbrev pub throws_in : {p q : Peer} → Event p q → ℕ
throws_in {p = p} (destroyed thrown) =
    if thrown then (elim p.library [ none ↦ 0 | some l ↦ 1 ]) else 0
throws_in _ = 0

-- All that may happen, with the library clients that were given, those whose place another one took, and
-- the exceptions of destructions so far.
pub data Lives : (gifts dropped throws : ℕ) → Peer → Type 0 where
  made : (pointer : Option ℕ) → Lives 0 0 0 (new_peer pointer)
  more :
      {gifts dropped throws : ℕ} {p q : Peer}
      → Lives gifts dropped throws p
      → (e : Event p q)
      → Lives (gifts + gifts_in e) (dropped + dropped_in e) (throws + throws_in e) q

abbrev pub forced : List LibraryRequest → ℕ
forced [] = 0
forced (force_close ∷ l) = forced l + 1
forced (_ ∷ l) = forced l

abbrev pub resets : List LibraryRequest → ℕ
resets [] = 0
resets (reset_callbacks ∷ l) = resets l + 1
resets (_ ∷ l) = resets l

-- Each library client is held, or was closed by force, or another one took its place; and its callbacks
-- were reset where it was closed, but for an exception.
pub record IsSettled (gifts dropped throws : ℕ) (p : Peer) : Type 0 where
  pub closed_or_held : forced p.requests + held p.library + dropped ≡ gifts
  pub reset_or_thrown : resets p.requests + throws ≡ forced p.requests

-- An operation that neither closes by force nor resets anything.
abbrev Leaves : Peer → Peer → Type 0
Leaves p q =
    (forced q.requests ≡ forced p.requests)
    × (resets q.requests ≡ resets p.requests)
    × (q.library ≡ p.library)

wsc_init_lem :
    (h : Handlers) (l : ℕ) (p : Peer)
    → (forced (wsc_init h l p).requests ≡ forced p.requests)
      × (resets (wsc_init h l p).requests ≡ resets p.requests)
      × ((wsc_init h l p).library ≡ some l)
unfolding wsc_init
wsc_init_lem h l p = ground arith

set_data-Leaves : (pointer : Option ℕ) (p : Peer) → Leaves p (set_data pointer p)
unfolding set_data
set_data-Leaves pointer p = (refl, refl, refl)

wsc_close_request-Leaves : (p : Peer) → Leaves p (wsc_close_request p)
unfolding wsc_close_request
wsc_close_request-Leaves p = ground arith

client_send_string-Leaves :
    (text : Bytes) (answer : Option Bool) (p : Peer) → Leaves p (client_send_string text answer p).0
unfolding client_send_string wsc_send_text
client_send_string-Leaves text answer p = ground arith

client_send_binary-Leaves :
    (bytes : Bytes) (answer : Option Bool) (p : Peer)
    → Leaves p (client_send_binary bytes answer p).0
unfolding client_send_binary wsc_send_bytes
client_send_binary-Leaves bytes answer p = ground arith

destroy_lem :
    (thrown : Bool) (p : Peer)
    → (forced (websocket_client_destroy thrown p).requests ≡ forced p.requests + held p.library)
      × (resets (websocket_client_destroy thrown p).requests
            + (if thrown then (elim p.library [ none ↦ 0 | some l ↦ 1 ]) else 0)
          ≡ resets p.requests + held p.library)
      × ((websocket_client_destroy thrown p).library ≡ none)
unfolding websocket_client_destroy wsc_finalize
destroy_lem thrown p = ground arith

left-IsSettled :
    {p q : Peer} (gifts dropped throws : ℕ)
    → Leaves p q
    → IsSettled gifts dropped throws p
    → IsSettled (gifts + 0) (dropped + 0) (throws + 0) q
left-IsSettled gifts dropped throws (force, reset, same) s = record {
  closed_or_held = omega (arith, force, ap held same, s.closed_or_held);
  reset_or_thrown = omega (arith, force, reset, s.reset_or_thrown);
}

event-IsSettled :
    {p q : Peer} (gifts dropped throws : ℕ) (e : Event p q)
    → IsSettled gifts dropped throws p
    → IsSettled (gifts + gifts_in e) (dropped + dropped_in e) (throws + throws_in e) q
event-IsSettled {p = p} gifts dropped throws (given h l) s =
    let (force, reset, now) = wsc_init_lem h l p in
    record {
      closed_or_held = omega (arith, force, ap held now, s.closed_or_held);
      reset_or_thrown = omega (arith, force, reset, s.reset_or_thrown);
    }
event-IsSettled {p = p} gifts dropped throws (associated pointer) s =
    left-IsSettled gifts dropped throws (set_data-Leaves pointer p) s
event-IsSettled {p = p} gifts dropped throws closed s =
    left-IsSettled gifts dropped throws (wsc_close_request-Leaves p) s
event-IsSettled {p = p} gifts dropped throws (sent_text text answer) s =
    left-IsSettled gifts dropped throws (client_send_string-Leaves text answer p) s
event-IsSettled {p = p} gifts dropped throws (sent_bytes bytes answer) s =
    left-IsSettled gifts dropped throws (client_send_binary-Leaves bytes answer p) s
event-IsSettled {p = p} gifts dropped throws (destroyed thrown) s =
    let (force, reset, gone) = destroy_lem thrown p in
    record {
      closed_or_held = omega (arith, force, ap held gone, s.closed_or_held);
      reset_or_thrown = omega (arith, force, reset, s.reset_or_thrown);
    }

-- Whatever happens to a pooled WebSocket client over its lives, in any order: as many library clients were
-- given to it as it holds now, were closed by force, and lost their place in it to another one without a
-- close, which are those that it held when it was handed out; and the callbacks were reset as often as a
-- client was closed by force, but for the destructions that ended in an exception of the library.
pub lives-IsSettled :
    {gifts dropped throws : ℕ} {p : Peer}
    → Lives gifts dropped throws p
    → IsSettled gifts dropped throws p
lives-IsSettled (made pointer) = record { closed_or_held = refl; reset_or_thrown = refl }
lives-IsSettled (more {gifts = gifts} {dropped = dropped} {throws = throws} lives e) =
    event-IsSettled gifts dropped throws e (lives-IsSettled lives)
