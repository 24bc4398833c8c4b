-- ===== src/Rtc/PeerConnection/Requests.antt =====
-- The requests of a peer connection that go to the library (src/rtc-api/rtc-peer-connection.cpp):
-- local and remote descriptions, and remote candidates.
--
-- The library is two arguments: whether a request makes it throw, and its `stringToType`. A call is the
-- request that reaches the library and what becomes of an exception.
use pomelo_udp_webrtc_plugin.Base.{
  ℕ, ◌≡◌, refl, ap, ◌∙◌, Bool, true, false, Option, none, some, List, [], ◌∷◌, Bytes, if◌then◌else◌,
}
use pomelo_udp_webrtc_plugin.Rtc.Configuration.{text_or_empty}

-- The calls of `rtc::PeerConnection`
data LibraryCall : Type 0 where
  local_offer : LibraryCall
  local_description_of : ℕ → LibraryCall
  remote_description_of : Bytes → Bytes → LibraryCall
  remote_candidate_of : Bytes → Bytes → LibraryCall

-- An exception is logged by `handle_exception`, or leaves the function.
data Ending : Type 0 where
  done logged escaped : Ending

abbrev guarded : (LibraryCall → Bool) → LibraryCall → LibraryCall × Ending
guarded throws r = (r, if throws r then logged else done)

abbrev unguarded : (LibraryCall → Bool) → LibraryCall → LibraryCall × Ending
unguarded throws r = (r, if throws r then escaped else done)

-- `set_local_description`, which catches nothing
unfoldable set_local_description :
    (Bytes → ℕ) → (LibraryCall → Bool) → Option Bytes → LibraryCall × Ending
set_local_description string_to_type throws kind = elim kind [
  | none ↦ unguarded throws local_offer
  | some k ↦ unguarded throws (local_description_of (string_to_type k))
]

-- `set_remote_description`
unfoldable set_remote_description :
    (LibraryCall → Bool) → Bytes → Option Bytes → LibraryCall × Ending
set_remote_description throws sdp kind =
    guarded throws (remote_description_of sdp (text_or_empty kind))

-- `add_remote_candidate`
unfoldable add_remote_candidate : (LibraryCall → Bool) → Bytes → Option Bytes → LibraryCall × Ending
add_remote_candidate throws candidate mid =
    guarded throws (remote_candidate_of candidate (text_or_empty mid))

-- What a session asks of its connection, with the texts of the signals it received
data Asked : Type 0 where
  ask_offer : Asked
  ask_description : Bytes → Bytes → Asked
  ask_candidate : Bytes → Bytes → Asked

abbrev ask : (Bytes → ℕ) → (LibraryCall → Bool) → Asked → LibraryCall × Ending
ask string_to_type throws ask_offer = set_local_description string_to_type throws none
ask string_to_type throws (ask_description sdp kind) = set_remote_description throws sdp (some kind)
ask string_to_type throws (ask_candidate candidate mid) =
    add_remote_candidate throws candidate (some mid)

-- What is asked until an exception leaves the wrapper: the requests that reach the library, and whether
-- one left.
data Passed : Type 0 where
  passed : List LibraryCall → Bool → Passed

abbrev and_before : LibraryCall → Passed → Passed
and_before r (passed rs left) = passed (r ∷ rs) left

abbrev after : Ending → LibraryCall → Passed → Passed
after escaped r rest = passed (r ∷ []) true
after logged r rest = and_before r rest
after done r rest = and_before r rest

abbrev ask_all : (Bytes → ℕ) → (LibraryCall → Bool) → List Asked → Passed
ask_all string_to_type throws [] = passed [] false
ask_all string_to_type throws (a ∷ rest) =
    let (r, outcome) = ask string_to_type throws a in
    after outcome r (ask_all string_to_type throws rest)

-- The request that each is to become.
abbrev request_of : Asked → LibraryCall
request_of ask_offer = local_offer
request_of (ask_description sdp kind) = remote_description_of sdp kind
request_of (ask_candidate candidate mid) = remote_candidate_of candidate mid

abbrev requests_of : List Asked → List LibraryCall
requests_of [] = []
requests_of (a ∷ rest) = request_of a ∷ requests_of rest

module _ (string_to_type : Bytes → ℕ) (throws : LibraryCall → Bool) where
  and_before-caught :
      (r : LibraryCall) (b : Bool) (rest : Passed)
      → after (if b then logged else done) r rest ≡ and_before r rest
  and_before-caught r true rest = refl
  and_before-caught r false rest = refl

  after-ask :
      throws local_offer ≡ false
      → (a : Asked) (rest : Passed)
      → after (ask string_to_type throws a).1 (ask string_to_type throws a).0 rest
        ≡ and_before (request_of a) rest
  unfolding set_local_description set_remote_description add_remote_candidate
  after-ask never ask_offer rest =
      ap (λ b. after (if b then escaped else done) local_offer rest) never
  after-ask never (ask_description sdp kind) rest =
      and_before-caught (remote_description_of sdp kind) (throws (remote_description_of sdp kind))
        rest
  after-ask never (ask_candidate candidate mid) rest =
      and_before-caught (remote_candidate_of candidate mid)
        (throws (remote_candidate_of candidate mid)) rest

  -- If the library does not throw on the local offer, then all that is asked reaches it in order,
  -- whatever remote descriptions and candidates make it throw, and no exception leaves the wrapper.
  ask_all-requests_of :
      throws local_offer ≡ false
      → (asked : List Asked)
      → ask_all string_to_type throws asked ≡ passed (requests_of asked) false
  ask_all-requests_of never [] = refl
  ask_all-requests_of never (a ∷ rest) =
      after-ask never a (ask_all string_to_type throws rest)
      ∙ ap (and_before (request_of a)) (ask_all-requests_of never rest)
