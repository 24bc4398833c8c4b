-- ===== src/Rtc/PeerConnection/LocalDescription.antt =====
-- src/rtc-api/rtc-peer-connection.cpp: which local description is returned, over the lives of an object
-- that its pool hands out again and again.
use pomelo_udp_webrtc_plugin.Base.{
  ℕ, ◌≡◌, refl, sym, ap, ◌∙◌, Option, none, some, List, [], ◌∷◌, ◌++◌, Bytes, arith,
}
use pomelo_udp_webrtc_plugin.Rtc.PeerConnection.{
  Description, Callbacks, PeerConnection, constructed, init_connection, clear_local_description,
  finalize, returned, peer_connection_create, peer_connection_destroy, fetch_local_description,
  get_local_description_sdp, get_local_description_type,
}

-- The life of a connection: the library's number for it and its answers, when the text and the type of
-- the local description are asked for, one after the other.
pub record Life : Type 0 where
  pub library : ℕ
  pub answers : List (Option Description)

-- Each text is asked for just before the type, which the library answers in the same way.
abbrev pub asked : List (Option Description) → PeerConnection → PeerConnection
asked [] pc = pc
asked (a ∷ rest) pc = asked rest (get_local_description_type a (get_local_description_sdp a pc).0).0

abbrev pub texts : PeerConnection → Bytes × Bytes
texts pc = (pc.local_description_sdp, pc.local_description_type)

-- The object in a life: created, then asked.
abbrev pub lived : Callbacks → Option ℕ → Life → PeerConnection → PeerConnection
lived callbacks user_data life pc =
    asked life.answers (init_connection callbacks user_data (some life.library) pc).0

-- The object after its earlier lives, the last one first.
abbrev pub pooled : Callbacks → Option ℕ → List Life → PeerConnection
pooled callbacks user_data [] = constructed
pooled callbacks user_data (life ∷ before) =
    peer_connection_destroy (lived callbacks user_data life (pooled callbacks user_data before))

-- The first description among the answers, or the given texts.
abbrev pub first_texts : List (Option Description) → Bytes × Bytes → Bytes × Bytes
first_texts [] old = old
first_texts (none ∷ rest) old = first_texts rest old
first_texts (some d ∷ rest) old = (d.sdp, d.kind)

-- The first description of the last life that had one.
abbrev pub latest_texts : List Life → Bytes × Bytes
latest_texts [] = ([], [])
latest_texts (life ∷ before) = first_texts life.answers (latest_texts before)

fetch_local_description-cached :
    (a : Option Description) (d : Description) (pc : PeerConnection)
    → pc.local_description ≡ some d
    → fetch_local_description a pc ≡ pc
unfolding fetch_local_description
fetch_local_description-cached a d pc h = rw h refl

fetch_local_description-none :
    (pc : PeerConnection) → pc.local_description ≡ none → fetch_local_description none pc ≡ pc
unfolding fetch_local_description
fetch_local_description-none pc h =
    rw h refl ∙ ap (λ o. record pc { local_description = o }) (sym h)

fetch_local_description-some :
    (d : Description) (pc : PeerConnection)
    → pc.local_description ≡ none
    → ((fetch_local_description (some d) pc).local_description ≡ some d)
      × (texts (fetch_local_description (some d) pc) ≡ (d.sdp, d.kind))
unfolding fetch_local_description
fetch_local_description-some d pc h = rw h (refl, refl)

asked-cached :
    (rest : List (Option Description)) (d : Description) (pc : PeerConnection)
    → pc.local_description ≡ some d
    → asked rest pc ≡ pc
unfolding get_local_description_sdp get_local_description_type
asked-cached [] d pc h = refl
asked-cached (a ∷ rest) d pc h =
    let same = fetch_local_description-cached a d pc h in
    ap (λ q. asked rest (fetch_local_description a q)) same
    ∙ ap (asked rest) same
    ∙ asked-cached rest d pc h

asked-first_texts :
    (rest : List (Option Description)) (pc : PeerConnection)
    → pc.local_description ≡ none
    → texts (asked rest pc) ≡ first_texts rest (texts pc)
unfolding get_local_description_sdp get_local_description_type
asked-first_texts [] pc h = refl
asked-first_texts (none ∷ rest) pc h =
    let same : fetch_local_description none pc ≡ pc = fetch_local_description-none pc h in
    ap (λ q. texts (asked rest (fetch_local_description none q))) same
    ∙ ap (λ q. texts (asked rest q)) same
    ∙ asked-first_texts rest pc h
asked-first_texts (some d ∷ rest) pc h =
    let (cached, found) = fetch_local_description-some d pc h in
    let pc1 = fetch_local_description (some d) pc in
    ap (λ q. texts (asked rest q)) (fetch_local_description-cached (some d) d pc1 cached)
    ∙ ap texts (asked-cached rest d pc1 cached)
    ∙ found

fetch_local_description-library :
    (a : Option Description) (pc : PeerConnection)
    → (fetch_local_description a pc).library ≡ pc.library
unfolding fetch_local_description
fetch_local_description-library a pc = ground arith

asked-library :
    (rest : List (Option Description)) (pc : PeerConnection) (l : ℕ)
    → pc.library ≡ some l
    → (asked rest pc).library ≡ some l
unfolding get_local_description_sdp get_local_description_type
asked-library [] pc l h = h
asked-library (a ∷ rest) pc l h =
    let pc1 = fetch_local_description a pc in
    asked-library rest (fetch_local_description a pc1) l
      (fetch_local_description-library a pc1 ∙ fetch_local_description-library a pc ∙ h)

finalize_lem :
    (pc : PeerConnection) (l : ℕ)
    → pc.library ≡ some l
    → ((peer_connection_destroy pc).local_description ≡ none)
      × (texts (peer_connection_destroy pc) ≡ texts pc)
unfolding peer_connection_destroy finalize clear_local_description
finalize_lem pc l h = rw h (refl, refl)

fetch_local_description-twice :
    (a : Option Description) (pc : PeerConnection)
    → texts (fetch_local_description a (fetch_local_description a pc))
      ≡ texts (fetch_local_description a pc)
unfolding fetch_local_description
fetch_local_description-twice a pc = ground arith

-- The two questions about the last answer, each for itself, and one after the other.
asked_once :
    (answers : List (Option Description)) (a : Option Description) (pc : PeerConnection)
    → (
      (get_local_description_sdp a (asked answers pc)).1,
      (get_local_description_type a (asked answers pc)).1,
    )
      ≡ texts (asked (answers ++ a ∷ []) pc)
unfolding get_local_description_sdp get_local_description_type
asked_once [] a pc = sym (fetch_local_description-twice a pc)
asked_once (b ∷ rest) a pc =
    asked_once rest a (fetch_local_description b (fetch_local_description b pc))

-- A finalized object keeps its texts, and has no local description.
pooled_lem :
    (callbacks : Callbacks) (user_data : Option ℕ) (lives : List Life)
    → ((pooled callbacks user_data lives).local_description ≡ none)
      × (texts (pooled callbacks user_data lives) ≡ latest_texts lives)
unfolding init_connection
pooled_lem callbacks user_data [] = (refl, refl)
pooled_lem callbacks user_data (life ∷ before) =
    let (none_yet, old) = pooled_lem callbacks user_data before in
    let pc =
      (init_connection callbacks user_data (some life.library)
        (pooled callbacks user_data before)).0 in
    let shown = asked-first_texts life.answers pc none_yet in
    let linked = asked-library life.answers pc life.library refl in
    let (gone, kept) = finalize_lem (asked life.answers pc) life.library linked in
    (gone, kept ∙ shown ∙ ap (first_texts life.answers) old)

-- An object of the pool, with whatever lives before, of which every one had a connection of the
-- library: in its next life, after some answers of the library about its local description, the texts
-- that are returned for the next answer are those of the first description that the library has
-- answered in this life (later ones are not seen); and where it has answered none yet, they are those
-- that were found last in an earlier life, of another connection.
pub get_local_description-first_texts :
    (callbacks : Callbacks) (user_data : Option ℕ) (lives : List Life) (library : ℕ)
    (answers : List (Option Description)) (a : Option Description)
    → (pc : PeerConnection) × (peer_connection_create callbacks user_data
          (some (pooled callbacks user_data lives))
          (some library)
        ≡ returned pc)
      × ((
        (get_local_description_sdp a (asked answers pc)).1,
        (get_local_description_type a (asked answers pc)).1,
      )
          ≡ first_texts (answers ++ a ∷ []) (latest_texts lives))
unfolding peer_connection_create init_connection
get_local_description-first_texts callbacks user_data lives library answers a =
    let (none_yet, old) = pooled_lem callbacks user_data lives in
    let pc =
      (init_connection callbacks user_data (some library) (pooled callbacks user_data lives)).0 in
    (
      pc,
      refl,
      asked_once answers a pc
          ∙ asked-first_texts (answers ++ a ∷ []) pc none_yet
          ∙ ap (first_texts (answers ++ a ∷ [])) old,
    )
