-- ===== src/Serve/Tracks/Requests.antt =====
-- moq-transport/src/serve/tracks.rs: a track is requested once, whoever subscribes to it.
use linode_moq.Prelude.{
  ℕ, ◌≡◌, ◌≢◌, refl, sym, ap, ◌∙◌, List, [], ◌∷◌, ◌++◌, Option, none, some, arith, true, Bool-cases,
  inl, inr, subst,
}
use linode_moq.Watch.State.{StateInner, lock_mut, commit, notify}
use linode_moq.Watch.Queue.{push}
use linode_moq.Serve.Track.{TrackWriter, TrackReader, track_produce}
use linode_moq.Serve.Tracks.{
  Tracks, TracksState, same_name, lookup, erase, insert, request, tracks_subscribe, tracks_create,
  tracks_remove,
}

pub same_name_refl : (name : List ℕ) → same_name name name ≡ true
unfolding same_name
same_name_refl [] = refl
same_name_refl (x ∷ xs) = let ih = same_name_refl xs in ground arith

same_name-eq : (a b : List ℕ) → same_name a b ≡ true → a ≡ b
unfolding same_name
same_name-eq [] [] h = refl
same_name-eq (x ∷ xs) [] h = cc
same_name-eq [] (y ∷ ys) h = cc
same_name-eq (x ∷ xs) (y ∷ ys) h = let ih = same_name-eq xs ys in ground arith

pub lookup-insert :
    (name : List ℕ) (r : TrackReader) (tracks : List (List ℕ × TrackReader))
    → lookup name (insert name r tracks) ≡ some r
unfolding lookup insert
lookup-insert name r tracks = let e = same_name_refl name in ground arith

lookup-erase_other :
    (name other : List ℕ) (tracks : List (List ℕ × TrackReader))
    → name ≢ other
    → lookup other (erase name tracks) ≡ lookup other tracks
unfolding lookup erase
lookup-erase_other name other [] ne = refl
lookup-erase_other name other ((n, r) ∷ rest) ne =
    let ih = lookup-erase_other name other rest ne in
    elim (Bool-cases (same_name n name)) [
      | inl same ↦ elim (Bool-cases (same_name n other)) [
        | inl too ↦ absurd (ne (sym (same_name-eq n name same) ∙ same_name-eq n other too))
        | inr not_other ↦ ground arith
      ]
      | inr not_same ↦ ground arith
    ]

pub lookup-erase :
    (name : List ℕ) (tracks : List (List ℕ × TrackReader)) → lookup name (erase name tracks) ≡ none
unfolding lookup erase
lookup-erase name [] = refl
lookup-erase name ((n, r) ∷ rest) = let ih = lookup-erase name rest in ground arith

-- The two ends of a new track of a name.
abbrev pub requested : ℕ → List ℕ → Tracks → TrackWriter
requested address name t = record {
  state = address;
  info = record { namespace = t.namespace; name = name };
}

abbrev pub reader_of : ℕ → List ℕ → Tracks → TrackReader
reader_of address name t = record {
  state = address;
  info = record { namespace = t.namespace; name = name };
}

subscribe-known :
    (address : ℕ) (name : List ℕ) (t : Tracks) (r : TrackReader) (s : StateInner TracksState)
    (q : StateInner (List TrackWriter))
    → lookup name s.value.tracks ≡ some r
    → tracks_subscribe address name t s q ≡ (some r, s, q)
unfolding tracks_subscribe
subscribe-known address name t r s q e = rw (tracks_subscribe, e) refl

subscribe-new :
    (address : ℕ) (name : List ℕ) (t : Tracks) (s : StateInner TracksState)
    (q : StateInner (List TrackWriter))
    → lock_mut s ≡ some s.value
    → lock_mut q ≡ some q.value
    → lookup name s.value.tracks ≡ none
    → tracks_subscribe address name t s q ≡ (
      some (reader_of address name t),
      commit (record { tracks = insert name (reader_of address name t) s.value.tracks }) s,
      commit (q.value ++ (requested address name t ∷ [])) q,
    )
unfolding tracks_subscribe request push track_produce
subscribe-new address name t s q live queue e = ground arith

-- A subscription that succeeded, and what a second one to the same name comes to.
abbrev pub Again :
    ℕ
    → List ℕ
    → Tracks
    → Option TrackReader × StateInner TracksState × StateInner (List TrackWriter)
    → Type 0
Again second name t (first, s, q) =
    (r : TrackReader) × (first ≡ some r) × (tracks_subscribe second name t s q ≡ (some r, s, q))

Again-new :
    (second address : ℕ) (name : List ℕ) (t : Tracks) (s : StateInner TracksState)
    (q : StateInner (List TrackWriter))
    → Again second name t (
      some (reader_of address name t),
      commit (record { tracks = insert name (reader_of address name t) s.value.tracks }) s,
      q,
    )
unfolding commit notify
Again-new second address name t s q = (
  reader_of address name t,
  refl,
  subscribe-known second name t (reader_of address name t) _ q
      (lookup-insert name (reader_of address name t) s.value.tracks),
)

-- While the writer of the tracks is there and takes requests, a subscription succeeds. To a track that
-- is there it gives the reader of it, and requests nothing; otherwise the request for the track is the
-- only one that is added to the queue, at its end. A second subscription to the same name gets the same
-- reader and changes nothing.
pub tracks_subscribe-Again :
    (address second : ℕ) (name : List ℕ) (t : Tracks) (known : Option TrackReader)
    (s : StateInner TracksState) (q : StateInner (List TrackWriter))
    → lock_mut s ≡ some s.value
    → lock_mut q ≡ some q.value
    → lookup name s.value.tracks ≡ known
    → let result = tracks_subscribe address name t s q in
      Again second name t result
      × (((r : TrackReader) → known ≡ some r → result ≡ (some r, s, q))
          × (known ≡ none → result.2.value ≡ q.value ++ (requested address name t ∷ [])))
unfolding commit notify
tracks_subscribe-Again address second name t none s q live queue e =
    let new = subscribe-new address name t s q live queue e in
    (
      subst (Again second name t) (sym new) (Again-new second address name t s _),
      (λ r p. absurd (cc), λ p. ap (λ x. x.2.value) new),
    )
tracks_subscribe-Again address second name t (some r) s q live queue e =
    let old = subscribe-known address name t r s q e in
    (
      subst (Again second name t) (sym old) (r, refl, subscribe-known second name t r s q e),
      (
        λ r' p. subst (λ x. tracks_subscribe address name t s q ≡ (x, s, q)) p old,
        λ p. absurd (cc),
      ),
    )

lookup-insert_other :
    (name other : List ℕ) (r : TrackReader) (tracks : List (List ℕ × TrackReader))
    → name ≢ other
    → lookup other (insert name r tracks) ≡ lookup other tracks
unfolding lookup insert
lookup-insert_other name other r tracks ne =
    let kept = lookup-erase_other name other tracks ne in
    elim (Bool-cases (same_name name other)) [
      | inl same ↦ absurd (ne (same_name-eq name other same))
      | inr different ↦ ground arith
    ]

create-live :
    (address : ℕ) (name : List ℕ) (t : Tracks) (s : StateInner TracksState)
    → lock_mut s ≡ some s.value
    → let (created, s') = tracks_create address name t s in
      (lock_mut s' ≡ some s'.value)
      × (s'.value.tracks ≡ insert name (reader_of address name t) s.value.tracks)
unfolding tracks_create commit notify lock_mut track_produce
create-live address name t s live = ground arith

remove-live :
    (name : List ℕ) (s : StateInner TracksState)
    → lock_mut s ≡ some s.value
    → let (removed, s') = tracks_remove name s in
      (removed ≡ lookup name s.value.tracks) × (s'.value.tracks ≡ erase name s.value.tracks)
unfolding tracks_remove commit notify lock_mut
remove-live name s live = ground arith

-- On a live state of tracks, the track that `create` adds is the one that a later subscription to its
-- name gets, in the place of any other of that name, and `remove` takes it out again: then no track of
-- the name is there. Tracks of other names are left as they are.
pub tracks_create-remove :
    (address : ℕ) (name other : List ℕ) (t : Tracks) (s : StateInner TracksState)
    → lock_mut s ≡ some s.value
    → name ≢ other
    → let (created, s') = tracks_create address name t s in
      let (removed, s'') = tracks_remove name s' in
      (lookup name s'.value.tracks ≡ some (reader_of address name t))
      × (lookup other s'.value.tracks ≡ lookup other s.value.tracks)
      × (removed ≡ some (reader_of address name t))
      × (lookup name s''.value.tracks ≡ none)
      × (lookup other s''.value.tracks ≡ lookup other s.value.tracks)
tracks_create-remove address name other t s live ne =
    let r = reader_of address name t in
    let s' : StateInner TracksState = (tracks_create address name t s).1 in
    let (live', e) = create-live address name t s live in
    let (got, e') = remove-live name s' live' in
    let own : lookup name s'.value.tracks ≡ some r =
      ap (lookup name) e ∙ lookup-insert name r s.value.tracks in
    let others : lookup other s'.value.tracks ≡ lookup other s.value.tracks =
      ap (lookup other) e ∙ lookup-insert_other name other r s.value.tracks ne in
    (
      own,
      others,
      got ∙ own,
      ap (lookup name) e' ∙ lookup-erase name s'.value.tracks,
      ap (lookup other) e' ∙ lookup-erase_other name other s'.value.tracks ne ∙ others,
    )
