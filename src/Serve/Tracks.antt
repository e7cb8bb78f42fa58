-- ===== src/Serve/Tracks.antt =====
-- moq-transport/src/serve/tracks.rs: the tracks of a namespace by their names, and the requests for
-- those that are not there yet.
pub mod Requests
use linode_moq.Prelude.{
  ℕ, List, [], ◌∷◌, Option, none, some, Bool, true, false, ◌&&◌, ◌==◌, if◌then◌else◌,
}
use linode_moq.Coding.Outcome.{Outcome, ok, err, panic}
use linode_moq.Coding.Tuple.{Tuple}
use linode_moq.Watch.State.{StateInner, inner_new, lock_mut, commit, Round, returned}
use linode_moq.Watch.Queue.{push, pop_round, close}
use linode_moq.Serve.Error.{ServeError, not_found}
use linode_moq.Serve.Info.{Track}
use linode_moq.Serve.Track.{TrackWriter, TrackReader, TrackState, track_produce, track_close}

-- `TracksWriter`, `TracksRequest` and `TracksReader` know the namespace.
pub record Tracks : Type 0 where
  pub namespace : Tuple

-- The map from names to readers, as an association list.
pub record TracksState : Type 0 where
  pub tracks : List (List ℕ × TrackReader)

-- `Tracks::produce`: the states of the tracks and of the queue of requests.
unfoldable pub tracks_new : StateInner TracksState × StateInner (List TrackWriter)
unfolding inner_new
tracks_new = (inner_new (record { tracks = [] }), inner_new [])

-- Names are equal where their bytes are.
unfoldable pub same_name : List ℕ → List ℕ → Bool
same_name [] [] = true
same_name (x ∷ xs) (y ∷ ys) = x == y && same_name xs ys
same_name _ _ = false

-- `HashMap::get`, `insert` and `remove`.
unfoldable pub lookup : List ℕ → List (List ℕ × TrackReader) → Option TrackReader
lookup name [] = none
lookup name ((n, r) ∷ rest) =
    let found = lookup name rest in if same_name n name then some r else found

unfoldable pub erase : List ℕ → List (List ℕ × TrackReader) → List (List ℕ × TrackReader)
erase name [] = []
erase name ((n, r) ∷ rest) =
    let kept = erase name rest in if same_name n name then kept else (n, r) ∷ kept

unfoldable pub insert :
    List ℕ → TrackReader → List (List ℕ × TrackReader) → List (List ℕ × TrackReader)
unfolding erase
insert name reader tracks = (name, reader) ∷ erase name tracks

-- `TracksWriter::create`, with the address of the track's state. The writer comes with that state.
unfoldable pub tracks_create :
    ℕ
    → List ℕ
    → Tracks
    → StateInner TracksState
    → Option (TrackWriter × StateInner TrackState) × StateInner TracksState
unfolding track_produce insert
tracks_create address name w s =
    let (writer, reader, new) =
      track_produce address (record { namespace = w.namespace; name = name }) in
    elim (lock_mut s) [
      | none ↦ (none, s)
      | some state ↦
          (some (writer, new), commit (record { tracks = insert name reader state.tracks }) s)
    ]

unfoldable pub tracks_remove :
    List ℕ → StateInner TracksState → Option TrackReader × StateInner TracksState
unfolding lookup erase
tracks_remove name s = elim (lock_mut s) [
  | none ↦ (none, s)
  | some state ↦ (lookup name state.tracks, commit (record { tracks = erase name state.tracks }) s)
]

-- A round of `TracksRequest::next`.
unfoldable pub tracks_request_next :
    StateInner (List TrackWriter) → Round (Option TrackWriter) × StateInner (List TrackWriter)
tracks_request_next q = pop_round q

-- `TracksRequest::drop`, where its handle of the queue is the last of `n`: the writers that are still in
-- the queue close the states of their tracks.
unfoldable pub close_tracks :
    List TrackWriter → (ℕ → StateInner TrackState) → ℕ → StateInner TrackState
close_tracks [] states = states
close_tracks (w ∷ ws) states =
    close_tracks ws (λ a. if a == w.state then (track_close not_found (states a)).1 else states a)

unfoldable pub tracks_request_drop :
    ℕ
    → StateInner (List TrackWriter)
    → (ℕ → StateInner TrackState)
    → (ℕ → StateInner TrackState) × StateInner (List TrackWriter)
unfolding close_tracks
tracks_request_drop n q states = let (writers, q') = close n q in (close_tracks writers states, q')

-- `TracksReader::subscribe`, with the address for the state of a new track. The state of the tracks is
-- locked throughout, and changed only at the end; a new track comes with its state.
unfoldable pub request :
    TrackWriter
    → TrackReader
    → TracksState
    → StateInner TracksState
    → StateInner (List TrackWriter)
    → Option TrackReader × StateInner TracksState × StateInner (List TrackWriter)
unfolding insert
request writer reader state s q =
    let (pushed, q') = push writer q in
    elim pushed [
      | ok _ ↦ (
        some reader,
        commit (record { tracks = insert reader.info.name reader state.tracks }) s,
        q',
      )
      | err _ ↦ (none, commit state s, q')
      | panic ↦ (none, commit state s, q')
    ]

unfoldable pub tracks_subscribe :
    ℕ
    → List ℕ
    → Tracks
    → StateInner TracksState
    → StateInner (List TrackWriter)
    → Option TrackReader × StateInner TracksState × StateInner (List TrackWriter)
unfolding lookup track_produce request
tracks_subscribe address name r s q = elim (lookup name s.value.tracks) [
  | some track ↦ (some track, s, q)
  | none ↦ elim (lock_mut s) [
    | none ↦ (none, s, q)
    | some state ↦
        let (writer, reader, new) =
          track_produce address (record { namespace = r.namespace; name = name }) in
        request writer reader state s q
  ]
]
