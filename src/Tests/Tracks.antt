-- ===== src/Tests/Tracks.antt =====
-- Concrete tracks, by their modes, and their streams, objects and datagrams.
use linode_moq.Prelude.{
  ℕ, ◌+◌, ◌≤◌, ◌≡◌, ◌≢◌, refl, List, [], ◌∷◌, ◌++◌, Option, some, none, arith, All, Any, ◌⊎◌,
  length, take, concat, replicate, ◌==◌, if◌then◌else◌,
}
use mathlib.Core.List.{map}
use linode_moq.Coding.Outcome.{ok, err, panic}
use linode_moq.Data.ObjectStatus.{ObjectStatus}
use linode_moq.Watch.State.{StateInner, StateChanged, lock_mut, returned, awaiting}
use linode_moq.Serve.Error.{size}
use linode_moq.Serve.Info.{Stream, StreamGroup, StreamObject, Object, Datagram}
use linode_moq.Serve.Stream.{StreamWriter, stream_produce}
use linode_moq.Serve.Stream.Order.{Call, creating, reading, stream_rounds, stream_rounds-panic}
use linode_moq.Serve.Stream.Object.{
  StreamObjectReader, stream_object_produce, stream_object_drop, stream_object_read_all,
}
use linode_moq.Serve.Stream.Group.{StreamGroupState, StreamGroupReader, stream_group_next}
use linode_moq.Serve.Stream.Walk.{head_or_panic, stream_group_next-skips}
use linode_moq.Serve.Stream.Delivery.{accepted, stream_writes, stream_object_read_all-writes}
use linode_moq.Serve.Objects.{ObjectsState, ObjectsReader, objects_produce}
use linode_moq.Serve.Objects.Chunks.{ObjectReader}
use linode_moq.Serve.Objects.Arrivals.{IsNew}
use linode_moq.Serve.Objects.Priority.{Returns, objects_next-Returns}
use linode_moq.Serve.Objects.OneGroup.{add_all, OfGroup, add_all-newest}
use linode_moq.Serve.Datagrams.{
  DatagramsReader, DatagramsState, datagrams_read, write_all, last_of, datagrams_read-write_all,
}
use linode_moq.Serve.Track.{TrackState, TrackReader, TrackWriter}
use linode_moq.Serve.Track.Modes.{TrackReaderMode, stream, datagrams}
use linode_moq.Serve.Tracks.{Tracks, TracksState, tracks_subscribe, lookup}
use linode_moq.Serve.Tracks.Requests.{Again, requested, tracks_subscribe-Again}
use linode_moq.Tests.Serve.{video}

abbrev a_stream : Stream
a_stream = record { track = video; priority = 3 }

abbrev some_calls : List Call
some_calls = reading ∷ creating 0 4 ∷ reading ∷ creating 1 2 ∷ reading ∷ []

stream_rounds-panic_example :
    let (w, r, s) = stream_produce a_stream in
    All (λ round. round ≢ returned panic) (stream_rounds some_calls w r s)
stream_rounds-panic_example = stream_rounds-panic a_stream some_calls (omega arith)

abbrev stream_writer : StreamWriter
stream_writer = record { info = a_stream }

abbrev stream_group : StreamGroup
stream_group = record { stream = a_stream; group_id = 7 }

abbrev object_at : ℕ → StreamObjectReader
object_at n = record {
  state = n;
  info = record { group = stream_group; object_id = 0; size = 1; status = ObjectStatus.object };
  index = 0;
}

abbrev stream_group_state : StateInner StreamGroupState
stream_group_state = record {
  value = record { items = object_at 4 ∷ object_at 5 ∷ []; closed = none };
  wakers = [];
  epoch = 2;
  dropped = some tt;
  woken = [];
}

abbrev stream_group_reader : StreamGroupReader
stream_group_reader = record { state = 1; info = stream_group; index = 0 }

stream_group_next-skips_example : stream_group_next stream_group_reader stream_group_state ≡ (
  returned (head_or_panic (object_at 5 ∷ [])),
  record stream_group_reader { index = stream_group_reader.index + 1 },
)
stream_group_next-skips_example =
    stream_group_next-skips stream_group_reader stream_group_state [] (object_at 5 ∷ [])
      (object_at 4) refl refl

abbrev a_stream_object : StreamObject
a_stream_object = record {
  group = stream_group;
  object_id = 0;
  size = 4;
  status = ObjectStatus.object;
}

-- The second chunk does not fit.
abbrev some_chunks : List (List ℕ)
some_chunks = (1 ∷ 2 ∷ []) ∷ (3 ∷ 4 ∷ 5 ∷ []) ∷ (6 ∷ 7 ∷ []) ∷ []

stream_object_read_all-writes_example :
    let (w, r, s) = stream_object_produce 4 a_stream_object in
    let (w', s') = stream_writes some_chunks w s in
    let taken = accepted 4 some_chunks in
    stream_object_read_all r (
      map (λ k. (stream_writes (take k some_chunks) w s).1) (0 ∷ 2 ∷ [])
      ++ replicate 4 (stream_object_drop w' s'))
    ≡ some (if length (concat taken) == 4 then ok (concat taken) else err size)
stream_object_read_all-writes_example =
    stream_object_read_all-writes 4 a_stream_object some_chunks (0 ∷ 2 ∷ []) 4 (omega arith)

abbrev pending_object : ℕ → ℕ → ObjectReader
pending_object priority id = record {
  state = id;
  info = record {
    track = video;
    group_id = 1;
    object_id = id;
    priority = priority;
    status = ObjectStatus.object;
  };
  index = 0;
}

abbrev objects_reader : ObjectsReader
objects_reader = record {
  info = video;
  epoch = 2;
  pending = pending_object 9 0 ∷ pending_object 2 1 ∷ [];
}

abbrev objects_state : StateInner ObjectsState
objects_state = record {
  value = record {
    objects = pending_object 2 1 ∷ pending_object 1 2 ∷ [];
    epoch = 2;
    closed = none;
  };
  wakers = [];
  epoch = 2;
  dropped = some tt;
  woken = [];
}

abbrev an_object : Object
an_object = record { group_id = 2; object_id = 0; priority = 1 }

abbrev more_objects : List (ℕ × Object)
more_objects =
    (1, record { group_id = 1; object_id = 5; priority = 1 })
    ∷ (2, record { group_id = 3; object_id = 0; priority = 1 })
    ∷ (3, record { group_id = 3; object_id = 1; priority = 1 })
    ∷ []

objects_next-Returns_example :
    let s' = add_all more_objects (record { track = video }) objects_state in
    (kept : List ObjectReader) × (fresh : List ObjectReader) × (s'.value.objects ≡ kept ++ fresh)
    × ((kept ≡ objects_state.value.objects) ⊎ (kept ≡ []))
    × All (IsNew (record { track = video }) more_objects) fresh
    × Returns (objects_reader.pending ++ fresh) objects_reader s'
unfolding lock_mut
objects_next-Returns_example =
    objects_next-Returns more_objects (record { track = video }) objects_reader objects_state refl
      refl (omega arith)

add_all-newest_example :
    let (w, _, s) = objects_produce video in
    (g : ℕ) × OfGroup g (add_all ((0, an_object) ∷ more_objects) w s).value.objects
    × All (λ p. p.1.group_id ≤ g) ((0, an_object) ∷ more_objects)
    × Any (λ p. p.1.group_id ≡ g) ((0, an_object) ∷ more_objects)
add_all-newest_example = add_all-newest video 0 an_object more_objects

abbrev a_datagram : ℕ → Datagram
a_datagram n = record {
  group_id = 1;
  object_id = n;
  priority = 0;
  status = ObjectStatus.object;
  payload = n ∷ [];
}

abbrev datagrams_state : StateInner DatagramsState
datagrams_state = record {
  value = record { latest = some (a_datagram 0); epoch = 1; closed = none };
  wakers = [];
  epoch = 1;
  dropped = some tt;
  woken = [];
}

abbrev datagrams_reader : DatagramsReader
datagrams_reader = record { track = video; epoch = 1 }

datagrams_read-write_all_example :
    let s' = write_all (a_datagram 1 ∷ a_datagram 2 ∷ []) datagrams_state in
    let (round, r') = datagrams_read datagrams_reader s' in
    (round ≡ returned (ok (some (last_of (a_datagram 1) (a_datagram 2 ∷ [])))))
    × ((c : StateChanged) × ((datagrams_read r' s').0 ≡ awaiting c))
unfolding lock_mut
datagrams_read-write_all_example =
    datagrams_read-write_all datagrams_reader (a_datagram 1) (a_datagram 2 ∷ []) datagrams_state
      refl refl (omega arith) (omega arith)

abbrev track_state : StateInner TrackState
track_state = record {
  value = record { mode = none; closed = none };
  wakers = 5 ∷ [];
  epoch = 0;
  dropped = some tt;
  woken = [];
}

abbrev stream_mode : TrackReaderMode
stream_mode = stream 1 (record { info = a_stream; epoch = 0 })

abbrev datagrams_mode : TrackReaderMode
datagrams_mode = datagrams 2 datagrams_reader

abbrev a_namespace : Tracks
a_namespace = record { namespace = video.namespace }

abbrev tracks_state : StateInner TracksState
tracks_state = record {
  value = record { tracks = [] };
  wakers = [];
  epoch = 0;
  dropped = some tt;
  woken = [];
}

abbrev requests : StateInner (List TrackWriter)
requests = record { value = []; wakers = []; epoch = 0; dropped = some tt; woken = [] }

tracks_subscribe-Again_example :
    let result = tracks_subscribe 8 video.name a_namespace tracks_state requests in
    Again 9 video.name a_namespace result
    × (((r : TrackReader) → none ≡ some r → result ≡ (some r, tracks_state, requests))
        × (◌≡◌ {A = Option TrackReader} none none
            → result.2.value ≡ [] ++ (requested 8 video.name a_namespace ∷ [])))
unfolding lock_mut lookup
tracks_subscribe-Again_example =
    tracks_subscribe-Again 8 9 video.name a_namespace none tracks_state requests refl refl refl
