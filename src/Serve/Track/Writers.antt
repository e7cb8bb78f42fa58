-- ===== src/Serve/Track/Writers.antt =====
-- moq-transport/src/serve/track.rs: the writers of a track by its mode, and the states that they write
-- to, by their addresses.
use linode_moq.Prelude.{ℕ, ◌-◌, ◌==◌, if◌then◌else◌}
use linode_moq.Coding.Outcome.{Outcome}
use linode_moq.Watch.State.{StateInner, state_drop}
use linode_moq.Watch.State.Handles.{drop_handle}
use linode_moq.Serve.Error.{ServeError}
use linode_moq.Serve.Stream.{StreamWriter, StreamState, stream_close}
use linode_moq.Serve.Subgroup.Groups.{SubgroupsWriter, SubgroupsState, subgroups_close}
use linode_moq.Serve.Objects.{ObjectsWriter, ObjectsState, objects_close}
use linode_moq.Serve.Datagrams.{DatagramsWriter, DatagramsState, datagrams_close}
use linode_moq.Serve.Track.{TrackWriter, TrackState, track_close}

pub data TrackWriterMode : Type 0 where
  track : TrackWriter → TrackWriterMode
  stream : ℕ → StreamWriter → TrackWriterMode
  subgroups : ℕ → SubgroupsWriter → TrackWriterMode
  objects : ℕ → ObjectsWriter → TrackWriterMode
  datagrams : ℕ → DatagramsWriter → TrackWriterMode

-- The states by their addresses, how many writers a stream has, and the next free address.
pub record Store : Type 0 where
  pub tracks : ℕ → StateInner TrackState
  pub streams : ℕ → StateInner StreamState
  pub stream_writers : ℕ → ℕ
  pub subgroups_of : ℕ → StateInner SubgroupsState
  pub objects_of : ℕ → StateInner ObjectsState
  pub datagrams_of : ℕ → StateInner DatagramsState
  pub next : ℕ

abbrev pub put : {A : Type 0} → (ℕ → A) → ℕ → A → ℕ → A
put f a v b = if a == b then v else f b

-- A writer goes out of scope.
unfoldable pub mode_drop : TrackWriterMode → Store → Store
mode_drop (track w) st = record st {
  tracks = put st.tracks w.state (state_drop (st.tracks w.state));
}
mode_drop (stream a w) st = record st {
  streams = put st.streams a (drop_handle (st.stream_writers a) (st.streams a));
  stream_writers = put st.stream_writers a (st.stream_writers a - 1);
}
mode_drop (subgroups a w) st = record st {
  subgroups_of = put st.subgroups_of a (state_drop (st.subgroups_of a));
}
mode_drop (objects a w) st = record st {
  objects_of = put st.objects_of a (state_drop (st.objects_of a));
}
mode_drop (datagrams a w) st = record st {
  datagrams_of = put st.datagrams_of a (state_drop (st.datagrams_of a));
}

-- `TrackWriterMode::close`
unfoldable pub track_writer_mode_close :
    ServeError → TrackWriterMode → Store → Outcome ServeError (Unit {0}) × Store
track_writer_mode_close e (track w) st =
    let (result, s) = track_close e (st.tracks w.state) in
    (result, record st { tracks = put st.tracks w.state s })
track_writer_mode_close e (stream a w) st =
    let (result, s) = stream_close (st.stream_writers a) e (st.streams a) in
    (
      result,
      record st {
        streams = put st.streams a s;
        stream_writers = put st.stream_writers a (st.stream_writers a - 1);
      },
    )
track_writer_mode_close e (subgroups a w) st =
    let (result, s) = subgroups_close e (st.subgroups_of a) in
    (result, record st { subgroups_of = put st.subgroups_of a s })
track_writer_mode_close e (objects a w) st =
    let (result, s) = objects_close e (st.objects_of a) in
    (result, record st { objects_of = put st.objects_of a s })
track_writer_mode_close e (datagrams a w) st =
    let (result, s) = datagrams_close e (st.datagrams_of a) in
    (result, record st { datagrams_of = put st.datagrams_of a s })
