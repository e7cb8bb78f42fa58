-- ===== src/Serve/Track.antt =====
-- moq-transport/src/serve/track.rs: a track, whose writer turns into a writer of one of the modes, once.
pub mod Modes
pub mod Opening
pub mod Writers
use linode_moq.Prelude.{ℕ, Option, none, some}
use linode_moq.Coding.Outcome.{Outcome, ok, err}
use linode_moq.Watch.State.{
  StateInner, inner_new, lock_mut, commit, modified, state_drop, Round, returned, awaiting,
}
use linode_moq.Serve.Error.{ServeError, cancel, done}
use linode_moq.Serve.Info.{Track, Stream}
use linode_moq.Serve.Stream.{StreamWriter, StreamReader, StreamState, stream_produce}
use linode_moq.Serve.Subgroup.Groups.{
  SubgroupsWriter, SubgroupsReader, SubgroupsState, subgroups_produce,
}
use linode_moq.Serve.Datagrams.{DatagramsWriter, DatagramsReader, DatagramsState, datagrams_produce}
use linode_moq.Serve.Track.Modes.{TrackReaderMode, stream, subgroups, datagrams}

-- `closed` is `none` where the source has `Ok(())`.
pub record TrackState : Type 0 where
  pub mode : Option TrackReaderMode
  pub closed : Option ServeError

pub record TrackWriter : Type 0 where
  pub state : ℕ
  pub info : Track

pub record TrackReader : Type 0 where
  pub state : ℕ
  pub info : Track

-- `Track::produce`, with the address of the new state and the state itself.
unfoldable pub track_produce : ℕ → Track → TrackWriter × TrackReader × StateInner TrackState
unfolding inner_new
track_produce address info = (
  record { state = address; info = info },
  record { state = address; info = info },
  inner_new (record { mode = none; closed = none }),
)

-- The mode is set, and the writer, which the function takes, is dropped with its handle, the only one of
-- its side.
unfoldable pub set_mode :
    {W : Type 0}
    → W
    → TrackReaderMode
    → StateInner TrackState
    → Outcome ServeError W × StateInner TrackState
set_mode writer m s = elim (lock_mut s) [
  | none ↦ (err cancel, state_drop s)
  | some state ↦ (ok writer, state_drop (commit (record state { mode = some m }) s))
]

-- `stream`, with the address of the stream's state. The writer comes with that state.
unfoldable pub track_stream :
    ℕ
    → ℕ
    → TrackWriter
    → StateInner TrackState
    → Outcome ServeError (StreamWriter × StateInner StreamState) × StateInner TrackState
unfolding stream_produce set_mode
track_stream address priority w s =
    let (writer, reader, new) = stream_produce (record { track = w.info; priority = priority }) in
    set_mode (writer, new) (stream address reader) s

-- `groups`, with the address of the state of the subgroups. The writer comes with that state.
unfoldable pub track_groups :
    ℕ
    → TrackWriter
    → StateInner TrackState
    → Outcome ServeError (SubgroupsWriter × StateInner SubgroupsState) × StateInner TrackState
unfolding subgroups_produce set_mode
track_groups address w s =
    let (writer, reader, new) = subgroups_produce w.info in
    set_mode (writer, new) (subgroups address reader) s

-- `datagrams`, with the address of the state of the datagrams. The writer comes with that state.
unfoldable pub track_datagrams :
    ℕ
    → TrackWriter
    → StateInner TrackState
    → Outcome ServeError (DatagramsWriter × StateInner DatagramsState) × StateInner TrackState
unfolding datagrams_produce set_mode
track_datagrams address w s =
    let (writer, reader, new) = datagrams_produce w.info in
    set_mode (writer, new) (datagrams address reader) s

-- `close`, which takes the writer and so drops it.
unfoldable pub track_close :
    ServeError → StateInner TrackState → Outcome ServeError (Unit {0}) × StateInner TrackState
track_close e s = elim s.value.closed [
  | some before ↦ (err before, state_drop s)
  | none ↦ elim (lock_mut s) [
    | none ↦ (err cancel, state_drop s)
    | some state ↦ (ok tt, state_drop (commit (record state { closed = some e }) s))
  ]
]

-- A round of the loop of `mode`.
unfoldable pub track_mode : StateInner TrackState → Round (Outcome ServeError TrackReaderMode)
track_mode s = elim s.value.mode [
  | some m ↦ returned (ok m)
  | none ↦ elim s.value.closed [
    | some e ↦ returned (err e)
    | none ↦ elim (modified s) [ none ↦ returned (err done) | some c ↦ awaiting c ]
  ]
]

-- A round of the loop of `closed`.
unfoldable pub track_closed : StateInner TrackState → Round (Outcome ServeError (Unit {0}))
track_closed s = elim s.value.closed [
  | some e ↦ returned (err e)
  | none ↦ elim (modified s) [ none ↦ returned (ok tt) | some c ↦ awaiting c ]
]

-- `latest`, which does not know the mode yet.
unfoldable pub track_latest : TrackReader → Option (ℕ × ℕ)
track_latest r = none
