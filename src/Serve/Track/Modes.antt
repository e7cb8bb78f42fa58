-- ===== src/Serve/Track/Modes.antt =====
-- moq-transport/src/serve/track.rs: the readers of a track by its mode, each with the address of its state.
use linode_moq.Prelude.{ℕ, Option}
use linode_moq.Watch.State.{StateInner}
use linode_moq.Serve.Stream.{StreamReader, StreamState, stream_latest}
use linode_moq.Serve.Stream.Group.{StreamGroupState}
use linode_moq.Serve.Subgroup.Group.{SubgroupState}
use linode_moq.Serve.Subgroup.Groups.{SubgroupsReader, SubgroupsState, subgroups_latest}
use linode_moq.Serve.Datagrams.{DatagramsReader, DatagramsState, datagrams_latest}

pub data TrackReaderMode : Type 0 where
  stream : ℕ → StreamReader → TrackReaderMode
  subgroups : ℕ → SubgroupsReader → TrackReaderMode
  datagrams : ℕ → DatagramsReader → TrackReaderMode

-- The states that readers look at, by their addresses.
pub record States : Type 0 where
  pub streams : ℕ → StateInner StreamState
  pub stream_groups : ℕ → StateInner StreamGroupState
  pub track_subgroups : ℕ → StateInner SubgroupsState
  pub single_subgroups : ℕ → StateInner SubgroupState
  pub track_datagrams : ℕ → StateInner DatagramsState

unfoldable pub track_reader_mode_latest : States → TrackReaderMode → Option (ℕ × ℕ)
track_reader_mode_latest states (stream a r) = stream_latest states.stream_groups (states.streams a)
track_reader_mode_latest states (subgroups a r) =
    subgroups_latest states.single_subgroups (states.track_subgroups a)
track_reader_mode_latest states (datagrams a r) = datagrams_latest (states.track_datagrams a)
