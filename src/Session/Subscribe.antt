-- ===== src/Session/Subscribe.antt =====
-- moq-transport/src/session/subscribe.rs: a subscription on the side of the subscriber, and the writer
-- of the track that its data streams and datagrams go to.
pub mod Receiving
use linode_moq.Prelude.{ℕ, ◌+◌, List, [], Option, none, some, Bool, true, false, if◌then◌else◌}
use linode_moq.Coding.Outcome.{Outcome, ok, err, panic}
use linode_moq.Data.TrackHeader.{TrackHeader}
use linode_moq.Data.SubgroupHeader.{SubgroupHeader}
use linode_moq.Data.Datagram.{Datagram}
use linode_moq.Message.GroupOrder.{GroupOrder}
use linode_moq.Message.FilterType.{FilterType}
use linode_moq.Message.SubscribePair.{latest, absolute, nowhere}
use linode_moq.Message.Subscribe.{Subscribe}
use linode_moq.Message.Unsubscribe.{Unsubscribe}
use linode_moq.Watch.State.{
  StateInner, inner_new, lock_mut, commit, modified, state_drop, Round, returned, awaiting,
}
use linode_moq.Serve.Error.{ServeError, cancel, duplicate, mode, done}
use linode_moq.Serve.Stream.{StreamWriter, StreamState}
use linode_moq.Serve.Subgroup.Group.{SubgroupWriter}
use linode_moq.Serve.Subgroup.Groups.{SubgroupsWriter, SubgroupsState, Created, subgroups_create}
use linode_moq.Serve.Datagrams.{DatagramsWriter, DatagramsState, datagrams_write}
use linode_moq.Serve.Track.{TrackWriter, track_stream, track_groups, track_datagrams}
use linode_moq.Serve.Track.Writers.{
  TrackWriterMode, track, stream, subgroups, objects, datagrams, Store, put, mode_drop,
  track_writer_mode_close,
}

-- `closed` is `none` where the source has `Ok(())`.
pub record SubscribeState : Type 0 where
  pub is_ok : Bool
  pub closed : Option ServeError

-- The state that it shares with the application is the one that the functions take.
pub record SubscribeRecv : Type 0 where
  pub writer : Option TrackWriterMode

-- `State::default()`
unfoldable pub subscribe_state_new : StateInner SubscribeState
unfolding inner_new
subscribe_state_new = inner_new (record { is_ok = false; closed = none })

-- The request that `new` sends.
unfoldable pub subscribe_request : ℕ → TrackWriter → Subscribe
subscribe_request id w = record {
  id = id;
  track_alias = id;
  track_namespace = w.info.namespace;
  track_name = w.info.name;
  subscriber_priority = 127;
  group_order = GroupOrder.publisher;
  filter_type = FilterType.latest_group;
  start = some (record { group = latest 0; object = absolute 0 });
  end = some (record { group = nowhere; object = nowhere });
  params = record { entries = [] };
}

-- `new`: the message that it sends, the receiving side, and the state that both sides share.
unfoldable pub subscribe_new :
    ℕ → TrackWriter → Subscribe × SubscribeRecv × StateInner SubscribeState
unfolding subscribe_request subscribe_state_new
subscribe_new id w = (
  subscribe_request id w,
  record { writer = some (TrackWriterMode.track w) },
  subscribe_state_new,
)

-- `Drop` of the side of the application: the message that it sends, and then the drop of its handle.
unfoldable pub subscribe_drop :
    ℕ → StateInner SubscribeState → Unsubscribe × StateInner SubscribeState
subscribe_drop id s = (record { id = id }, state_drop s)

-- A round of the loop of `closed`.
unfoldable pub subscribe_closed : StateInner SubscribeState → Round (Outcome ServeError (Unit {0}))
subscribe_closed s = elim s.value.closed [
  | some e ↦ returned (err e)
  | none ↦ elim (modified s) [ none ↦ returned (ok tt) | some c ↦ awaiting c ]
]

-- `ok`
unfoldable pub subscribe_recv_ok :
    StateInner SubscribeState → Outcome ServeError (Unit {0}) × StateInner SubscribeState
subscribe_recv_ok s = if s.value.is_ok then (err duplicate, s) else elim (lock_mut s) [
  | none ↦ (ok tt, s)
  | some state ↦ (ok tt, commit (record state { is_ok = true }) s)
]

-- `error`, behind the close of the writer. The receiving side is taken and so dropped with its handle,
-- the only one of its side.
unfoldable pub subscribe_recv_close :
    ServeError
    → StateInner SubscribeState
    → Outcome ServeError (Unit {0}) × StateInner SubscribeState
subscribe_recv_close e s = elim s.value.closed [
  | some before ↦ (err before, state_drop s)
  | none ↦ elim (lock_mut s) [
    | none ↦ (err cancel, state_drop s)
    | some state ↦ (ok tt, state_drop (commit (record state { closed = some e }) s))
  ]
]

-- `error`, where the writer was closed with a result: one that is an error is returned at once.
abbrev pub after_close :
    ServeError
    → StateInner SubscribeState
    → Outcome ServeError (Unit {0}) × Store
    → Outcome ServeError (Unit {0}) × StateInner SubscribeState × Store
after_close e s (ok _, st) = let (result, s') = subscribe_recv_close e s in (result, s', st)
after_close e s (err before, st) = (err before, state_drop s, st)
after_close e s (panic, st) = (panic, state_drop s, st)

unfoldable pub subscribe_recv_error :
    ServeError
    → SubscribeRecv
    → StateInner SubscribeState
    → Store
    → Outcome ServeError (Unit {0}) × StateInner SubscribeState × Store
unfolding subscribe_recv_close
subscribe_recv_error e r s st = elim r.writer [
  | none ↦ after_close e s (ok tt, st)
  | some w ↦ after_close e s (track_writer_mode_close e w st)
]

-- What is left of the receiving side once its writer was taken and not put back.
abbrev pub emptied : SubscribeRecv
emptied = record { writer = none }

-- The clone that `track` returns, beside the writer that is put back: two writers of one stream.
abbrev pub with_stream :
    Outcome ServeError (StreamWriter × StateInner StreamState)
    → Store
    → Outcome ServeError (ℕ × StreamWriter) × SubscribeRecv × Store
with_stream (ok (w, new)) st = (
  ok (st.next, w),
  record { writer = some (stream st.next w) },
  record st {
    streams = put st.streams st.next new;
    stream_writers = put st.stream_writers st.next 2;
    next = st.next + 1;
  },
)
with_stream (err e) st = (err e, emptied, st)
with_stream panic st = (panic, emptied, st)

-- `track`, whose writer of the stream comes with the address of its state.
unfoldable pub recv_track_mode :
    TrackHeader
    → TrackWriterMode
    → Store
    → Outcome ServeError (ℕ × StreamWriter) × SubscribeRecv × Store
recv_track_mode header (track w) st =
    let (opened, s) = track_stream st.next header.publisher_priority w (st.tracks w.state) in
    with_stream opened (record st { tracks = put st.tracks w.state s })
recv_track_mode header (stream a w) st = (err mode, emptied, mode_drop (stream a w) st)
recv_track_mode header (subgroups a w) st = (err mode, emptied, mode_drop (subgroups a w) st)
recv_track_mode header (objects a w) st = (err mode, emptied, mode_drop (objects a w) st)
recv_track_mode header (datagrams a w) st = (err mode, emptied, mode_drop (datagrams a w) st)

unfoldable pub subscribe_recv_track :
    TrackHeader
    → SubscribeRecv
    → Store
    → Outcome ServeError (ℕ × StreamWriter) × SubscribeRecv × Store
unfolding recv_track_mode
subscribe_recv_track header r st = elim r.writer [
  | none ↦ (err done, r, st)
  | some w ↦ recv_track_mode header w st
]

-- The subgroup of a header is created; where that fails the writer of the subgroups is dropped.
abbrev pub after_create :
    ℕ
    → Store
    → Outcome ServeError SubgroupWriter
    → SubgroupsWriter
    → Outcome ServeError SubgroupWriter × SubscribeRecv × Store
after_create a st (ok writer) w = (ok writer, record { writer = some (subgroups a w) }, st)
after_create a st (err e) w = (err e, emptied, mode_drop (subgroups a w) st)
after_create a st panic w = (panic, emptied, mode_drop (subgroups a w) st)

unfoldable pub create_subgroup :
    SubgroupHeader
    → ℕ
    → SubgroupsWriter
    → Store
    → Outcome ServeError SubgroupWriter × SubscribeRecv × Store
create_subgroup header a w st =
    let c : Created =
      subgroups_create st.next
        (record {
          group_id = header.group_id;
          subgroup_id = header.subgroup_id;
          priority = header.publisher_priority;
        })
        w (st.subgroups_of a) in
    after_create a (record st { subgroups_of = put st.subgroups_of a c.state; next = st.next + 1 })
      c.result c.writer

abbrev pub with_subgroups :
    SubgroupHeader
    → Outcome ServeError (SubgroupsWriter × StateInner SubgroupsState)
    → Store
    → Outcome ServeError SubgroupWriter × SubscribeRecv × Store
with_subgroups header (ok (w, new)) st =
    create_subgroup header st.next w
      (record st { subgroups_of = put st.subgroups_of st.next new; next = st.next + 1 })
with_subgroups header (err e) st = (err e, emptied, st)
with_subgroups header panic st = (panic, emptied, st)

unfoldable pub recv_subgroup_mode :
    SubgroupHeader
    → TrackWriterMode
    → Store
    → Outcome ServeError SubgroupWriter × SubscribeRecv × Store
unfolding create_subgroup
recv_subgroup_mode header (track w) st =
    let (opened, s) = track_groups st.next w (st.tracks w.state) in
    with_subgroups header opened (record st { tracks = put st.tracks w.state s })
recv_subgroup_mode header (subgroups a w) st = create_subgroup header a w st
recv_subgroup_mode header (stream a w) st = (err mode, emptied, mode_drop (stream a w) st)
recv_subgroup_mode header (objects a w) st = (err mode, emptied, mode_drop (objects a w) st)
recv_subgroup_mode header (datagrams a w) st = (err mode, emptied, mode_drop (datagrams a w) st)

unfoldable pub subscribe_recv_subgroup :
    SubgroupHeader
    → SubscribeRecv
    → Store
    → Outcome ServeError SubgroupWriter × SubscribeRecv × Store
unfolding recv_subgroup_mode
subscribe_recv_subgroup header r st = elim r.writer [
  | none ↦ (err done, r, st)
  | some w ↦ recv_subgroup_mode header w st
]

-- The datagram is written, and the writer of the datagrams goes out of scope.
unfoldable pub write_datagram :
    Datagram → ℕ → DatagramsWriter → Store → Outcome ServeError (Unit {0}) × SubscribeRecv × Store
write_datagram d a w st =
    let (result, s) =
      datagrams_write
        (record {
          group_id = d.group_id;
          object_id = d.object_id;
          priority = d.publisher_priority;
          status = d.object_status;
          payload = d.payload;
        })
        (st.datagrams_of a) in
    (
      result,
      emptied,
      mode_drop (datagrams a w) (record st { datagrams_of = put st.datagrams_of a s }),
    )

abbrev pub with_datagrams :
    Datagram
    → Outcome ServeError (DatagramsWriter × StateInner DatagramsState)
    → Store
    → Outcome ServeError (Unit {0}) × SubscribeRecv × Store
with_datagrams d (ok (w, new)) st =
    write_datagram d st.next w
      (record st { datagrams_of = put st.datagrams_of st.next new; next = st.next + 1 })
with_datagrams d (err e) st = (err e, emptied, st)
with_datagrams d panic st = (panic, emptied, st)

unfoldable pub recv_datagram_mode :
    Datagram → TrackWriterMode → Store → Outcome ServeError (Unit {0}) × SubscribeRecv × Store
unfolding write_datagram
recv_datagram_mode d (track w) st =
    let (opened, s) = track_datagrams st.next w (st.tracks w.state) in
    with_datagrams d opened (record st { tracks = put st.tracks w.state s })
recv_datagram_mode d (datagrams a w) st = write_datagram d a w st
recv_datagram_mode d (stream a w) st = (err mode, emptied, mode_drop (stream a w) st)
recv_datagram_mode d (subgroups a w) st = (err mode, emptied, mode_drop (subgroups a w) st)
recv_datagram_mode d (objects a w) st = (err mode, emptied, mode_drop (objects a w) st)

unfoldable pub subscribe_recv_datagram :
    Datagram → SubscribeRecv → Store → Outcome ServeError (Unit {0}) × SubscribeRecv × Store
unfolding recv_datagram_mode
subscribe_recv_datagram d r st = elim r.writer [
  | none ↦ (err done, r, st)
  | some w ↦ recv_datagram_mode d w st
]
