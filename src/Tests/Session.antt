-- ===== src/Tests/Session.antt =====
-- Concrete sessions: their subscriptions, and the messages that they receive.
use linode_moq.Prelude.{ℕ, ◌≡◌, ◌≢◌, refl, List, [], ◌∷◌, ◌++◌, some, none, true, arith, ◌⊎◌}
use linode_moq.Coding.Outcome.{ok, err}
use linode_moq.Data.ObjectStatus.{ObjectStatus}
use linode_moq.Data.SubgroupHeader.{SubgroupHeader}
use linode_moq.Data.Header.{Header, header_subscribe_id}
use linode_moq.Data.Datagram.{Datagram}
use linode_moq.Message.Union.{Message}
use linode_moq.Message.GroupOrder.{GroupOrder}
use linode_moq.Message.FilterType.{FilterType}
use linode_moq.Message.Subscribe.{Subscribe}
use linode_moq.Message.Sides.{subscribe_done, IsSorted, try_from-IsSorted}
use linode_moq.Watch.State.{StateInner, lock_mut}
use linode_moq.Serve.Error.{ServeError, done, duplicate, size, not_found, serve_error_code}
use linode_moq.Serve.Subgroup.Group.{SubgroupReader}
use linode_moq.Serve.Subgroup.Groups.{SubgroupsWriter}
use linode_moq.Serve.Subgroup.Groups.Newest.{writer_of}
use linode_moq.Serve.Track.Writers.{Store, TrackWriterMode}
use linode_moq.Session.Subscribe.{SubscribeRecv, subscribe_recv_subgroup, subscribe_recv_datagram}
use linode_moq.Session.Subscribe.Receiving.{
  IsDone, asked, subscribe_recv_datagram-IsDone, subscribe_recv_subgroup-duplicate,
}
use linode_moq.Session.Subscribed.{subscribed_new, serve_start, subscribed_drop}
use linode_moq.Session.Subscribed.Closing.{note_objects, subscribed_drop-note_objects}
use linode_moq.Session.Announce.{AnnounceState}
use linode_moq.Session.Publisher as Publisher
use linode_moq.Session.Publisher.Table.{find, find_namespace, same_fields}
use linode_moq.Session.Publisher.Routes.{
  routed, recv_subscribe-announced, recv_subscribe-drop_routed,
}
use linode_moq.Session.Subscriber as Subscriber
use linode_moq.Session.Subscriber.Ending.{stream_failed-ends}
use linode_moq.Tests.Serve.{video, groups_state, group_info}

abbrev a_message : Message
a_message = Message.subscribe_done (record { id = 3; code = 0; reason = []; last = some (4, 5) })

try_from-IsSorted_example : IsSorted a_message
try_from-IsSorted_example = try_from-IsSorted a_message

-- A state of any value, which nobody waits for.
abbrev still : {T : Type 0} → T → StateInner T
still v = record { value = v; wakers = []; epoch = 0; dropped = some tt; woken = [] }

abbrev a_store : Store
a_store = record {
  tracks = λ a. still (record { mode = none; closed = none });
  streams = λ a. still (record { latest = none; epoch = 0; closed = none });
  stream_writers = λ a. 0;
  subgroups_of = λ a. groups_state;
  objects_of = λ a. still (record { objects = []; epoch = 0; closed = none });
  datagrams_of = λ a. still (record { latest = none; epoch = 0; closed = none });
  next = 5;
}

abbrev a_datagram : Datagram
a_datagram = record {
  subscribe_id = 6;
  track_alias = 6;
  group_id = 1;
  object_id = 2;
  publisher_priority = 3;
  object_status = ObjectStatus.object;
  payload_len = 1;
  payload = 9 ∷ [];
}

abbrev opening : SubscribeRecv
opening = record { writer = some (TrackWriterMode.track (record { state = 0; info = video })) }

subscribe_recv_datagram-IsDone_example :
    IsDone (subscribe_recv_datagram a_datagram opening a_store).1
subscribe_recv_datagram-IsDone_example = subscribe_recv_datagram-IsDone a_datagram opening a_store

abbrev groups_writer : SubgroupsWriter
groups_writer = record { info = video; next = 1; next_group_id = 5; last_group_id = 4 }

abbrev to_groups : SubscribeRecv
to_groups = record { writer = some (TrackWriterMode.subgroups 1 groups_writer) }

abbrev group_reader : SubgroupReader
group_reader = record { state = 2; info = group_info; index = 0 }

abbrev a_header : SubgroupHeader
a_header = record {
  subscribe_id = 6;
  track_alias = 6;
  group_id = 5;
  subgroup_id = 0;
  publisher_priority = 3;
}

subscribe_recv_subgroup-duplicate_example :
    let (result, r', st') = subscribe_recv_subgroup a_header to_groups a_store in
    ((a_header.group_id ≢ group_reader.info.group_id)
        ⊎ (a_header.subgroup_id ≢ group_reader.info.subgroup_id)
      → (result ≡ ok (writer_of a_store.next (asked a_header) groups_writer))
        × ((w' : SubgroupsWriter) × (r'.writer ≡ some (TrackWriterMode.subgroups 1 w'))))
    × ((a_header.group_id ≡ group_reader.info.group_id)
          × (a_header.subgroup_id ≡ group_reader.info.subgroup_id)
        → (result ≡ err duplicate) × IsDone r')
unfolding lock_mut
subscribe_recv_subgroup-duplicate_example =
    subscribe_recv_subgroup-duplicate a_header to_groups 1 groups_writer group_reader a_store refl
      refl refl

-- The texts of errors are their codes.
abbrev text : ServeError → List ℕ
text e = serve_error_code e ∷ []

subscribed_drop-note_objects_example :
    let (w, s) = subscribed_new 3 in
    let (sent, w', s') = serve_start (record { state = 0; info = video }) w s in
    (subscribed_drop text w' (note_objects ((1, 0) ∷ (1, 1) ∷ []) s')).0
    ≡ subscribe_done (record { id = 3; code = 0; reason = text done; last = none })
subscribed_drop-note_objects_example =
    subscribed_drop-note_objects text (record { state = 0; info = video }) 3 ((1, 0) ∷ (1, 1) ∷ [])

abbrev a_subscribe : Subscribe
a_subscribe = record {
  id = 3;
  track_alias = 3;
  track_namespace = video.namespace;
  track_name = video.name;
  subscriber_priority = 127;
  group_order = GroupOrder.publisher;
  filter_type = FilterType.latest_group;
  start = none;
  end = none;
  params = record { entries = [] };
}

abbrev no_announce : AnnounceState
no_announce = record {
  subscribers = [];
  track_statuses_requested = [];
  is_ok = true;
  closed = none;
}

abbrev served : Publisher.Tables
served = record {
  announces = (video.namespace, 0) ∷ [];
  announce_states = λ a. still no_announce;
  subscribed = (1, 0) ∷ [];
  subscribed_states = λ a. still (record { max_group_id = none; closed = none });
  unknown = still [];
  outgoing = still [];
  next = 1;
}

recv_subscribe-announced_example :
    let (result, t') = Publisher.recv_subscribe text a_subscribe served in
    (result ≡ ok tt)
    × ((t'.announce_states 0).value.subscribers ≡ [] ++ (routed 3 served ∷ []))
    × (find 3 t'.subscribed ≡ some served.next)
    × (find 1 t'.subscribed ≡ find 1 served.subscribed)
    × (t'.outgoing ≡ served.outgoing)
unfolding lock_mut find find_namespace same_fields
recv_subscribe-announced_example =
    recv_subscribe-announced text a_subscribe served 0 1 refl refl refl (omega arith)

abbrev unserved : Publisher.Tables
unserved = record served { announces = [] }

recv_subscribe-drop_routed_example :
    let (result, t') = Publisher.recv_subscribe text a_subscribe unserved in
    let t'' = Publisher.drop_routed text (routed 3 unserved) t' in
    (result ≡ ok tt)
    × (find 3 t''.subscribed ≡ none)
    × (find 1 t''.subscribed ≡ find 1 unserved.subscribed)
    × (t''.outgoing.value
        ≡ []
          ++ (Message.subscribe_error (record { id = 3; alias = 0; code = 0; reason = text done })
              ∷ []))
unfolding lock_mut find find_namespace same_fields
recv_subscribe-drop_routed_example =
    recv_subscribe-drop_routed text a_subscribe unserved 1 refl refl refl refl (omega arith)

abbrev subscribing : Subscriber.Tables
subscribing = record {
  announced = [];
  announced_states = λ a. still tt;
  announced_queue = still [];
  subscribes = (6, record { recv = to_groups; state = 0 }) ∷ [];
  subscribe_states = λ a. still (record { is_ok = true; closed = none });
  subscribe_next = 7;
  store = a_store;
  outgoing = still [];
  next = 1;
}

stream_failed-ends_example :
    let (result, t') = Subscriber.stream_failed (Header.subgroup a_header) size subscribing in
    (Subscriber.open_stream (Header.subgroup a_header) t' ≡ (err not_found, t'))
    × (Subscriber.recv_datagram a_datagram t' ≡ (ok tt, t'))
    × (find 2 t'.subscribes ≡ find 2 subscribing.subscribes)
unfolding header_subscribe_id
stream_failed-ends_example =
    stream_failed-ends (Header.subgroup a_header) (Header.subgroup a_header) a_datagram size 2
      subscribing refl refl (omega arith)
