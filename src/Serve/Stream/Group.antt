-- ===== src/Serve/Stream/Group.antt =====
-- moq-transport/src/serve/stream.rs: a group of a stream, which is a list of objects.
use linode_moq.Prelude.{ℕ, ◌+◌, List, [], ◌∷◌, Option, none, ltb, length, get_elem?, if◌then◌else◌}
use linode_moq.Coding.Outcome.{Outcome, ok, err, panic}
use linode_moq.Data.ObjectStatus.{ObjectStatus}
use linode_moq.Watch.State.{StateInner, state_drop, Round, returned}
use linode_moq.Serve.Error.{ServeError}
use linode_moq.Serve.Log.{
  Log, log_new, log_push, log_close, log_end, indexed, then_ok, after_round, read_found,
}
use linode_moq.Serve.Info.{StreamGroup, StreamObject}
use linode_moq.Serve.Stream.Object.{
  StreamObjectState, StreamObjectWriter, StreamObjectReader, stream_object_produce,
  stream_object_write, stream_object_drop, stream_object_read_all,
}

-- The objects, and the reason to be closed.
abbrev pub StreamGroupState : Type 0
StreamGroupState = Log StreamObjectReader

pub record StreamGroupWriter : Type 0 where
  pub state : ℕ
  pub info : StreamGroup
  pub next : ℕ

pub record StreamGroupReader : Type 0 where
  pub state : ℕ
  pub info : StreamGroup
  pub index : ℕ

-- `StreamGroupWriter::new` and `StreamGroupReader::new` on the two sides of a new state.
unfoldable pub stream_group_produce :
    ℕ → StreamGroup → StreamGroupWriter × StreamGroupReader × StateInner StreamGroupState
unfolding log_new
stream_group_produce address info = (
  record { state = address; info = info; next = 0 },
  record { state = address; info = info; index = 0 },
  log_new,
)

-- The object that `create` adds.
unfoldable pub stream_object_of : ℕ → StreamGroupWriter → StreamObject
stream_object_of size w = record {
  group = w.info;
  object_id = w.next;
  size = size;
  status = ObjectStatus.object;
}

-- `create`, with the address of the object's state. The writer of the object comes with that state.
-- The writer of the group stays as it is.
unfoldable pub stream_group_create :
    ℕ
    → ℕ
    → StreamGroupWriter
    → StateInner StreamGroupState
    → Outcome ServeError (StreamObjectWriter × StateInner StreamObjectState)
      × StreamGroupWriter
      × StateInner StreamGroupState
unfolding stream_object_produce stream_object_of
stream_group_create address size w s =
    let (writer, reader, object) = stream_object_produce address (stream_object_of size w) in
    let (pushed, s') = log_push reader s in (then_ok (writer, object) pushed, w, s')

-- `writer.write(payload)?`, and the drop of the object's writer, which leaves the object's state.
unfoldable pub stream_write_whole :
    List ℕ
    → Outcome ServeError (StreamObjectWriter × StateInner StreamObjectState)
    → Outcome ServeError (StateInner StreamObjectState)
unfolding stream_object_write stream_object_drop
stream_write_whole payload (ok (writer, object)) =
    let (written, writer', object') = stream_object_write payload writer object in
    then_ok (stream_object_drop writer' object') written
stream_write_whole payload (err e) = err e
stream_write_whole payload panic = panic

-- `write`, with the address of the object's state, which comes with the `Ok`.
unfoldable pub stream_group_write :
    ℕ
    → List ℕ
    → StreamGroupWriter
    → StateInner StreamGroupState
    → Outcome ServeError (StateInner StreamObjectState)
      × StreamGroupWriter
      × StateInner StreamGroupState
unfolding stream_group_create stream_write_whole
stream_group_write address payload w s =
    let (created, w', s') = stream_group_create address (length payload) w s in
    (stream_write_whole payload created, w', s')

-- `close`, which takes the writer and so drops its handle, the only one of its side.
unfoldable pub stream_group_close :
    ServeError
    → StateInner StreamGroupState
    → Outcome ServeError (Unit {0}) × StateInner StreamGroupState
stream_group_close e s = let (result, s') = log_close e s in (result, state_drop s')

-- A round of the loop of `next`, which looks the object up at the index that it has already moved.
unfoldable pub stream_group_next :
    StreamGroupReader
    → StateInner StreamGroupState
    → Round (Outcome ServeError (Option StreamObjectReader)) × StreamGroupReader
unfolding indexed log_end
stream_group_next r s =
    if ltb r.index (length s.value.items)
    then (
      returned (indexed (get_elem? s.value.items (r.index + 1))),
      record r { index = r.index + 1 },
    )
    else (log_end s, r)

-- `objects.last().map(|o| o.object_id).unwrap_or_default()`
unfoldable pub last_id : List StreamObjectReader → ℕ
last_id [] = 0
last_id (o ∷ []) = o.info.object_id
last_id (o ∷ p ∷ rest) = last_id (p ∷ rest)

unfoldable pub stream_group_latest : StateInner StreamGroupState → ℕ
unfolding last_id
stream_group_latest s = last_id s.value.items

-- `next`, on the states that it finds at its locks. `none`: it has not returned by the last of them.
unfoldable pub stream_group_wait :
    List (StateInner StreamGroupState)
    → StreamGroupReader
    → Option (Outcome ServeError (Option StreamObjectReader)) × StreamGroupReader
unfolding stream_group_next
stream_group_wait [] r = (none, r)
stream_group_wait (s ∷ later) r = after_round (stream_group_wait later) (stream_group_next r s)

-- `read_next`, on the states of the group and then of the object that it finds at its locks.
unfoldable pub stream_group_read_next :
    List (StateInner StreamGroupState)
    → (StreamObjectReader → List (StateInner StreamObjectState))
    → StreamGroupReader
    → Option (Outcome ServeError (Option (List ℕ))) × StreamGroupReader
unfolding stream_group_wait stream_object_read_all
stream_group_read_next states object r =
    let (found, r') = stream_group_wait states r in
    (read_found (λ o. stream_object_read_all o (object o)) found, r')
