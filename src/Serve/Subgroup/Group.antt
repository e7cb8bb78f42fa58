-- ===== src/Serve/Subgroup/Group.antt =====
-- moq-transport/src/serve/subgroup.rs: a subgroup, which is a list of objects with consecutive ids.
pub mod Ids
use linode_moq.Prelude.{ℕ, List, [], ◌∷◌, Option, none, some, length, ◌==◌, Bool}
use linode_moq.Coding.Outcome.{Outcome, ok, err, panic}
use linode_moq.Data.ObjectStatus.{ObjectStatus}
use linode_moq.Watch.Word.{wrapping_incr}
use linode_moq.Watch.State.{StateInner, state_drop, Round}
use linode_moq.Serve.Error.{ServeError}
use linode_moq.Serve.Log.{
  Log, log_new, log_push, log_close, log_next, then_ok, after_round, read_found,
}
use linode_moq.Serve.Info.{Track, Subgroup, SubgroupInfo, SubgroupObject}
use linode_moq.Serve.Subgroup.Object.{
  SubgroupObjectState, SubgroupObjectWriter, SubgroupObjectReader, subgroup_object_produce,
  subgroup_object_write, subgroup_object_drop, subgroup_object_read_all,
}

-- The objects, and the reason to be closed.
abbrev pub SubgroupState : Type 0
SubgroupState = Log SubgroupObjectReader

pub record SubgroupWriter : Type 0 where
  pub state : ℕ
  pub info : SubgroupInfo
  pub next : ℕ

pub record SubgroupReader : Type 0 where
  pub state : ℕ
  pub info : SubgroupInfo
  pub index : ℕ

-- `SubgroupInfo::produce`, with the address of the new state and the state itself.
unfoldable pub subgroup_produce :
    ℕ → SubgroupInfo → SubgroupWriter × SubgroupReader × StateInner SubgroupState
unfolding log_new
subgroup_produce address info = (
  record { state = address; info = info; next = 0 },
  record { state = address; info = info; index = 0 },
  log_new,
)

-- The object that `create` adds.
unfoldable pub next_object : ℕ → SubgroupWriter → SubgroupObject
next_object size w = record {
  group = w.info;
  object_id = w.next;
  size = size;
  status = ObjectStatus.object;
}

-- `create`, with the address of the object's state. The writer of the object comes with that state.
unfoldable pub subgroup_create :
    ℕ
    → ℕ
    → SubgroupWriter
    → StateInner SubgroupState
    → Outcome ServeError (SubgroupObjectWriter × StateInner SubgroupObjectState)
      × SubgroupWriter
      × StateInner SubgroupState
unfolding subgroup_object_produce next_object
subgroup_create address size w s =
    let (writer, reader, object) = subgroup_object_produce address (next_object size w) in
    let w' = record w { next = wrapping_incr w.next } in
    let (pushed, s') = log_push reader s in (then_ok (writer, object) pushed, w', s')

-- `object.write(payload)?`, and the drop of the object's writer, which leaves the object's state.
unfoldable pub write_whole :
    List ℕ
    → Outcome ServeError (SubgroupObjectWriter × StateInner SubgroupObjectState)
    → Outcome ServeError (StateInner SubgroupObjectState)
unfolding subgroup_object_write subgroup_object_drop
write_whole payload (ok (writer, object)) =
    let (written, writer', object') = subgroup_object_write payload writer object in
    then_ok (subgroup_object_drop writer' object') written
write_whole payload (err e) = err e
write_whole payload panic = panic

-- `write`, with the address of the object's state, which comes with the `Ok`.
unfoldable pub subgroup_write :
    ℕ
    → List ℕ
    → SubgroupWriter
    → StateInner SubgroupState
    → Outcome ServeError (StateInner SubgroupObjectState)
      × SubgroupWriter
      × StateInner SubgroupState
unfolding subgroup_create write_whole
subgroup_write address payload w s =
    let (created, w', s') = subgroup_create address (length payload) w s in
    (write_whole payload created, w', s')

-- `close`, which takes the writer and so drops its handle, the only one of its side.
unfoldable pub subgroup_close :
    ServeError → StateInner SubgroupState → Outcome ServeError (Unit {0}) × StateInner SubgroupState
subgroup_close e s = let (result, s') = log_close e s in (result, state_drop s')

-- `len` and `is_empty`, of the writer and of the reader.
unfoldable pub subgroup_len : StateInner SubgroupState → ℕ
subgroup_len s = length s.value.items

unfoldable pub subgroup_is_empty : StateInner SubgroupState → Bool
unfolding subgroup_len
subgroup_is_empty s = subgroup_len s == 0

-- `objects.last().map(|o| o.object_id).unwrap_or_default()`
unfoldable pub last_object_id : List SubgroupObjectReader → ℕ
last_object_id [] = 0
last_object_id (o ∷ []) = o.info.object_id
last_object_id (o ∷ p ∷ rest) = last_object_id (p ∷ rest)

unfoldable pub subgroup_latest : StateInner SubgroupState → ℕ
unfolding last_object_id
subgroup_latest s = last_object_id s.value.items

-- A round of the loop of `next`.
unfoldable pub subgroup_next :
    SubgroupReader
    → StateInner SubgroupState
    → Round (Outcome ServeError (Option SubgroupObjectReader)) × SubgroupReader
subgroup_next r s = let (round, index) = log_next r.index s in (round, record r { index = index })

unfoldable pub subgroup_pos : SubgroupReader → ℕ
subgroup_pos r = r.index

-- `next`, on the states that it finds at its locks. `none`: it has not returned by the last of them.
unfoldable pub subgroup_wait :
    List (StateInner SubgroupState)
    → SubgroupReader
    → Option (Outcome ServeError (Option SubgroupObjectReader)) × SubgroupReader
unfolding subgroup_next
subgroup_wait [] r = (none, r)
subgroup_wait (s ∷ later) r = after_round (subgroup_wait later) (subgroup_next r s)

-- `read_next`, on the states of the subgroup and then of the object that it finds at its locks.
unfoldable pub subgroup_read_next :
    List (StateInner SubgroupState)
    → (SubgroupObjectReader → List (StateInner SubgroupObjectState))
    → SubgroupReader
    → Option (Outcome ServeError (Option (List ℕ))) × SubgroupReader
unfolding subgroup_wait subgroup_object_read_all
subgroup_read_next states object r =
    let (found, r') = subgroup_wait states r in
    (read_found (λ o. subgroup_object_read_all o (object o)) found, r')
