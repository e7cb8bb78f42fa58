-- ===== src/Serve/Objects.antt =====
-- moq-transport/src/serve/object.rs: the objects of a track, of which those of the latest group are
-- kept, and which readers get by their priority.
pub mod Chunks
pub mod Priority
pub mod OneGroup
pub mod Arrivals
use Prim.Native.Nat.{compare, Ordering}
use linode_moq.Prelude.{
  ℕ, Bool, true, false, ◌-◌, List, [], ◌∷◌, ◌++◌, Option, none, some, ltb, length, drop,
  if◌then◌else◌,
}
use linode_moq.Coding.Outcome.{Outcome, ok, err, panic}
use linode_moq.Data.ObjectStatus.{ObjectStatus}
use linode_moq.Watch.Word.{wrapping_incr}
use linode_moq.Watch.State.{
  StateInner, inner_new, lock_mut, commit, modified, state_drop, Round, returned, awaiting,
}
use linode_moq.Serve.Error.{ServeError, cancel}
use linode_moq.Serve.Log.{then_ok}
use linode_moq.Serve.Info.{Track, Object, ObjectInfo}
use linode_moq.Serve.Objects.Chunks.{
  ObjectWriter, ObjectReader, ObjectState, object_produce, object_write, object_cmp,
}

-- `closed` is `none` where the source has `Ok(())`.
pub record ObjectsState : Type 0 where
  pub objects : List ObjectReader
  pub epoch : ℕ
  pub closed : Option ServeError

-- The state is the one that the functions take.
pub record ObjectsWriter : Type 0 where
  pub track : Track

-- The heap is the list of what it holds.
pub record ObjectsReader : Type 0 where
  pub info : Track
  pub epoch : ℕ
  pub pending : List ObjectReader

-- `Objects::produce`
unfoldable pub objects_produce : Track → ObjectsWriter × ObjectsReader × StateInner ObjectsState
unfolding inner_new
objects_produce track = (
  record { track = track },
  record { info = track; epoch = 0; pending = [] },
  inner_new (record { objects = []; epoch = 0; closed = none }),
)

unfoldable pub object_info : Track → Object → ObjectInfo
object_info track o = record {
  track = track;
  group_id = o.group_id;
  object_id = o.object_id;
  priority = o.priority;
  status = ObjectStatus.object;
}

-- What a new object does to the state: none where its group is older than that of the objects held. It
-- comes with the readers that are dropped.
unfoldable pub add_object : ObjectReader → ObjectsState → Option ObjectsState × List ObjectReader
add_object reader state = elim state.objects [
  | [] ↦ (some (record state { objects = reader ∷ []; epoch = wrapping_incr state.epoch }), [])
  | first ∷ rest ↦ elim (compare reader.info.group_id first.info.group_id) [
    | Ordering.lt ↦ (none, reader ∷ [])
    | Ordering.eq ↦ (
      some (record state {
        objects = first ∷ (rest ++ (reader ∷ []));
        epoch = wrapping_incr state.epoch;
      }),
      [],
    )
    | Ordering.gt ↦ (
      some (record state { objects = reader ∷ []; epoch = wrapping_incr state.epoch }),
      first ∷ rest,
    )
  ]
]

-- The state that a lock leaves behind, changed or not.
abbrev pub or_same : ObjectsState → Option ObjectsState → ObjectsState
or_same state none = state
or_same state (some state') = state'

-- `create`, with the address of the new object's state. The readers that it drops come last.
unfoldable pub objects_create :
    ℕ
    → Object
    → ObjectsWriter
    → StateInner ObjectsState
    → Outcome ServeError ObjectWriter × StateInner ObjectsState × List ObjectReader
unfolding object_produce object_info add_object
objects_create address o w s =
    let (writer, reader, object) = object_produce address (object_info w.track o) in
    elim (lock_mut s) [
      | none ↦ (err cancel, s, reader ∷ [])
      | some state ↦
          let (added, released) = add_object reader state in
          (ok writer, commit (or_same state added) s, released)
    ]

-- `self.create(object)?`, `writer.write(payload)?` on the new state of the object, and the drop of the
-- writer's handle, which leaves that state.
unfoldable pub object_write_whole :
    List ℕ
    → StateInner ObjectState
    → Outcome ServeError ObjectWriter
    → Outcome ServeError (StateInner ObjectState)
unfolding object_write
object_write_whole payload object (ok writer) =
    let (written, object') = object_write payload object in then_ok (state_drop object') written
object_write_whole payload object (err e) = err e
object_write_whole payload object panic = panic

-- `write`, with the address of the object's state, which comes with the `Ok`. The readers that it drops
-- come last.
unfoldable pub objects_write :
    ℕ
    → Object
    → List ℕ
    → ObjectsWriter
    → StateInner ObjectsState
    → Outcome ServeError (StateInner ObjectState) × StateInner ObjectsState × List ObjectReader
unfolding objects_create object_produce object_write_whole
objects_write address o payload w s =
    let (created, s', released) = objects_create address o w s in
    let (_, _, object) = object_produce address (object_info w.track o) in
    (object_write_whole payload object created, s', released)

-- `close`, which takes the writer and so drops its handle, the only one of its side.
unfoldable pub objects_close :
    ServeError → StateInner ObjectsState → Outcome ServeError (Unit {0}) × StateInner ObjectsState
objects_close e s = elim s.value.closed [
  | some before ↦ (err before, state_drop s)
  | none ↦ elim (lock_mut s) [
    | none ↦ (err cancel, state_drop s)
    | some state ↦ (ok tt, state_drop (commit (record state { closed = some e }) s))
  ]
]

-- The objects of the current group that a reader has not taken: `&objects[index..]`.
unfoldable pub new_objects : ℕ → ObjectsState → List ObjectReader
new_objects epoch state = drop (length state.objects - (state.epoch - epoch)) state.objects

unfoldable pub is_greater : ObjectReader → ObjectReader → Bool
unfolding object_cmp
is_greater a b = elim (object_cmp a b) [ Ordering.gt ↦ true | _ ↦ false ]

-- `BinaryHeap::pop`: a greatest element and the others. Which one of several equal ones comes first is
-- not specified there; here it is the one that was pushed first.
unfoldable pub heap_pop : List ObjectReader → Option (ObjectReader × List ObjectReader)
heap_pop [] = none
heap_pop (x ∷ xs) = elim (heap_pop xs) [
  | none ↦ some (x, [])
  | some (m, rest) ↦ if is_greater m x then some (m, x ∷ rest) else some (x, m ∷ rest)
]

-- The reader that has taken the new objects.
unfoldable pub gathered : ObjectsReader → ObjectsState → ObjectsReader
unfolding new_objects
gathered r state =
    if ltb r.epoch state.epoch
    then record r { epoch = state.epoch; pending = r.pending ++ new_objects r.epoch state }
    else r

-- A round of the loop of `next`.
unfoldable pub objects_next :
    ObjectsReader
    → StateInner ObjectsState
    → Round (Outcome ServeError (Option ObjectReader)) × ObjectsReader
unfolding gathered heap_pop
objects_next r s =
    let r' = gathered r s.value in
    elim (heap_pop r'.pending) [
      | some (object, rest) ↦ (returned (ok (some object)), record r' { pending = rest })
      | none ↦ elim s.value.closed [
        | some e ↦ (returned (err e), r')
        | none ↦ elim (modified s) [ none ↦ (returned (ok none), r') | some c ↦ (awaiting c, r') ]
      ]
    ]

-- `max_by_key`, which keeps the last of several greatest.
unfoldable pub max_ids : ℕ × ℕ → List ObjectReader → ℕ × ℕ
max_ids (g, o) [] = (g, o)
max_ids (g, o) (r ∷ rs) =
    max_ids
      (if ltb r.info.group_id g
        then (g, o)
        else (if ltb g r.info.group_id
            then (r.info.group_id, r.info.object_id)
            else (if ltb r.info.object_id o then (g, o) else (r.info.group_id, r.info.object_id))))
      rs

unfoldable pub objects_latest : StateInner ObjectsState → Option (ℕ × ℕ)
unfolding max_ids
objects_latest s = elim s.value.objects [
  | [] ↦ none
  | r ∷ rs ↦ some (max_ids (r.info.group_id, r.info.object_id) rs)
]
