-- ===== src/Tests/Serve.antt =====
-- Concrete objects and subgroups, and the readers of them.
use linode_moq.Prelude.{
  ℕ, ◌+◌, ◌<◌, ◌≡◌, refl, List, [], ◌∷◌, ◌++◌, some, none, arith, length, replicate, concat, take,
  All, Any, inl, ◌==◌, if◌then◌else◌,
}
use mathlib.Core.List.{map}
use linode_moq.Coding.Outcome.{ok, err}
use linode_moq.Data.ObjectStatus.{ObjectStatus}
use linode_moq.Watch.State.{StateInner, lock_mut, state_drop}
use linode_moq.Serve.Error.{size, cancel}
use linode_moq.Serve.Log.{Log, log_read_all}
use linode_moq.Serve.Log.Reading.{finished, log_read_all-finished}
use linode_moq.Serve.Info.{Track, Subgroup, SubgroupInfo, SubgroupObject}
use linode_moq.Serve.Subgroup.Object.{
  SubgroupObjectState, subgroup_object_produce, subgroup_object_read_all, subgroup_object_drop,
}
use linode_moq.Serve.Subgroup.Object.Delivery.{writes, subgroup_object_read_all-writes}
use linode_moq.Serve.Subgroup.Group.{
  SubgroupReader, SubgroupWriter, SubgroupState, subgroup_produce, subgroup_write,
  subgroup_read_next,
}
use linode_moq.Serve.Subgroup.Group.Ids.{
  create_objects, numbered, create_objects-numbered, subgroup_write-read_next,
}
use linode_moq.Serve.Subgroup.Groups.{
  SubgroupsState, SubgroupsWriter, subgroups_produce, subgroups_create, subgroups_append,
  subgroup_info,
}
use linode_moq.Serve.Subgroup.Groups.Newest.{
  creates, IsReached, IsAt, writer_of, reader_of, creates-newest,
}
use linode_moq.Serve.Subgroup.Groups.Appending.{
  appended, subgroups_append-creates, subgroups_create_behind,
}

abbrev pub video : Track
video = record { namespace = record { fields = [] }; name = 0x76 ∷ [] }

-- A state of a log whose writer is there, and one whose writer has gone.
abbrev written_one : StateInner (Log (List ℕ))
written_one = record {
  value = record { items = (1 ∷ []) ∷ []; closed = none };
  wakers = [];
  epoch = 1;
  dropped = some tt;
  woken = [];
}

abbrev written_two : StateInner (Log (List ℕ))
written_two = record {
  value = record { items = (1 ∷ []) ∷ (2 ∷ 3 ∷ []) ∷ []; closed = none };
  wakers = [];
  epoch = 3;
  dropped = none;
  woken = [];
}

log_read_all-finished_example :
    log_read_all ((written_one ∷ []) ++ replicate 3 written_two) 0 [] ≡ some (finished written_two)
unfolding lock_mut
log_read_all-finished_example =
    log_read_all-finished (written_one ∷ []) 3 written_two
      ((refl, refl, ((2 ∷ 3 ∷ []) ∷ [], refl)), tt) refl (omega arith)

abbrev pub group_info : SubgroupInfo
group_info = record { track = video; group_id = 4; subgroup_id = 0; priority = 7 }

abbrev an_object : SubgroupObject
an_object = record { group = group_info; object_id = 0; size = 3; status = ObjectStatus.object }

abbrev two_chunks : List (List ℕ)
two_chunks = (1 ∷ []) ∷ (2 ∷ 3 ∷ []) ∷ []

subgroup_object_read_all-writes_example :
    let (w, r, s) = subgroup_object_produce 0 an_object in
    let (w', s') = writes two_chunks w s in
    subgroup_object_read_all r (
      map (λ k. (writes (take k two_chunks) w s).1) (0 ∷ 1 ∷ [])
      ++ replicate 3 (subgroup_object_drop w' s'))
    ≡ some
        (if length (concat two_chunks) == an_object.size then ok (concat two_chunks) else err size)
subgroup_object_read_all-writes_example =
    subgroup_object_read_all-writes 0 an_object two_chunks (0 ∷ 1 ∷ []) 3 (omega arith)
      (omega arith)

abbrev three_sizes : List (ℕ × ℕ)
three_sizes = (5, 10) ∷ (0, 11) ∷ (9, 12) ∷ []

create_objects-numbered_example :
    let (w, r, s) = subgroup_produce 2 group_info in
    (create_objects three_sizes w s).1.value.items ≡ numbered group_info 0 three_sizes
create_objects-numbered_example = create_objects-numbered 2 group_info three_sizes (omega arith)

abbrev group_writer : SubgroupWriter
group_writer = record { state = 2; info = group_info; next = 6 }

abbrev group_state : StateInner SubgroupState
group_state = record {
  value = record { items = []; closed = none };
  wakers = 1 ∷ [];
  epoch = 0;
  dropped = some tt;
  woken = [];
}

abbrev fresh_reader : SubgroupReader
fresh_reader = record { state = 2; info = group_info; index = 0 }

subgroup_write-read_next_example :
    let (result, w', s') = subgroup_write 3 (8 ∷ 9 ∷ []) group_writer group_state in
    (object : StateInner SubgroupObjectState) × (result ≡ ok object)
    × (subgroup_read_next (s' ∷ []) (λ o. replicate 2 object) fresh_reader
        ≡ (some (ok (some (8 ∷ 9 ∷ []))), record fresh_reader { index = 1 }))
unfolding lock_mut
subgroup_write-read_next_example =
    subgroup_write-read_next 3 2 (8 ∷ 9 ∷ []) group_writer group_state fresh_reader refl refl
      (omega arith)

-- A group, one behind it, and a second subgroup of the first.
abbrev first_group : Subgroup
first_group = record { group_id = 4; subgroup_id = 1; priority = 7 }

abbrev others : List (ℕ × Subgroup)
others =
    (1, record { group_id = 3; subgroup_id = 9; priority = 7 })
    ∷ (2, record { group_id = 4; subgroup_id = 2; priority = 7 })
    ∷ []

creates-newest_example :
    let (w, _, s) = subgroups_produce video in
    let (w', s') = creates ((0, first_group) ∷ others) w s in
    (l : SubgroupReader) × (s'.value.latest ≡ some l)
    × All (IsReached l) ((0, first_group) ∷ others)
    × Any (IsAt l) ((0, first_group) ∷ others)
    × (w'.next_group_id ≡ l.info.group_id + 1)
creates-newest_example = creates-newest video 0 first_group others (omega arith)

subgroups_append-creates_example :
    let (w, _, s) = subgroups_produce video in
    let (w', s') = creates ((0, first_group) ∷ others) w s in
    let c = subgroups_append 3 7 w' s' in
    (c.result ≡ ok (writer_of 3 (appended 7 w') w'))
    × (c.state.value.latest ≡ some (reader_of 3 (appended 7 w') w'))
    × All (λ h. h.1.group_id < w'.next_group_id) ((0, first_group) ∷ others)
subgroups_append-creates_example =
    subgroups_append-creates video 0 first_group others 3 7 (omega arith)

abbrev groups_writer : SubgroupsWriter
groups_writer = record { info = video; next = 1; next_group_id = 5; last_group_id = 4 }

abbrev group_reader : SubgroupReader
group_reader = record { state = 2; info = group_info; index = 0 }

abbrev pub groups_state : StateInner SubgroupsState
groups_state = record {
  value = record { latest = some group_reader; epoch = 1; closed = none };
  wakers = [];
  epoch = 1;
  dropped = some tt;
  woken = [];
}

abbrev old_group : Subgroup
old_group = record { group_id = 1; subgroup_id = 0; priority = 7 }

subgroups_create_behind_example :
    let c = subgroups_create 5 old_group groups_writer groups_state in
    let (writer, reader, state) = subgroup_produce 5 (subgroup_info groups_writer.info old_group) in
    (c.result ≡ ok writer)
    × (c.released ≡ reader ∷ [])
    × (c.state.value ≡ groups_state.value)
    × ((subgroup_write 6 (1 ∷ []) writer (state_drop state)).0 ≡ err cancel)
unfolding lock_mut
subgroups_create_behind_example =
    subgroups_create_behind 5 6 (1 ∷ []) old_group group_reader groups_writer groups_state refl refl
      (inl (omega arith))
