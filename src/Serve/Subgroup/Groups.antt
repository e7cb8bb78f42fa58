-- ===== src/Serve/Subgroup/Groups.antt =====
-- moq-transport/src/serve/subgroup.rs: the subgroups of a track, of which readers see the latest.
pub mod Newest
pub mod Appending
use Prim.Native.Nat.{compare, Ordering}
use linode_moq.Prelude.{ℕ, List, [], ◌∷◌, Option, none, some, ltb, ◌==◌, not, if◌then◌else◌}
use linode_moq.Coding.Outcome.{Outcome, ok, err}
use linode_moq.Watch.Word.{wrapping_incr}
use linode_moq.Watch.State.{StateInner, lock_mut, commit, state_drop, Round, returned}
use linode_moq.Serve.Error.{ServeError, cancel, duplicate}
use linode_moq.Serve.Latest.{Latest, latest_new, latest_close, latest_end, replaced}
use linode_moq.Serve.Info.{Track, Subgroup, SubgroupInfo}
use linode_moq.Serve.Subgroup.Group.{
  SubgroupWriter, SubgroupReader, SubgroupState, subgroup_produce, subgroup_latest,
}

abbrev pub SubgroupsState : Type 0
SubgroupsState = Latest SubgroupReader

-- The state is the one that the functions take.
pub record SubgroupsWriter : Type 0 where
  pub info : Track
  pub next : ℕ
  pub next_group_id : ℕ
  pub last_group_id : ℕ

pub record SubgroupsReader : Type 0 where
  pub info : Track
  pub epoch : ℕ

-- `Subgroups::produce`
unfoldable pub subgroups_produce :
    Track → SubgroupsWriter × SubgroupsReader × StateInner SubgroupsState
unfolding latest_new
subgroups_produce track = (
  record { info = track; next = 0; next_group_id = 0; last_group_id = 0 },
  record { info = track; epoch = 0 },
  latest_new,
)

unfoldable pub subgroup_info : Track → Subgroup → SubgroupInfo
subgroup_info track g = record {
  track = track;
  group_id = g.group_id;
  subgroup_id = g.subgroup_id;
  priority = g.priority;
}

-- What `create` returns, the writer and the state behind it, and the readers that it drops: one that
-- nobody will read from, or the one that was the latest.
pub record Created : Type 0 where
  pub result : Outcome ServeError SubgroupWriter
  pub writer : SubgroupsWriter
  pub state : StateInner SubgroupsState
  pub released : List SubgroupReader

-- The new subgroup becomes the latest.
unfoldable pub make_latest :
    SubgroupWriter
    → SubgroupReader
    → List SubgroupReader
    → SubgroupsState
    → SubgroupsWriter
    → StateInner SubgroupsState
    → Created
unfolding replaced
make_latest writer reader released state w s = record {
  result = ok writer;
  writer = record w {
    next = wrapping_incr reader.info.subgroup_id;
    next_group_id = wrapping_incr reader.info.group_id;
    last_group_id = reader.info.group_id;
  };
  state = commit (replaced reader state) s;
  released = released;
}

-- The comparison with the latest subgroup, with the state locked.
unfoldable pub compare_latest :
    SubgroupWriter
    → SubgroupReader
    → SubgroupReader
    → SubgroupsState
    → SubgroupsWriter
    → StateInner SubgroupsState
    → Created
unfolding make_latest
compare_latest writer reader latest state w s =
    let dropped : Created = record {
      result = ok writer;
      writer = w;
      state = commit state s;
      released = reader ∷ [];
    } in
    let newest : Created = make_latest writer reader (latest ∷ []) state w s in
    if writer.info.group_id == latest.info.group_id
    then (elim (compare writer.info.subgroup_id latest.info.subgroup_id) [
      | Ordering.lt ↦ dropped
      | Ordering.eq ↦ record dropped { result = err duplicate }
      | Ordering.gt ↦ newest
    ])
    else if ltb latest.info.group_id writer.info.group_id
    then newest
    else dropped

-- `create`, with the address of the subgroup's state.
unfoldable pub subgroups_create :
    ℕ → Subgroup → SubgroupsWriter → StateInner SubgroupsState → Created
unfolding subgroup_produce subgroup_info compare_latest make_latest
subgroups_create address g w s =
    let (writer, reader, _) = subgroup_produce address (subgroup_info w.info g) in
    elim (lock_mut s) [
      | none ↦ record { result = err cancel; writer = w; state = s; released = reader ∷ [] }
      | some state ↦ elim state.latest [
        | none ↦ make_latest writer reader [] state w s
        | some latest ↦ compare_latest writer reader latest state w s
      ]
    ]

-- `append`, where each subgroup starts a new group.
unfoldable pub subgroups_append : ℕ → ℕ → SubgroupsWriter → StateInner SubgroupsState → Created
unfolding subgroups_create
subgroups_append address priority w s =
    subgroups_create address
      (record { group_id = w.next_group_id; subgroup_id = 0; priority = priority }) w s

-- `close`, which takes the writer and so drops its handle, the only one of its side.
unfoldable pub subgroups_close :
    ServeError
    → StateInner SubgroupsState
    → Outcome ServeError (Unit {0}) × StateInner SubgroupsState
subgroups_close e s = let (result, s') = latest_close e s in (result, state_drop s')

-- A round of the loop of `next`.
unfoldable pub subgroups_next :
    SubgroupsReader
    → StateInner SubgroupsState
    → Round (Outcome ServeError (Option SubgroupReader)) × SubgroupsReader
subgroups_next r s =
    if not (r.epoch == s.value.epoch)
    then (returned (ok s.value.latest), record r { epoch = s.value.epoch })
    else (latest_end s, r)

-- `latest`, with the states of the subgroups by their addresses.
unfoldable pub subgroups_latest :
    (ℕ → StateInner SubgroupState) → StateInner SubgroupsState → Option (ℕ × ℕ)
subgroups_latest states s = elim s.value.latest [
  | none ↦ none
  | some group ↦ some (group.info.group_id, subgroup_latest (states group.state))
]
