-- ===== src/Serve/Subgroup/Object.antt =====
-- moq-transport/src/serve/subgroup.rs: an object of a subgroup, written in chunks whose sizes add up to
-- a size given in advance.
pub mod Delivery
use linode_moq.Prelude.{ℕ, ◌-◌, List, [], Option, none, some, ltb, length, ◌==◌, if◌then◌else◌}
use linode_moq.Coding.Outcome.{Outcome, err}
use linode_moq.Watch.State.{StateInner, lock_mut, commit, state_drop, Round}
use linode_moq.Serve.Error.{ServeError, size}
use linode_moq.Serve.Log.{Log, log_new, log_push, log_close, log_next, log_read_all}
use linode_moq.Serve.Info.{SubgroupObject}

-- The chunks, and the reason to be closed.
abbrev pub SubgroupObjectState : Type 0
SubgroupObjectState = Log (List ℕ)

pub record SubgroupObjectWriter : Type 0 where
  pub state : ℕ
  pub info : SubgroupObject
  pub remain : ℕ

pub record SubgroupObjectReader : Type 0 where
  pub state : ℕ
  pub info : SubgroupObject
  pub index : ℕ

-- `SubgroupObject::produce`, with the address of the new state and the state itself.
unfoldable pub subgroup_object_produce :
    ℕ
    → SubgroupObject
    → SubgroupObjectWriter × SubgroupObjectReader × StateInner SubgroupObjectState
unfolding log_new
subgroup_object_produce address info = (
  record { state = address; info = info; remain = info.size },
  record { state = address; info = info; index = 0 },
  log_new,
)

unfoldable pub subgroup_object_write :
    List ℕ
    → SubgroupObjectWriter
    → StateInner SubgroupObjectState
    → Outcome ServeError (Unit {0}) × SubgroupObjectWriter × StateInner SubgroupObjectState
subgroup_object_write chunk w s =
    if ltb w.remain (length chunk)
    then (err size, w, s)
    else let (result, s') = log_push chunk s in
      (result, record w { remain = w.remain - length chunk }, s')

-- `Drop` of the writer, and then of its handle of the state, which is the only one of its side.
unfoldable pub subgroup_object_drop :
    SubgroupObjectWriter → StateInner SubgroupObjectState → StateInner SubgroupObjectState
subgroup_object_drop w s = state_drop (
    if w.remain == 0
    then s
    else elim (lock_mut s) [ none ↦ s | some log ↦ commit (record log { closed = some size }) s ])

-- `close`, which takes the writer and so drops it.
unfoldable pub subgroup_object_close :
    ServeError
    → SubgroupObjectWriter
    → StateInner SubgroupObjectState
    → Outcome ServeError (Unit {0}) × StateInner SubgroupObjectState
unfolding subgroup_object_drop
subgroup_object_close e w s =
    if w.remain == 0
    then (let (result, s') = log_close e s in (result, subgroup_object_drop w s'))
    else (err size, subgroup_object_drop w s)

-- A round of the loop of `read`.
unfoldable pub subgroup_object_read :
    SubgroupObjectReader
    → StateInner SubgroupObjectState
    → Round (Outcome ServeError (Option (List ℕ))) × SubgroupObjectReader
subgroup_object_read r s =
    let (round, index) = log_next r.index s in (round, record r { index = index })

-- `read_all`, on the states that it finds at its locks.
unfoldable pub subgroup_object_read_all :
    SubgroupObjectReader
    → List (StateInner SubgroupObjectState)
    → Option (Outcome ServeError (List ℕ))
subgroup_object_read_all r states = log_read_all states r.index []
