-- ===== src/Serve/Objects/Chunks.antt =====
-- moq-transport/src/serve/object.rs: an object of a track, written in chunks of any size.
use Prim.Native.Nat.{compare, Ordering}
use linode_moq.Prelude.{ℕ, List, [], Option}
use linode_moq.Coding.Outcome.{Outcome}
use linode_moq.Watch.State.{StateInner, state_drop, Round}
use linode_moq.Serve.Error.{ServeError}
use linode_moq.Serve.Log.{Log, log_new, log_push, log_close, log_next, log_read_all}
use linode_moq.Serve.Info.{ObjectInfo}

-- The chunks, and the reason to be closed.
abbrev pub ObjectState : Type 0
ObjectState = Log (List ℕ)

pub record ObjectWriter : Type 0 where
  pub state : ℕ
  pub info : ObjectInfo

pub record ObjectReader : Type 0 where
  pub state : ℕ
  pub info : ObjectInfo
  pub index : ℕ

-- `ObjectInfo::produce`, with the address of the new state and the state itself.
unfoldable pub object_produce :
    ℕ → ObjectInfo → ObjectWriter × ObjectReader × StateInner ObjectState
unfolding log_new
object_produce address info = (
  record { state = address; info = info },
  record { state = address; info = info; index = 0 },
  log_new,
)

unfoldable pub object_write :
    List ℕ → StateInner ObjectState → Outcome ServeError (Unit {0}) × StateInner ObjectState
object_write chunk s = log_push chunk s

-- `close`, which takes the writer and so drops its handle, the only one of its side.
unfoldable pub object_close :
    ServeError → StateInner ObjectState → Outcome ServeError (Unit {0}) × StateInner ObjectState
object_close e s = let (result, s') = log_close e s in (result, state_drop s')

-- A round of the loop of `read`.
unfoldable pub object_read :
    ObjectReader
    → StateInner ObjectState
    → Round (Outcome ServeError (Option (List ℕ))) × ObjectReader
object_read r s = let (round, index) = log_next r.index s in (round, record r { index = index })

-- `read_all`, on the states that it finds at its locks.
unfoldable pub object_read_all :
    ObjectReader → List (StateInner ObjectState) → Option (Outcome ServeError (List ℕ))
object_read_all r states = log_read_all states r.index []

-- `then_with`
abbrev pub then_with : Ordering → Ordering → Ordering
then_with Ordering.lt o = Ordering.lt
then_with Ordering.eq o = o
then_with Ordering.gt o = Ordering.gt

-- `Ord::cmp`
unfoldable pub object_cmp : ObjectReader → ObjectReader → Ordering
object_cmp a b =
    then_with
      (then_with (compare b.info.priority a.info.priority)
        (compare a.info.group_id b.info.group_id))
      (compare b.info.object_id a.info.object_id)
