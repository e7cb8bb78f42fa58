-- ===== src/Serve/Stream/Object.antt =====
-- moq-transport/src/serve/stream.rs: an object of a stream's group, written in chunks whose sizes add
-- up to a size given in advance.
use linode_moq.Prelude.{ℕ, ◌-◌, List, [], Option, none, some, ltb, length, ◌==◌, if◌then◌else◌}
use linode_moq.Coding.Outcome.{Outcome, err}
use linode_moq.Watch.State.{StateInner, lock_mut, commit, state_drop, Round}
use linode_moq.Serve.Error.{ServeError, size}
use linode_moq.Serve.Log.{Log, log_new, log_push, log_close, log_next, log_read_all}
use linode_moq.Serve.Info.{StreamObject}

-- The chunks, and the reason to be closed.
abbrev pub StreamObjectState : Type 0
StreamObjectState = Log (List ℕ)

pub record StreamObjectWriter : Type 0 where
  pub state : ℕ
  pub info : StreamObject
  pub remain : ℕ

pub record StreamObjectReader : Type 0 where
  pub state : ℕ
  pub info : StreamObject
  pub index : ℕ

-- `StreamObject::produce`, with the address of the new state and the state itself.
unfoldable pub stream_object_produce :
    ℕ → StreamObject → StreamObjectWriter × StreamObjectReader × StateInner StreamObjectState
unfolding log_new
stream_object_produce address info = (
  record { state = address; info = info; remain = info.size },
  record { state = address; info = info; index = 0 },
  log_new,
)

unfoldable pub stream_object_write :
    List ℕ
    → StreamObjectWriter
    → StateInner StreamObjectState
    → Outcome ServeError (Unit {0}) × StreamObjectWriter × StateInner StreamObjectState
stream_object_write chunk w s =
    if ltb w.remain (length chunk)
    then (err size, w, s)
    else let (result, s') = log_push chunk s in
      (result, record w { remain = w.remain - length chunk }, s')

-- `Drop` of the writer, and then of its handle of the state, which is the only one of its side.
unfoldable pub stream_object_drop :
    StreamObjectWriter → StateInner StreamObjectState → StateInner StreamObjectState
stream_object_drop w s = state_drop (
    if w.remain == 0 then s else elim s.value.closed [
      | some _ ↦ s
      | none ↦ elim (lock_mut s) [
        | none ↦ s
        | some log ↦ commit (record log { closed = some size }) s
      ]
    ])

-- `close`, which takes the writer and so drops it.
unfoldable pub stream_object_close :
    ServeError
    → StreamObjectWriter
    → StateInner StreamObjectState
    → Outcome ServeError (Unit {0}) × StateInner StreamObjectState
unfolding stream_object_drop
stream_object_close e w s = let (result, s') = log_close e s in (result, stream_object_drop w s')

-- A round of the loop of `read`.
unfoldable pub stream_object_read :
    StreamObjectReader
    → StateInner StreamObjectState
    → Round (Outcome ServeError (Option (List ℕ))) × StreamObjectReader
stream_object_read r s =
    let (round, index) = log_next r.index s in (round, record r { index = index })

-- `read_all`, on the states that it finds at its locks.
unfoldable pub stream_object_read_all :
    StreamObjectReader → List (StateInner StreamObjectState) → Option (Outcome ServeError (List ℕ))
stream_object_read_all r states = log_read_all states r.index []
