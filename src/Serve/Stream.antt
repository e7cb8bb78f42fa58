-- ===== src/Serve/Stream.antt =====
-- moq-transport/src/serve/stream.rs: a track as one stream of groups, of which readers see the latest.
pub mod Object
pub mod Group
pub mod Order
pub mod Walk
pub mod Delivery
use linode_moq.Prelude.{ℕ, Bool, false, Option, none, some, ltb, ◌==◌, not, if◌then◌else◌}
use linode_moq.Coding.Outcome.{Outcome, ok, err, panic}
use linode_moq.Watch.Word.{wrapping_incr}
use linode_moq.Watch.State.{StateInner, lock_mut, commit, Round, returned}
use linode_moq.Watch.State.Handles.{drop_handle}
use linode_moq.Serve.Error.{ServeError, cancel, duplicate}
use linode_moq.Serve.Latest.{Latest, latest_new, latest_close, latest_end, replaced}
use linode_moq.Serve.Info.{Track, Stream, StreamGroup}
use linode_moq.Serve.Stream.Group.{
  StreamGroupWriter, StreamGroupReader, StreamGroupState, stream_group_produce, stream_group_latest,
}

abbrev pub StreamState : Type 0
StreamState = Latest StreamGroupReader

-- The state is the one that the functions take.
pub record StreamWriter : Type 0 where
  pub info : Stream

pub record StreamReader : Type 0 where
  pub info : Stream
  pub epoch : ℕ

-- `Stream::produce`
unfoldable pub stream_produce : Stream → StreamWriter × StreamReader × StateInner StreamState
unfolding latest_new
stream_produce info = (record { info = info }, record { info = info; epoch = 0 }, latest_new)

-- `latest.group_id > group_id`, where there is a latest group.
unfoldable pub is_behind : ℕ → Option StreamGroupReader → Bool
is_behind group_id none = false
is_behind group_id (some latest) = ltb group_id latest.info.group_id

-- `create`, with the address of the group's state. The reader that it drops, the former latest, comes
-- last.
unfoldable pub stream_create :
    ℕ
    → ℕ
    → StreamWriter
    → StateInner StreamState
    → Outcome ServeError StreamGroupWriter × StateInner StreamState × Option StreamGroupReader
unfolding stream_group_produce replaced is_behind
stream_create address group_id w s = elim (lock_mut s) [
  | none ↦ (err cancel, s, none)
  | some state ↦
      if is_behind group_id state.latest
      then (err duplicate, commit state s, none)
      else (let (writer, reader, _) =
            stream_group_produce address (record { stream = w.info; group_id = group_id }) in
          (ok writer, commit (replaced reader state) s, state.latest))
]

-- `latest.as_ref().map(|g| g.group_id + 1).unwrap_or_default()`
unfoldable pub next_group : Option StreamGroupReader → ℕ
next_group none = 0
next_group (some g) = wrapping_incr g.info.group_id

unfoldable pub stream_append :
    ℕ
    → StreamWriter
    → StateInner StreamState
    → Outcome ServeError StreamGroupWriter × StateInner StreamState × Option StreamGroupReader
unfolding next_group stream_create
stream_append address w s = stream_create address (next_group s.value.latest) w s

-- `close` by one of the `n` clones of the writer, which goes with it.
unfoldable pub stream_close :
    ℕ → ServeError → StateInner StreamState → Outcome ServeError (Unit {0}) × StateInner StreamState
stream_close n e s = let (result, s') = latest_close e s in (result, drop_handle n s')

-- `latest.clone().unwrap()`
unfoldable pub unwrapped : Option StreamGroupReader → Outcome ServeError (Option StreamGroupReader)
unwrapped none = panic
unwrapped (some latest) = ok (some latest)

-- A round of the loop of `next`.
unfoldable pub stream_next :
    StreamReader
    → StateInner StreamState
    → Round (Outcome ServeError (Option StreamGroupReader)) × StreamReader
unfolding unwrapped
stream_next r s =
    if not (r.epoch == s.value.epoch)
    then (returned (unwrapped s.value.latest), record r { epoch = s.value.epoch })
    else (latest_end s, r)

-- `latest`, with the states of the groups by their addresses.
unfoldable pub stream_latest :
    (ℕ → StateInner StreamGroupState) → StateInner StreamState → Option (ℕ × ℕ)
stream_latest states s = elim s.value.latest [
  | none ↦ none
  | some group ↦ some (group.info.group_id, stream_group_latest (states group.state))
]
