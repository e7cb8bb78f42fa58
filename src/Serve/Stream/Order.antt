-- ===== src/Serve/Stream/Order.antt =====
-- moq-transport/src/serve/stream.rs: which groups a stream takes, and which of them readers get.
use linode_moq.Prelude.{
  ℕ, ◌+◌, ◌<◌, ◌≤◌, ◌≡◌, ◌≢◌, refl, List, [], ◌∷◌, Option, false, some, none, arith, All, length,
}
use linode_moq.Coding.Outcome.{Outcome, ok, err, panic}
use linode_moq.Watch.State.{
  StateInner, inner_new, lock_mut, commit, notify, modified, Round, returned,
}
use linode_moq.Serve.Error.{ServeError, duplicate}
use linode_moq.Serve.Latest.{latest_new, latest_end, replaced}
use linode_moq.Serve.Info.{Stream}
use linode_moq.Serve.Stream.{
  StreamState, StreamWriter, StreamReader, stream_produce, stream_create, stream_append,
  stream_next, next_group, unwrapped, is_behind,
}
use linode_moq.Serve.Stream.Group.{StreamGroupWriter, StreamGroupReader, stream_group_produce}

-- The reader of a new group.
abbrev pub reader_of : ℕ → ℕ → StreamWriter → StreamGroupReader
reader_of address group_id w = record {
  state = address;
  info = record { stream = w.info; group_id = group_id };
  index = 0;
}

abbrev pub writer_of : ℕ → ℕ → StreamWriter → StreamGroupWriter
writer_of address group_id w = record {
  state = address;
  info = record { stream = w.info; group_id = group_id };
  next = 0;
}

-- A live stream refuses a group whose id is less than that of its latest group, and keeps its latest
-- group. It takes any other group, which becomes the latest: one with the id of the latest as well.
pub stream_create_lem :
    (address group_id : ℕ) (w : StreamWriter) (l : StreamGroupReader) (s : StateInner StreamState)
    → lock_mut s ≡ some s.value
    → s.value.latest ≡ some l
    → let (result, s', released) = stream_create address group_id w s in
      (group_id < l.info.group_id → (result ≡ err duplicate) × (s'.value ≡ s.value))
      × (l.info.group_id ≤ group_id
          → (result ≡ ok (writer_of address group_id w))
            × (s'.value.latest ≡ some (reader_of address group_id w))
            × (released ≡ some l))
unfolding stream_create stream_group_produce replaced is_behind commit notify
stream_create_lem address group_id w l s live e = ground arith

-- A group id can be used twice: a stream that has taken a group takes another one with the same id, and
-- readers find the second in the place of the first.
pub stream_create-twice :
    (first second group_id : ℕ) (w : StreamWriter) (s : StateInner StreamState)
    → lock_mut s ≡ some s.value
    → is_behind group_id s.value.latest ≡ false
    → let (result, s', released) = stream_create first group_id w s in
      let (result', s'', released') = stream_create second group_id w s' in
      (result ≡ ok (writer_of first group_id w))
      × (result' ≡ ok (writer_of second group_id w))
      × (s''.value.latest ≡ some (reader_of second group_id w))
unfolding stream_create stream_group_produce replaced is_behind commit notify lock_mut
stream_create-twice first second group_id w s live free = ground arith

-- The latest group, where there is one, has an id below the greatest number.
abbrev pub HasNext : Option StreamGroupReader → Type 0
HasNext none = Unit
HasNext (some l) = l.info.group_id + 1 < 18446744073709551616

-- The id is above that of the latest group, or 0 where there is none.
abbrev pub IsNext : Option StreamGroupReader → ℕ → Type 0
IsNext none id = id ≡ 0
IsNext (some l) id = l.info.group_id < id

-- On a live stream `append` always succeeds, with a group id above that of the latest group, or 0 where
-- there is none yet, and the new group becomes the latest. The id of the latest group is not the
-- greatest number of 64 bits.
pub stream_append_lem :
    (address : ℕ) (w : StreamWriter) (s : StateInner StreamState)
    (latest : Option StreamGroupReader)
    → lock_mut s ≡ some s.value
    → s.value.latest ≡ latest
    → HasNext latest
    → let (result, s', released) = stream_append address w s in
      (id : ℕ) × (result ≡ ok (writer_of address id w))
      × (s'.value.latest ≡ some (reader_of address id w))
      × IsNext latest id
unfolding stream_append next_group stream_create stream_group_produce replaced is_behind commit
    notify
stream_append_lem address w s none live e small = (0, ground arith, ground arith, refl)
stream_append_lem address w s (some l) live e small =
    (l.info.group_id + 1, ground arith, ground arith, omega arith)

-- What is done with a stream: a group is created, or a reader looks at it.
pub data Call : Type 0 where
  creating : (address group_id : ℕ) → Call
  reading : Call

-- What a reader returns at each of its looks.
unfoldable pub stream_rounds :
    List Call
    → StreamWriter
    → StreamReader
    → StateInner StreamState
    → List (Round (Outcome ServeError (Option StreamGroupReader)))
stream_rounds [] w r s = []
stream_rounds (creating address group_id ∷ cs) w r s =
    stream_rounds cs w r (stream_create address group_id w s).1
stream_rounds (reading ∷ cs) w r s = (stream_next r s).0 ∷ stream_rounds cs w (stream_next r s).1 s

-- The reader is not ahead of the stream, which has a latest group once it has changed.
record IsSeen (r : StreamReader) (s : StateInner StreamState) : Type 0 where
  behind : r.epoch ≤ s.value.epoch
  unchanged : s.value.latest ≡ none → s.value.epoch ≡ 0

create-IsSeen :
    (address group_id : ℕ) (w : StreamWriter) (r : StreamReader) (s : StateInner StreamState)
    → IsSeen r s
    → s.value.epoch + 1 < 18446744073709551616
    → let s' = (stream_create address group_id w s).1 in
      IsSeen r s' × (s'.value.epoch ≤ s.value.epoch + 1)
unfolding stream_create stream_group_produce replaced commit notify lock_mut
create-IsSeen address group_id w r s h small = ground arith

next-IsSeen :
    (r : StreamReader) (s : StateInner StreamState)
    → IsSeen r s
    → let (round, r') = stream_next r s in IsSeen r' s × (round ≢ returned panic)
unfolding stream_next unwrapped latest_end modified
next-IsSeen r s h = ground arith

rounds-IsSeen :
    (cs : List Call) (w : StreamWriter) (r : StreamReader) (s : StateInner StreamState)
    → IsSeen r s
    → s.value.epoch + length cs < 18446744073709551616
    → All (λ round. round ≢ returned panic) (stream_rounds cs w r s)
unfolding stream_rounds
rounds-IsSeen [] w r s h small = tt
rounds-IsSeen (creating address group_id ∷ cs) w r s h small =
    let (seen, bound) = create-IsSeen address group_id w r s h (omega arith) in
    rounds-IsSeen cs w r (stream_create address group_id w s).1 seen (omega arith)
rounds-IsSeen (reading ∷ cs) w r s h small =
    let (seen, fine) = next-IsSeen r s h in
    (fine, rounds-IsSeen cs w (stream_next r s).1 s seen (omega arith))

-- The reader of a fresh stream never panics at the `unwrap` of the latest group, whatever groups are
-- created between its looks, fewer than 2^64 of both.
pub stream_rounds-panic :
    (info : Stream) (cs : List Call)
    → length cs < 18446744073709551616
    → let (w, r, s) = stream_produce info in
      All (λ round. round ≢ returned panic) (stream_rounds cs w r s)
unfolding stream_produce latest_new inner_new
stream_rounds-panic info cs small =
    rounds-IsSeen cs _ _ _ (record { behind = omega arith; unchanged = λ e. refl }) (omega arith)
