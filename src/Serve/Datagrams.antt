-- ===== src/Serve/Datagrams.antt =====
-- moq-transport/src/serve/datagram.rs: the datagrams of a track, of which readers get the latest.
use linode_moq.Prelude.{
  ℕ, ap, ◌∙◌, length, List, [], ◌∷◌, Option, none, some, ltb, if◌then◌else◌, ◌≡◌, arith, ◌+◌, ◌<◌,
  ◌≤◌,
}
use linode_moq.Coding.Outcome.{Outcome, ok, err}
use linode_moq.Watch.State.{
  StateInner, StateChanged, lock_mut, commit, notify, modified, state_drop, Round, returned,
  awaiting,
}
use linode_moq.Serve.Error.{ServeError, cancel}
use linode_moq.Serve.Latest.{Latest, latest_new, latest_close, latest_end, replaced}
use linode_moq.Serve.Info.{Track, Datagram}

abbrev pub DatagramsState : Type 0
DatagramsState = Latest Datagram

-- The state is the one that the functions take.
pub record DatagramsWriter : Type 0 where
  pub track : Track

pub record DatagramsReader : Type 0 where
  pub track : Track
  pub epoch : ℕ

-- `Datagrams::produce`
unfoldable pub datagrams_produce :
    Track → DatagramsWriter × DatagramsReader × StateInner DatagramsState
unfolding latest_new
datagrams_produce track =
    (record { track = track }, record { track = track; epoch = 0 }, latest_new)

unfoldable pub datagrams_write :
    Datagram → StateInner DatagramsState → Outcome ServeError (Unit {0}) × StateInner DatagramsState
unfolding replaced
datagrams_write d s = elim (lock_mut s) [
  | none ↦ (err cancel, s)
  | some state ↦ (ok tt, commit (replaced d state) s)
]

-- `close`, which takes the writer and so drops its handle, the only one of its side.
unfoldable pub datagrams_close :
    ServeError
    → StateInner DatagramsState
    → Outcome ServeError (Unit {0}) × StateInner DatagramsState
datagrams_close e s = let (result, s') = latest_close e s in (result, state_drop s')

-- A round of the loop of `read`.
unfoldable pub datagrams_read :
    DatagramsReader
    → StateInner DatagramsState
    → Round (Outcome ServeError (Option Datagram)) × DatagramsReader
datagrams_read r s =
    if ltb r.epoch s.value.epoch
    then (returned (ok s.value.latest), record r { epoch = s.value.epoch })
    else (latest_end s, r)

unfoldable pub datagrams_latest : StateInner DatagramsState → Option (ℕ × ℕ)
datagrams_latest s = elim s.value.latest [ none ↦ none | some d ↦ some (d.group_id, d.object_id) ]

-- The datagrams written one after the other.
unfoldable pub write_all : List Datagram → StateInner DatagramsState → StateInner DatagramsState
write_all [] s = s
write_all (d ∷ ds) s = write_all ds (datagrams_write d s).1

-- The last of some datagrams.
unfoldable pub last_of : Datagram → List Datagram → Datagram
last_of d [] = d
last_of d (e ∷ ds) = last_of e ds

-- A live state that a reader has seen all of.
record IsSeen (r : DatagramsReader) (s : StateInner DatagramsState) : Type 0 where
  live : lock_mut s ≡ some s.value
  unclosed : s.value.closed ≡ none
  behind : r.epoch ≤ s.value.epoch

write-IsSeen :
    (r : DatagramsReader) (d : Datagram) (s : StateInner DatagramsState)
    → IsSeen r s
    → s.value.epoch + 1 < 18446744073709551616
    → let s' = (datagrams_write d s).1 in
      IsSeen r s' × (s'.value.latest ≡ some d) × (s'.value.epoch ≡ s.value.epoch + 1)
unfolding datagrams_write replaced commit notify lock_mut
write-IsSeen r d s h small = ground arith

write_all-IsSeen :
    (r : DatagramsReader) (d : Datagram) (ds : List Datagram) (s : StateInner DatagramsState)
    → IsSeen r s
    → s.value.epoch + length (d ∷ ds) < 18446744073709551616
    → let s' = write_all (d ∷ ds) s in
      IsSeen r s' × (s'.value.latest ≡ some (last_of d ds)) × (s.value.epoch < s'.value.epoch)
unfolding write_all last_of
write_all-IsSeen r d [] s h small =
    let (seen, e, n) = write-IsSeen r d s h (omega arith) in (seen, e, omega (arith, n))
write_all-IsSeen r d (d' ∷ ds) s h small =
    let (seen, e, n) = write-IsSeen r d s h (omega arith) in
    let (seen', e', n') =
      write_all-IsSeen r d' ds (datagrams_write d s).1 seen (omega (arith, n)) in
    (seen', e', omega (arith, n, n'))

read-IsSeen :
    (r : DatagramsReader) (s : StateInner DatagramsState)
    → IsSeen r s
    → r.epoch < s.value.epoch
    → let (round, r') = datagrams_read r s in
      (round ≡ returned (ok s.value.latest))
      × ((c : StateChanged) × ((datagrams_read r' s).0 ≡ awaiting c))
unfolding datagrams_read latest_end modified lock_mut
read-IsSeen r s h new = (ground arith, (record { epoch = s.epoch }, ground arith))

-- Of the datagrams that are written to a live track between two looks of a reader, at least one, the
-- reader gets the last and no other: another look waits for the next change. Fewer than 2^64 datagrams
-- are written in all.
pub datagrams_read-write_all :
    (r : DatagramsReader) (d : Datagram) (ds : List Datagram) (s : StateInner DatagramsState)
    → lock_mut s ≡ some s.value
    → s.value.closed ≡ none
    → r.epoch ≤ s.value.epoch
    → s.value.epoch + length (d ∷ ds) < 18446744073709551616
    → let s' = write_all (d ∷ ds) s in
      let (round, r') = datagrams_read r s' in
      (round ≡ returned (ok (some (last_of d ds))))
      × ((c : StateChanged) × ((datagrams_read r' s').0 ≡ awaiting c))
datagrams_read-write_all r d ds s live unclosed behind small =
    let (seen, e, n) =
      write_all-IsSeen r d ds s (record { live = live; unclosed = unclosed; behind = behind })
        small in
    let (got, waits) = read-IsSeen r (write_all (d ∷ ds) s) seen (omega (arith, n)) in
    (got ∙ ap (λ l. returned (ok l)) e, waits)
