-- ===== src/Session/Announce.antt =====
-- moq-transport/src/session/announce.rs: an announced namespace on the side of the publisher, and the
-- subscriptions and requests that are routed to it.
pub mod Routing
use linode_moq.Prelude.{
  ℕ, List, [], ◌∷◌, ◌++◌, Option, none, some, Bool, true, false, if◌then◌else◌,
}
use linode_moq.Coding.Outcome.{Outcome, ok, err}
use linode_moq.Coding.Tuple.{Tuple}
use linode_moq.Message.Unannounce.{Unannounce}
use linode_moq.Message.TrackStatusRequest.{TrackStatusRequest}
use linode_moq.Message.Sides.{Publisher, unannounce}
use linode_moq.Watch.State.{
  StateInner, inner_new, lock_mut, commit, modified, state_drop, Round, returned, awaiting,
}
use linode_moq.Watch.Queue.{pop_front}
use linode_moq.Serve.Error.{ServeError, duplicate, done}
use linode_moq.Session.Subscribed.{Subscribed}

-- A subscription with the address of its state.
pub record Routed : Type 0 where
  pub subscribed : Subscribed
  pub state : ℕ

-- `closed` is `none` where the source has `Ok(())`. A request for the status of a track is its message.
pub record AnnounceState : Type 0 where
  pub subscribers : List Routed
  pub track_statuses_requested : List TrackStatusRequest
  pub is_ok : Bool
  pub closed : Option ServeError

-- `State::default()`
unfoldable pub announce_state_new : StateInner AnnounceState
unfolding inner_new
announce_state_new =
    inner_new
      (record { subscribers = []; track_statuses_requested = []; is_ok = false; closed = none })

-- `AnnounceRecv::recv_ok`, which notifies even where it refuses.
unfoldable pub announce_recv_ok :
    StateInner AnnounceState → Outcome ServeError (Unit {0}) × StateInner AnnounceState
announce_recv_ok s = elim (lock_mut s) [
  | none ↦ (ok tt, s)
  | some state ↦
      if state.is_ok
      then (err duplicate, commit state s)
      else (ok tt, commit (record state { is_ok = true }) s)
]

-- `AnnounceRecv::recv_error`, which takes the receiving side and so drops its handle, the only one of its
-- side.
unfoldable pub announce_recv_error :
    ServeError → StateInner AnnounceState → Outcome ServeError (Unit {0}) × StateInner AnnounceState
announce_recv_error e s = elim s.value.closed [
  | some before ↦ (err before, state_drop s)
  | none ↦ elim (lock_mut s) [
    | none ↦ (err done, state_drop s)
    | some state ↦ (ok tt, state_drop (commit (record state { closed = some e }) s))
  ]
]

-- `AnnounceRecv::recv_subscribe`. Where it fails the subscription is dropped by the caller.
unfoldable pub announce_recv_subscribe :
    Routed → StateInner AnnounceState → Outcome ServeError (Unit {0}) × StateInner AnnounceState
announce_recv_subscribe r s = elim (lock_mut s) [
  | none ↦ (err done, s)
  | some state ↦ (ok tt, commit (record state { subscribers = state.subscribers ++ (r ∷ []) }) s)
]

-- `AnnounceRecv::recv_track_status_requested`
unfoldable pub announce_recv_status :
    TrackStatusRequest
    → StateInner AnnounceState
    → Outcome ServeError (Unit {0}) × StateInner AnnounceState
announce_recv_status m s = elim (lock_mut s) [
  | none ↦ (err done, s)
  | some state ↦ (
    ok tt,
    commit (record state { track_statuses_requested = state.track_statuses_requested ++ (m ∷ []) })
        s,
  )
]

-- A round that finds nothing: closed, or the other side gone, or a wait.
unfoldable pub announce_end :
    {A : Type 0} → A → StateInner AnnounceState → Round (Outcome ServeError A)
announce_end gone s = elim s.value.closed [
  | some e ↦ returned (err e)
  | none ↦ elim (modified s) [ none ↦ returned (ok gone) | some c ↦ awaiting c ]
]

-- A round of the loop of `closed`.
unfoldable pub announce_closed : StateInner AnnounceState → Round (Outcome ServeError (Unit {0}))
unfolding announce_end
announce_closed s = announce_end tt s

-- A round of the loop of `ok`.
unfoldable pub announce_ok_round : StateInner AnnounceState → Round (Outcome ServeError (Unit {0}))
unfolding announce_end
announce_ok_round s = if s.value.is_ok then returned (ok tt) else announce_end tt s

-- A round of the loop of `subscribed`.
unfoldable pub announce_subscribed :
    StateInner AnnounceState → Round (Outcome ServeError (Option Routed)) × StateInner AnnounceState
unfolding announce_end pop_front
announce_subscribed s = elim s.value.subscribers [
  | [] ↦ (announce_end none s, s)
  | _ ∷ _ ↦ elim (lock_mut s) [
    | none ↦ (returned (ok none), s)
    | some state ↦
        let (first, rest) = pop_front state.subscribers in
        (returned (ok first), commit (record state { subscribers = rest }) s)
  ]
]

-- A round of the loop of `track_status_requested`.
unfoldable pub announce_status :
    StateInner AnnounceState
    → Round (Outcome ServeError (Option TrackStatusRequest)) × StateInner AnnounceState
unfolding announce_end pop_front
announce_status s = elim s.value.track_statuses_requested [
  | [] ↦ (announce_end none s, s)
  | _ ∷ _ ↦ elim (lock_mut s) [
    | none ↦ (returned (ok none), s)
    | some state ↦
        let (first, rest) = pop_front state.track_statuses_requested in
        (returned (ok first), commit (record state { track_statuses_requested = rest }) s)
  ]
]

-- `Announce::drop`: the message that it sends, if any, and the drop of the handle, the only one of its
-- side.
unfoldable pub announce_drop :
    Tuple → StateInner AnnounceState → Option Publisher × StateInner AnnounceState
announce_drop namespace s = elim s.value.closed [
  | some _ ↦ (none, state_drop s)
  | none ↦ (some (unannounce (record { namespace = namespace })), state_drop s)
]
