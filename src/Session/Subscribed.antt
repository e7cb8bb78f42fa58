-- ===== src/Session/Subscribed.antt =====
-- moq-transport/src/session/subscribed.rs: a subscription on the side of the publisher, apart from the
-- loops that send its data.
pub mod Closing
pub mod Sending
pub mod Sent
use linode_moq.Prelude.{ℕ, List, Option, none, some, Bool, true, false, leb, ◌&&◌, if◌then◌else◌}
use linode_moq.Coding.Outcome.{Outcome, ok, err}
use linode_moq.Message.GroupOrder.{GroupOrder, descending}
use linode_moq.Message.SubscribeOk.{SubscribeOk}
use linode_moq.Message.SubscribeError.{SubscribeError}
use linode_moq.Message.SubscribeDone.{SubscribeDone}
use linode_moq.Message.Sides.{Publisher, subscribe_ok, subscribe_error, subscribe_done}
use linode_moq.Watch.State.{
  StateInner, inner_new, lock_mut, commit, modified, state_drop, Round, returned, awaiting,
}
use linode_moq.Serve.Error.{ServeError, cancel, done, serve_error_code}
use linode_moq.Serve.Track.{TrackReader, track_latest}

-- `closed` is `none` where the source has `Ok(())`.
pub record SubscribedState : Type 0 where
  pub max_group_id : Option (ℕ × ℕ)
  pub closed : Option ServeError

-- The id is that of the message that asked for it, and the state is the one that the functions take.
pub record Subscribed : Type 0 where
  pub id : ℕ
  pub is_ok : Bool

-- `Subscribed::new`
unfoldable pub subscribed_new : ℕ → Subscribed × StateInner SubscribedState
unfolding inner_new
subscribed_new id =
    (record { id = id; is_ok = false }, inner_new (record { max_group_id = none; closed = none }))

-- `update_max_group_id`
unfoldable pub update_max_group_id : ℕ → ℕ → SubscribedState → SubscribedState
update_max_group_id group_id object_id state = elim state.max_group_id [
  | none ↦ state
  | some greatest ↦
      if leb greatest.0 group_id && leb greatest.1 object_id
      then record state { max_group_id = some (group_id, object_id) }
      else state
]

-- The start of `serve_inner`: what the track has so far is noted and SUBSCRIBE_OK is sent.
unfoldable pub serve_start :
    TrackReader
    → Subscribed
    → StateInner SubscribedState
    → Outcome ServeError Publisher × Subscribed × StateInner SubscribedState
unfolding track_latest
serve_start track w s = elim (lock_mut s) [
  | none ↦ (err cancel, w, s)
  | some state ↦ (
    ok (
        subscribe_ok (record {
          id = w.id;
          expires = none;
          group_order = descending;
          latest = track_latest track;
        })),
    record w { is_ok = true },
    commit (record state { max_group_id = track_latest track }) s,
  )
]

-- `state.lock_mut().ok_or(Done)?.update_max_group_id(..)?`, for each object that is sent.
unfoldable pub note_object :
    ℕ → ℕ → StateInner SubscribedState → Outcome ServeError (Unit {0}) × StateInner SubscribedState
unfolding update_max_group_id
note_object group_id object_id s = elim (lock_mut s) [
  | none ↦ (err done, s)
  | some state ↦ (ok tt, commit (update_max_group_id group_id object_id state) s)
]

-- A round of the loop of `closed`.
unfoldable pub subscribed_closed :
    StateInner SubscribedState → Round (Outcome ServeError (Unit {0}))
subscribed_closed s = elim s.value.closed [
  | some e ↦ returned (err e)
  | none ↦ elim (modified s) [ none ↦ returned (ok tt) | some c ↦ awaiting c ]
]

-- `SubscribedRecv::recv_unsubscribe`
unfoldable pub recv_unsubscribe :
    StateInner SubscribedState → Outcome ServeError (Unit {0}) × StateInner SubscribedState
recv_unsubscribe s = elim s.value.closed [
  | some before ↦ (err before, s)
  | none ↦ elim (lock_mut s) [
    | none ↦ (ok tt, s)
    | some state ↦ (ok tt, commit (record state { closed = some cancel }) s)
  ]
]

-- `state.closed.err().unwrap_or(Done)`
unfoldable pub end_error : SubscribedState → ServeError
end_error state = elim state.closed [ none ↦ done | some e ↦ e ]

-- The texts of errors are written by a derived `Display`.
module _ (to_string : ServeError → List ℕ) where
  -- `Drop`: the message that ends the subscription.
  unfoldable pub end_message : Subscribed → SubscribedState → Publisher
  unfolding end_error serve_error_code
  end_message w state =
      if w.is_ok
      then subscribe_done (record {
        id = w.id;
        code = serve_error_code (end_error state);
        reason = to_string (end_error state);
        last = state.max_group_id;
      })
      else subscribe_error (record {
        id = w.id;
        code = serve_error_code (end_error state);
        reason = to_string (end_error state);
        alias = 0;
      })

  unfoldable pub subscribed_drop :
      Subscribed → StateInner SubscribedState → Publisher × StateInner SubscribedState
  unfolding end_message
  subscribed_drop w s = (end_message w s.value, state_drop s)

  -- `close`, which takes the subscription and so drops it.
  unfoldable pub subscribed_close :
      ServeError
      → Subscribed
      → StateInner SubscribedState
      → Outcome ServeError (Unit {0}) × Publisher × StateInner SubscribedState
  unfolding subscribed_drop
  subscribed_close e w s = elim s.value.closed [
    | some before ↦ let (m, s') = subscribed_drop w s in (err before, m, s')
    | none ↦ elim (lock_mut s) [
      | none ↦ let (m, s') = subscribed_drop w s in (err done, m, s')
      | some state ↦
          let (m, s') = subscribed_drop w (commit (record state { closed = some e }) s) in
          (ok tt, m, s')
    ]
  ]
