-- ===== src/Session/Subscribed/Closing.antt =====
-- moq-transport/src/session/subscribed.rs: the message that ends a subscription.
use linode_moq.Prelude.{ℕ, ◌≡◌, refl, ◌∙◌, List, [], ◌∷◌, none, some, arith}
use linode_moq.Coding.Outcome.{ok, err}
use linode_moq.Message.Sides.{subscribe_done}
use linode_moq.Watch.State.{StateInner, inner_new, lock_mut, commit, notify, state_drop}
use linode_moq.Serve.Error.{ServeError, cancel, done, serve_error_code}
use linode_moq.Serve.Track.{TrackReader, track_latest}
use linode_moq.Session.Subscribed.{
  Subscribed, SubscribedState, subscribed_new, update_max_group_id, serve_start, note_object,
  recv_unsubscribe, end_error, end_message, subscribed_drop, subscribed_close,
}

-- The objects of a subscription noted one after the other.
unfoldable pub note_objects : List (ℕ × ℕ) → StateInner SubscribedState → StateInner SubscribedState
note_objects [] s = s
note_objects ((group_id, object_id) ∷ os) s = note_objects os (note_object group_id object_id s).1

note-unknown :
    (group_id object_id : ℕ) (s : StateInner SubscribedState)
    → s.value.max_group_id ≡ none
    → let s' = (note_object group_id object_id s).1 in
      (s'.value.max_group_id ≡ none) × (s'.value.closed ≡ s.value.closed)
unfolding note_object update_max_group_id commit notify lock_mut
note-unknown group_id object_id s e = ground arith

notes-unknown :
    (os : List (ℕ × ℕ)) (s : StateInner SubscribedState)
    → s.value.max_group_id ≡ none
    → ((note_objects os s).value.max_group_id ≡ none)
      × ((note_objects os s).value.closed ≡ s.value.closed)
unfolding note_objects
notes-unknown [] s e = (e, refl)
notes-unknown ((group_id, object_id) ∷ os) s e =
    let (e', c) = note-unknown group_id object_id s e in
    let (e'', c') = notes-unknown os (note_object group_id object_id s).1 e' in (e'', c' ∙ c)

module _ (to_string : ServeError → List ℕ) where
  -- A subscription that was served from its start, whatever objects were sent for it, ends with
  -- SUBSCRIBE_DONE, which tells no last group and object: the code notes the ids of an object only
  -- where it has noted some before, and the track has none to begin with.
  pub subscribed_drop-note_objects :
      (track : TrackReader) (id : ℕ) (os : List (ℕ × ℕ))
      → let (w, s) = subscribed_new id in
        let (sent, w', s') = serve_start track w s in
        (subscribed_drop to_string w' (note_objects os s')).0
        ≡ subscribe_done (record { id = id; code = 0; reason = to_string done; last = none })
  unfolding subscribed_new serve_start subscribed_drop end_message end_error serve_error_code
      inner_new lock_mut commit notify track_latest
  subscribed_drop-note_objects track id os =
      let s' : StateInner SubscribedState =
        (serve_start track (subscribed_new id).0 (subscribed_new id).1).2 in
      let (unknown, unclosed) = notes-unknown os s' refl in
      let closed : (note_objects os s').value.closed ≡ none = unclosed in ground arith

  -- A live subscription that is closed ends with the message for the error that it is closed with. After
  -- an UNSUBSCRIBE a close is refused, and the subscription ends with the message for a cancellation.
  pub subscribed_close-message :
      (e f : ServeError) (w : Subscribed) (s : StateInner SubscribedState)
      → lock_mut s ≡ some s.value
      → s.value.closed ≡ none
      → let (result, message, s') = subscribed_close to_string e w s in
        let (unsubscribed, s'') = recv_unsubscribe s in
        (result ≡ ok tt)
        × (message ≡ end_message to_string w (record s.value { closed = some e }))
        × (unsubscribed ≡ ok tt)
        × ((subscribed_close to_string f w s'').0 ≡ err cancel)
        × ((subscribed_close to_string f w s'').1
            ≡ end_message to_string w (record s.value { closed = some cancel }))
  unfolding subscribed_close subscribed_drop recv_unsubscribe lock_mut commit notify state_drop
  subscribed_close-message e f w s live unclosed =
      (ground arith, ground arith, ground arith, ground arith, ground arith)
