-- ===== src/Session/Publisher.antt =====
-- moq-transport/src/session/publisher.rs: the tables of announced namespaces and of subscriptions, and
-- what each message of a subscriber does to them.
pub mod Table
pub mod Routes
use linode_moq.Prelude.{ℕ, ◌+◌, List, [], ◌∷◌, Option, none, some, ◌==◌, if◌then◌else◌, Bool}
use linode_moq.Coding.Outcome.{Outcome, ok, err, panic}
use linode_moq.Coding.Tuple.{Tuple}
use linode_moq.Message.Union.{Message}
use linode_moq.Message.Announce.{Announce}
use linode_moq.Message.AnnounceOk.{AnnounceOk}
use linode_moq.Message.AnnounceError.{AnnounceError}
use linode_moq.Message.AnnounceCancel.{AnnounceCancel}
use linode_moq.Message.Subscribe.{Subscribe}
use linode_moq.Message.Unsubscribe.{Unsubscribe}
use linode_moq.Message.TrackStatusRequest.{TrackStatusRequest}
use linode_moq.Message.Sides.{Publisher, Subscriber, publisher_message}
use linode_moq.Watch.State.{StateInner, state_drop}
use linode_moq.Watch.Queue.{push}
use linode_moq.Serve.Error.{ServeError, cancel, closed, not_found}
use linode_moq.Serve.Track.Writers.{put}
use linode_moq.Session.Subscribed.{
  Subscribed, SubscribedState, subscribed_new, subscribed_drop, subscribed_close, recv_unsubscribe,
}
use linode_moq.Session.Announce.{
  Routed, AnnounceState, announce_recv_ok, announce_recv_error, announce_recv_subscribe,
  announce_recv_status,
}
use linode_moq.Session.Publisher.Table.{find, insert, remove, find_namespace, remove_namespace}

-- The errors of session/error.rs that the handlers return.
pub data HandlerError : Type 0 where
  duplicate : HandlerError
  internal : HandlerError
  serve : ServeError → HandlerError

-- `announces` and `subscribed` give the address of the state that the entry shares with the application.
pub record Tables : Type 0 where
  pub announces : List (Tuple × ℕ)
  pub announce_states : ℕ → StateInner AnnounceState
  pub subscribed : List (ℕ × ℕ)
  pub subscribed_states : ℕ → StateInner SubscribedState
  pub unknown : StateInner (List Routed)
  pub outgoing : StateInner (List Message)
  pub next : ℕ

-- A receiving side is removed from a table and so dropped with its handle, the only one of its side.
abbrev pub drop_at : {A : Type 0} → Option ℕ → (ℕ → StateInner A) → ℕ → StateInner A
drop_at none states = states
drop_at (some a) states = put states a (state_drop (states a))

unfoldable pub drop_subscribe : ℕ → Tables → Tables
drop_subscribe id t = record t {
  subscribed = remove id t.subscribed;
  subscribed_states = drop_at (find id t.subscribed) t.subscribed_states;
}

unfoldable pub drop_announce : Tuple → Tables → Tables
drop_announce namespace t = record t {
  announces = remove_namespace namespace t.announces;
  announce_states = drop_at (find_namespace namespace t.announces) t.announce_states;
}

-- What `send_message` does first, for the messages that end an entry.
unfoldable pub drop_entry : Publisher → Tables → Tables
unfolding drop_subscribe drop_announce
drop_entry (Publisher.subscribe_done m) t = drop_subscribe m.id t
drop_entry (Publisher.subscribe_error m) t = drop_subscribe m.id t
drop_entry (Publisher.unannounce m) t = drop_announce m.namespace t
drop_entry m t = t

-- `send_message`
unfoldable pub send_message : Publisher → Tables → Tables
unfolding drop_entry
send_message m t =
    let t' = drop_entry m t in record t' { outgoing = (push (publisher_message m) t'.outgoing).1 }

-- `?` on the result of a serve operation.
abbrev pub as_serve : Outcome ServeError (Unit {0}) → Outcome HandlerError (Unit {0})
as_serve (ok _) = ok tt
as_serve (err e) = err (serve e)
as_serve panic = panic

unfoldable pub recv_announce_ok : AnnounceOk → Tables → Outcome HandlerError (Unit {0}) × Tables
recv_announce_ok m t = elim (find_namespace m.namespace t.announces) [
  | none ↦ (ok tt, t)
  | some a ↦
      let (result, s) = announce_recv_ok (t.announce_states a) in
      (as_serve result, record t { announce_states = put t.announce_states a s })
]

-- An entry is removed and told the error that ended its namespace.
unfoldable pub end_announce : Tuple → ServeError → Tables → Outcome HandlerError (Unit {0}) × Tables
end_announce namespace e t = elim (find_namespace namespace t.announces) [
  | none ↦ (ok tt, t)
  | some a ↦
      let (result, s) = announce_recv_error e (t.announce_states a) in
      (
        as_serve result,
        record t {
          announces = remove_namespace namespace t.announces;
          announce_states = put t.announce_states a s;
        },
      )
]

unfoldable pub recv_announce_error :
    AnnounceError → Tables → Outcome HandlerError (Unit {0}) × Tables
unfolding end_announce
recv_announce_error m t = end_announce m.namespace (closed m.error_code) t

unfoldable pub recv_announce_cancel :
    AnnounceCancel → Tables → Outcome HandlerError (Unit {0}) × Tables
unfolding end_announce
recv_announce_cancel m t = end_announce m.namespace cancel t

unfoldable pub recv_unsubscribe_message :
    Unsubscribe → Tables → Outcome HandlerError (Unit {0}) × Tables
recv_unsubscribe_message m t = elim (find m.id t.subscribed) [
  | none ↦ (ok tt, t)
  | some a ↦
      let (result, s) = recv_unsubscribe (t.subscribed_states a) in
      (as_serve result, record t { subscribed_states = put t.subscribed_states a s })
]

-- A request without a namespace is not answered; a request that is not taken is dropped, which sends
-- nothing.
unfoldable pub recv_track_status_request :
    TrackStatusRequest → Tables → Outcome HandlerError (Unit {0}) × Tables
recv_track_status_request m t = elim (find_namespace m.track_namespace t.announces) [
  | none ↦ (err internal, t)
  | some a ↦
      let (result, s) = announce_recv_status m (t.announce_states a) in
      (as_serve result, record t { announce_states = put t.announce_states a s })
]

-- The tables with the entry of a new subscription.
unfoldable pub enter : ℕ → Tables → Routed × Tables
enter id t =
    let (subscribed, state) = subscribed_new id in
    (
      record { subscribed = subscribed; state = t.next },
      record t {
        subscribed = insert id t.next t.subscribed;
        subscribed_states = put t.subscribed_states t.next state;
        next = t.next + 1;
      },
    )

module _ (to_string : ServeError → List ℕ) where
  -- A subscription goes out of scope.
  unfoldable pub drop_routed : Routed → Tables → Tables
  unfolding send_message
  drop_routed r t =
      let (m, s) = subscribed_drop to_string r.subscribed (t.subscribed_states r.state) in
      send_message m (record t { subscribed_states = put t.subscribed_states r.state s })

  -- A subscription is closed with an error, and so goes out of scope.
  unfoldable pub close_routed :
      ServeError → Routed → Tables → Outcome ServeError (Unit {0}) × Tables
  unfolding send_message
  close_routed e r t =
      let (result, m, s) =
        subscribed_close to_string e r.subscribed (t.subscribed_states r.state) in
      (result, send_message m (record t { subscribed_states = put t.subscribed_states r.state s }))

  -- Behind the offer of a subscription to a namespace: one that is not taken goes out of scope.
  abbrev pub after_offer :
      Outcome ServeError (Unit {0}) → Routed → Tables → Outcome HandlerError (Unit {0}) × Tables
  after_offer (ok _) r t = (ok tt, t)
  after_offer (err e) r t = (err (serve e), drop_routed r t)
  after_offer panic r t = (panic, drop_routed r t)

  -- Behind the push onto the queue of unknown subscriptions, which gives one back that it does not take.
  abbrev pub after_push :
      Outcome Routed (Unit {0}) → Tables → Outcome HandlerError (Unit {0}) × Tables
  after_push (ok _) t = (ok tt, t)
  after_push (err r) t = let (result, t') = close_routed not_found r t in (as_serve result, t')
  after_push panic t = (panic, t)

  -- The subscription is routed to its namespace, or put among the unknown ones.
  unfoldable pub route : Tuple → Routed → Tables → Outcome HandlerError (Unit {0}) × Tables
  unfolding drop_routed close_routed
  route namespace r t = elim (find_namespace namespace t.announces) [
    | some a ↦
        let (result, s) = announce_recv_subscribe r (t.announce_states a) in
        after_offer result r (record t { announce_states = put t.announce_states a s })
    | none ↦ let (result, q) = push r t.unknown in after_push result (record t { unknown = q })
  ]

  unfoldable pub recv_subscribe : Subscribe → Tables → Outcome HandlerError (Unit {0}) × Tables
  unfolding enter route
  recv_subscribe m t = elim (find m.id t.subscribed) [
    | some _ ↦ (err duplicate, t)
    | none ↦ let (r, t') = enter m.id t in route m.track_namespace r t'
  ]

  -- The handler of each message; those that are not implemented panic.
  unfoldable pub handle : Subscriber → Tables → Outcome HandlerError (Unit {0}) × Tables
  unfolding recv_announce_ok recv_announce_error recv_announce_cancel recv_subscribe
      recv_unsubscribe_message recv_track_status_request
  handle (Subscriber.announce_ok m) t = recv_announce_ok m t
  handle (Subscriber.announce_error m) t = recv_announce_error m t
  handle (Subscriber.announce_cancel m) t = recv_announce_cancel m t
  handle (Subscriber.subscribe m) t = recv_subscribe m t
  handle (Subscriber.unsubscribe m) t = recv_unsubscribe_message m t
  handle (Subscriber.subscribe_update m) t = (err internal, t)
  handle (Subscriber.track_status_request m) t = recv_track_status_request m t
  handle m t = (panic, t)

  -- `recv_message`, which logs an error and goes on.
  unfoldable pub recv_message : Subscriber → Tables → Outcome HandlerError (Unit {0}) × Tables
  unfolding handle
  recv_message m t =
      let (result, t') = handle m t in (elim result [ panic ↦ panic | _ ↦ ok tt ], t')
