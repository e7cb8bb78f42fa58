-- ===== src/Session/Subscriber.antt =====
-- moq-transport/src/session/subscriber.rs: the tables of announced namespaces and of subscriptions, and
-- what each message of a publisher does to them.
pub mod Ending
use linode_moq.Prelude.{ℕ, ◌+◌, List, [], ◌∷◌, Option, none, some}
use linode_moq.Coding.Outcome.{Outcome, ok, err, panic}
use linode_moq.Coding.Tuple.{Tuple}
use linode_moq.Data.Header.{Header, track, subgroup, header_subscribe_id}
use linode_moq.Data.Datagram.{Datagram}
use linode_moq.Message.Union.{Message}
use linode_moq.Message.Announce.{Announce}
use linode_moq.Message.Unannounce.{Unannounce}
use linode_moq.Message.SubscribeOk.{SubscribeOk}
use linode_moq.Message.SubscribeError.{SubscribeError}
use linode_moq.Message.SubscribeDone.{SubscribeDone}
use linode_moq.Message.Sides.{Publisher, Subscriber, subscriber_message}
use linode_moq.Watch.Word.{wrapping_incr}
use linode_moq.Watch.State.{StateInner, state_drop}
use linode_moq.Watch.Queue.{push, pop_round}
use linode_moq.Serve.Error.{ServeError, closed, not_found}
use linode_moq.Serve.Stream.{StreamWriter}
use linode_moq.Serve.Subgroup.Group.{SubgroupWriter}
use linode_moq.Serve.Track.{TrackWriter}
use linode_moq.Serve.Track.Writers.{Store, put, TrackWriterMode}
use linode_moq.Session.Announced.{Announced, announced_new}
use linode_moq.Session.Subscribe.{
  SubscribeRecv, SubscribeState, subscribe_new, subscribe_drop, subscribe_recv_ok,
  subscribe_recv_error, subscribe_recv_track, subscribe_recv_subgroup, subscribe_recv_datagram,
}
use linode_moq.Session.Publisher.{HandlerError, duplicate, serve, as_serve}
use linode_moq.Session.Publisher.Table.{find, insert, remove, find_namespace, remove_namespace}

-- A subscription: its receiving side, and the address of the state that it shares with the application.
pub record Entry : Type 0 where
  pub recv : SubscribeRecv
  pub state : ℕ

-- `announced` gives the address of the state that an entry shares with the application. The states of
-- tracks are in the store.
pub record Tables : Type 0 where
  pub announced : List (Tuple × ℕ)
  pub announced_states : ℕ → StateInner (Unit {0})
  pub announced_queue : StateInner (List Announced)
  pub subscribes : List (ℕ × Entry)
  pub subscribe_states : ℕ → StateInner SubscribeState
  pub subscribe_next : ℕ
  pub store : Store
  pub outgoing : StateInner (List Message)
  pub next : ℕ

-- `drop_announce` for the messages that end a namespace. The receiving side of the entry is dropped with
-- its handle, the only one of its side.
unfoldable pub drop_announce : Tuple → Tables → Tables
drop_announce namespace t = elim (find_namespace namespace t.announced) [
  | none ↦ t
  | some a ↦ record t {
    announced = remove_namespace namespace t.announced;
    announced_states = put t.announced_states a (state_drop (t.announced_states a));
  }
]

unfoldable pub drop_for : Subscriber → Tables → Tables
unfolding drop_announce
drop_for (Subscriber.announce_cancel m) t = drop_announce m.namespace t
drop_for (Subscriber.announce_error m) t = drop_announce m.namespace t
drop_for m t = t

-- `send_message`
unfoldable pub send_message : Subscriber → Tables → Tables
unfolding drop_for
send_message m t =
    let t' = drop_for m t in record t' { outgoing = (push (subscriber_message m) t'.outgoing).1 }

-- `subscribe` up to its wait for `closed`: the id is taken, the request is sent and the receiving side
-- is entered.
unfoldable pub subscribe_start : TrackWriter → Tables → ℕ × Tables
unfolding send_message subscribe_new
subscribe_start w t =
    let id = t.subscribe_next in
    let (request, recv, state) = subscribe_new id w in
    let t' =
      send_message (Subscriber.subscribe request)
        (record t { subscribe_next = wrapping_incr id }) in
    (
      id,
      record t' {
        subscribes = insert id (record { recv = recv; state = t'.next }) t'.subscribes;
        subscribe_states = put t'.subscribe_states t'.next state;
        next = t'.next + 1;
      },
    )

-- The drop of a subscription by the application, by its id and the address of its state.
unfoldable pub subscribe_end : ℕ → ℕ → Tables → Tables
unfolding send_message subscribe_drop
subscribe_end id address t =
    let (m, s) = subscribe_drop id (t.subscribe_states address) in
    let t' = send_message (Subscriber.unsubscribe m) t in
    record t' { subscribe_states = put t'.subscribe_states address s }

-- Behind the push onto the queue of announced namespaces. A queue that does not take it would have the
-- handler lock the table again that it has locked, from which it does not return.
abbrev pub after_push :
    Tuple → ℕ → Outcome Announced (Unit {0}) → Tables → Outcome HandlerError (Unit {0}) × Tables
after_push namespace a (ok _) t = (ok tt, record t { announced = (namespace, a) ∷ t.announced })
after_push namespace a (err _) t = (panic, t)
after_push namespace a panic t = (panic, t)

unfoldable pub recv_announce : Announce → Tables → Outcome HandlerError (Unit {0}) × Tables
unfolding announced_new
recv_announce m t = elim (find_namespace m.namespace t.announced) [
  | some _ ↦ (err duplicate, t)
  | none ↦
      let (announced, state) = announced_new t.next m.namespace in
      let (result, q) = push announced t.announced_queue in
      after_push m.namespace t.next result (record t {
        announced_states = put t.announced_states t.next state;
        announced_queue = q;
        next = t.next + 1;
      })
]

-- The entry is removed, and `recv_unannounce` drops its receiving side.
unfoldable pub recv_unannounce : Unannounce → Tables → Outcome HandlerError (Unit {0}) × Tables
unfolding drop_announce
recv_unannounce m t = (ok tt, drop_announce m.namespace t)

unfoldable pub recv_subscribe_ok : SubscribeOk → Tables → Outcome HandlerError (Unit {0}) × Tables
recv_subscribe_ok m t = elim (find m.id t.subscribes) [
  | none ↦ (ok tt, t)
  | some entry ↦
      let (result, s) = subscribe_recv_ok (t.subscribe_states entry.state) in
      (as_serve result, record t { subscribe_states = put t.subscribe_states entry.state s })
]

-- An entry is removed and ended with an error.
unfoldable pub end_subscribe : ℕ → ServeError → Tables → Outcome ServeError (Unit {0}) × Tables
end_subscribe id e t = elim (find id t.subscribes) [
  | none ↦ (ok tt, t)
  | some entry ↦
      let (result, s, st) =
        subscribe_recv_error e entry.recv (t.subscribe_states entry.state) t.store in
      (
        result,
        record t {
          subscribes = remove id t.subscribes;
          subscribe_states = put t.subscribe_states entry.state s;
          store = st;
        },
      )
]

unfoldable pub recv_subscribe_error :
    SubscribeError → Tables → Outcome HandlerError (Unit {0}) × Tables
unfolding end_subscribe
recv_subscribe_error m t =
    let (result, t') = end_subscribe m.id (closed m.code) t in (as_serve result, t')

unfoldable pub recv_subscribe_done :
    SubscribeDone → Tables → Outcome HandlerError (Unit {0}) × Tables
unfolding end_subscribe
recv_subscribe_done m t =
    let (result, t') = end_subscribe m.id (closed m.code) t in (as_serve result, t')

-- The handler of each message; those that are not implemented panic.
unfoldable pub handle : Publisher → Tables → Outcome HandlerError (Unit {0}) × Tables
unfolding recv_announce recv_unannounce recv_subscribe_ok recv_subscribe_error recv_subscribe_done
handle (Publisher.announce m) t = recv_announce m t
handle (Publisher.unannounce m) t = recv_unannounce m t
handle (Publisher.subscribe_ok m) t = recv_subscribe_ok m t
handle (Publisher.subscribe_error m) t = recv_subscribe_error m t
handle (Publisher.subscribe_done m) t = recv_subscribe_done m t
handle (Publisher.max_subscribe_id m) t = (ok tt, t)
handle (Publisher.track_status m) t = (ok tt, t)
handle (Publisher.fetch_ok m) t = (panic, t)
handle (Publisher.fetch_error m) t = (panic, t)

-- An error of a serve operation is logged and the session goes on; any other one is returned.
abbrev pub unless_serve : Outcome HandlerError (Unit {0}) → Outcome HandlerError (Unit {0})
unless_serve (err (serve e)) = ok tt
unless_serve result = result

unfoldable pub recv_message : Publisher → Tables → Outcome HandlerError (Unit {0}) × Tables
unfolding handle
recv_message m t = let (result, t') = handle m t in (unless_serve result, t')

-- The writer that a data stream gets.
pub data Writer : Type 0 where
  to_track : ℕ → StreamWriter → Writer
  to_subgroup : SubgroupWriter → Writer

abbrev pub as_track : Outcome ServeError (ℕ × StreamWriter) → Outcome ServeError Writer
as_track (ok (a, w)) = ok (to_track a w)
as_track (err e) = err e
as_track panic = panic

abbrev pub as_subgroup : Outcome ServeError SubgroupWriter → Outcome ServeError Writer
as_subgroup (ok w) = ok (to_subgroup w)
as_subgroup (err e) = err e
as_subgroup panic = panic

-- The receiving side behind a data stream or a datagram.
abbrev pub updated : ℕ → Entry → SubscribeRecv → Store → Tables → Tables
updated id entry r st t = record t {
  subscribes = insert id (record entry { recv = r }) t.subscribes;
  store = st;
}

unfoldable pub open_for : Header → ℕ → Entry → Tables → Outcome ServeError Writer × Tables
open_for (track h) id entry t =
    let (opened, r, st) = subscribe_recv_track h entry.recv t.store in
    (as_track opened, updated id entry r st t)
open_for (subgroup h) id entry t =
    let (opened, r, st) = subscribe_recv_subgroup h entry.recv t.store in
    (as_subgroup opened, updated id entry r st t)

-- The start of `recv_stream_inner`: the writer for the header of a data stream.
unfoldable pub open_stream : Header → Tables → Outcome ServeError Writer × Tables
unfolding header_subscribe_id open_for
open_stream h t = elim (find (header_subscribe_id h) t.subscribes) [
  | none ↦ (err not_found, t)
  | some entry ↦ open_for h (header_subscribe_id h) entry t
]

-- What `recv_stream` does with a serve error: the subscription ends with it.
unfoldable pub stream_failed : Header → ServeError → Tables → Outcome ServeError (Unit {0}) × Tables
unfolding end_subscribe header_subscribe_id
stream_failed h e t = end_subscribe (header_subscribe_id h) e t

-- `recv_datagram`, behind the decoder.
unfoldable pub recv_datagram : Datagram → Tables → Outcome ServeError (Unit {0}) × Tables
recv_datagram d t = elim (find d.subscribe_id t.subscribes) [
  | none ↦ (ok tt, t)
  | some entry ↦
      let (result, r, st) = subscribe_recv_datagram d entry.recv t.store in
      (result, updated d.subscribe_id entry r st t)
]
