-- ===== src/Session/Subscriber/Ending.antt =====
-- moq-transport/src/session/subscriber.rs: how announced namespaces and subscriptions begin and end.
use linode_moq.Prelude.{ℕ, ◌≡◌, ◌≢◌, refl, subst, ap, ◌∙◌, [], ◌∷◌, ◌++◌, Option, none, some, arith}
use linode_moq.Coding.Outcome.{Outcome, ok, err, panic}
use linode_moq.Data.Header.{Header, header_subscribe_id}
use linode_moq.Data.Datagram.{Datagram}
use linode_moq.Message.Announce.{Announce}
use linode_moq.Message.Sides.{Publisher}
use linode_moq.Watch.State.{lock_mut, commit, notify}
use linode_moq.Watch.Queue.{push}
use linode_moq.Serve.Error.{ServeError, done, not_found}
use linode_moq.Session.Announced.{announced_new}
use linode_moq.Session.Subscribe.{subscribe_recv_datagram}
use linode_moq.Session.Subscribe.Receiving.{subscribe_recv_datagram-IsDone}
use linode_moq.Session.Publisher.{HandlerError, duplicate, internal, serve}
use linode_moq.Session.Publisher.Table.{find, find_namespace, find-insert, find-remove}
use linode_moq.Session.Subscriber.{
  Tables, Entry, recv_announce, recv_message, handle, end_subscribe, recv_datagram, open_stream,
  stream_failed, unless_serve, updated,
}

-- A namespace that is announced twice is refused as a duplicate, and changes nothing. One that is not
-- announced yet is entered, and waits for the application behind those that were announced before.
pub recv_announce_lem :
    (m : Announce) (known : Option ℕ) (t : Tables)
    → find_namespace m.namespace t.announced ≡ known
    → lock_mut t.announced_queue ≡ some t.announced_queue.value
    → let (result, t') = recv_announce m t in
      ((a : ℕ) → known ≡ some a → (result ≡ err duplicate) × (t' ≡ t))
      × (known ≡ none
          → (result ≡ ok tt)
            × (t'.announced ≡ (m.namespace, t.next) ∷ t.announced)
            × (t'.announced_queue.value
                ≡ t.announced_queue.value ++ ((announced_new t.next m.namespace).0 ∷ [])))
unfolding recv_announce announced_new push commit notify
recv_announce_lem m (some a) t e live = (λ a' p. ground arith, λ p. absurd (cc))
recv_announce_lem m none t e live = (λ a' p. absurd (cc), λ p. ground arith)

end_subscribe-removes :
    (id other : ℕ) (e : ServeError) (entry : Option Entry) (t : Tables)
    → find id t.subscribes ≡ entry
    → let t' = (end_subscribe id e t).1 in
      (find id t'.subscribes ≡ none)
      × (id ≢ other → find other t'.subscribes ≡ find other t.subscribes)
unfolding end_subscribe
end_subscribe-removes id other e none t h = ground arith
end_subscribe-removes id other e (some entry) t h =
    let own = find-remove id id t.subscribes in
    let others = find-remove id other t.subscribes in (ground arith, λ ne. ground arith)

unless_serve-other :
    (result : Outcome HandlerError (Unit {0})) (e : ServeError)
    → unless_serve result ≢ err (serve e)
unless_serve-other (ok _) e h = cc
unless_serve-other (err duplicate) e h = cc
unless_serve-other (err internal) e h = cc
unless_serve-other (err (serve f)) e h = cc
unless_serve-other panic e h = cc

stream-unknown :
    (h : Header) (t : Tables)
    → find (header_subscribe_id h) t.subscribes ≡ none
    → open_stream h t ≡ (err not_found, t)
unfolding open_stream
stream-unknown h t e = rw (open_stream, e) refl

datagram-unknown :
    (d : Datagram) (t : Tables)
    → find d.subscribe_id t.subscribes ≡ none
    → recv_datagram d t ≡ (ok tt, t)
unfolding recv_datagram
datagram-unknown d t e = rw (recv_datagram, e) refl

datagram-known :
    (d : Datagram) (entry : Entry) (t : Tables)
    → find d.subscribe_id t.subscribes ≡ some entry
    → recv_datagram d t ≡ (
      (subscribe_recv_datagram d entry.recv t.store).0,
      updated d.subscribe_id entry
          (subscribe_recv_datagram d entry.recv t.store).1
          (subscribe_recv_datagram d entry.recv t.store).2
          t,
    )
unfolding recv_datagram
datagram-known d entry t e = rw (recv_datagram, e) refl

-- A data stream that fails, by a serve error, ends its subscription and no other: a later data stream
-- of it finds none, and a later datagram of it is ignored.
pub stream_failed-ends :
    (h h' : Header) (d : Datagram) (e : ServeError) (other : ℕ) (t : Tables)
    → header_subscribe_id h ≡ header_subscribe_id h'
    → header_subscribe_id h ≡ d.subscribe_id
    → header_subscribe_id h ≢ other
    → let (result, t') = stream_failed h e t in
      (open_stream h' t' ≡ (err not_found, t'))
      × (recv_datagram d t' ≡ (ok tt, t'))
      × (find other t'.subscribes ≡ find other t.subscribes)
unfolding stream_failed
stream_failed-ends h h' d e other t same same' ne =
    let id = header_subscribe_id h in
    let t' : Tables = (end_subscribe id e t).1 in
    let (gone, kept) = end_subscribe-removes id other e (find id t.subscribes) t refl in
    (
      stream-unknown h' t' (subst (λ k. find k t'.subscribes ≡ none) same gone),
      datagram-unknown d t' (subst (λ k. find k t'.subscribes ≡ none) same' gone),
      kept ne,
    )

-- A subscription takes one datagram. The next one of it is an error, `Done`, though the subscription is
-- still entered.
pub recv_datagram-twice :
    (d d' : Datagram) (entry : Entry) (t : Tables)
    → find d.subscribe_id t.subscribes ≡ some entry
    → d.subscribe_id ≡ d'.subscribe_id
    → let (result, t') = recv_datagram d t in (recv_datagram d' t').0 ≡ err done
recv_datagram-twice d d' entry t e same =
    let id = d.subscribe_id in
    let (result, r, st) = subscribe_recv_datagram d entry.recv t.store in
    let t' : Tables = updated id entry r st t in
    let entry' : Entry = record entry { recv = r } in
    let found : find d'.subscribe_id t'.subscribes ≡ some entry' =
      subst (λ k. find k t'.subscribes ≡ some entry') same (find-insert id entry' t.subscribes) in
    ap (λ x. (recv_datagram d' x.1).0) (datagram-known d entry t e)
    ∙ ap (λ x. x.0) (datagram-known d' entry' t' found)
    ∙ (subscribe_recv_datagram-IsDone d entry.recv t.store).2 d' st

-- No message of a publisher ends the session by a serve error.
pub recv_message-unless_serve :
    (m : Publisher) (t : Tables) (e : ServeError) → (recv_message m t).0 ≢ err (serve e)
unfolding recv_message
recv_message-unless_serve m t e = unless_serve-other (handle m t).0 e
