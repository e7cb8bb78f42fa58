-- ===== src/Session/Publisher/Routes.antt =====
-- moq-transport/src/session/publisher.rs: where a new subscription goes, and when its id is free again.
use linode_moq.Prelude.{
  ℕ, ◌≡◌, ◌≢◌, refl, sym, subst, ap, ◌∙◌, List, [], ◌∷◌, ◌++◌, none, some, arith, false,
}
use linode_moq.Coding.Outcome.{ok, err}
use linode_moq.Coding.Tuple.{Tuple}
use linode_moq.Message.Union.{Message}
use linode_moq.Message.Subscribe.{Subscribe}
use linode_moq.Message.SubscribeError.{SubscribeError}
use linode_moq.Message.Sides.{Publisher, publisher_message}
use linode_moq.Watch.State.{StateInner, inner_new, lock_mut, commit, notify, state_drop}
use linode_moq.Watch.Queue.{push}
use linode_moq.Serve.Error.{ServeError, done, serve_error_code}
use linode_moq.Serve.Track.Writers.{put}
use linode_moq.Session.Subscribed.{
  Subscribed, SubscribedState, subscribed_new, subscribed_drop, end_message, end_error,
}
use linode_moq.Session.Announce.{Routed, announce_recv_subscribe}
use linode_moq.Session.Publisher.Table.{
  find, insert, remove, find_namespace, find-insert, find-remove, find-insert_other,
}
use linode_moq.Session.Publisher.{
  Tables, duplicate, recv_subscribe, route, enter, drop_routed, send_message, drop_entry,
}

-- The subscription of an id that is new to the tables.
abbrev pub routed : ℕ → Tables → Routed
routed id t = record { subscribed = record { id = id; is_ok = false }; state = t.next }

put_self : {A : Type 0} (f : ℕ → A) (a : ℕ) (v : A) → put f a v a ≡ v
put_self f a v = ground arith

module _ (to_string : ServeError → List ℕ) where
  -- A SUBSCRIBE with an id that is in use is refused as a duplicate, and changes nothing.
  pub recv_subscribe-duplicate :
      (m : Subscribe) (t : Tables) {a : ℕ}
      → find m.id t.subscribed ≡ some a
      → recv_subscribe to_string m t ≡ (err duplicate, t)
  unfolding recv_subscribe
  recv_subscribe-duplicate m t e = rw (recv_subscribe, e) refl

  fresh-route :
      (m : Subscribe) (t : Tables)
      → find m.id t.subscribed ≡ none
      → recv_subscribe to_string m t
        ≡ route to_string m.track_namespace (routed m.id t) (enter m.id t).1
  unfolding recv_subscribe enter subscribed_new
  fresh-route m t e = rw (recv_subscribe, e) refl

  route-announced :
      (n : Tuple) (r : Routed) (t : Tables) (a : ℕ)
      → find_namespace n t.announces ≡ some a
      → lock_mut (t.announce_states a) ≡ some (t.announce_states a).value
      → let (result, t') = route to_string n r t in
        (result ≡ ok tt)
        × ((t'.announce_states a).value.subscribers
            ≡ (t.announce_states a).value.subscribers ++ (r ∷ []))
        × (t'.subscribed ≡ t.subscribed)
        × (t'.outgoing ≡ t.outgoing)
  unfolding route announce_recv_subscribe commit notify
  route-announced n r t a known live = ground arith

  route-unknown :
      (n : Tuple) (r : Routed) (t : Tables)
      → find_namespace n t.announces ≡ none
      → lock_mut t.unknown ≡ some t.unknown.value
      → let (result, t') = route to_string n r t in
        (result ≡ ok tt)
        × (t'.unknown.value ≡ t.unknown.value ++ (r ∷ []))
        × (t'.subscribed ≡ t.subscribed)
        × (t'.outgoing ≡ t.outgoing)
        × (t'.subscribed_states ≡ t.subscribed_states)
  unfolding route push commit notify
  route-unknown n r t unknown live = ground arith

  end-new :
      (w : Subscribed) (s : StateInner SubscribedState)
      → w.is_ok ≡ false
      → s ≡ (subscribed_new w.id).1
      → end_message to_string w s.value
        ≡ Publisher.subscribe_error
            (record { id = w.id; alias = 0; code = 0; reason = to_string done })
  unfolding end_message end_error subscribed_new inner_new serve_error_code
  end-new w s fresh new =
      let unclosed : s.value.closed ≡ none = ap (λ x. x.value.closed) new in ground arith

  -- A message that ends a subscription is put behind those that wait to be sent.
  send-error :
      (m : SubscribeError) (t : Tables)
      → lock_mut t.outgoing ≡ some t.outgoing.value
      → let t' = send_message (Publisher.subscribe_error m) t in
        (t'.subscribed ≡ remove m.id t.subscribed)
        × (t'.outgoing.value ≡ t.outgoing.value ++ (Message.subscribe_error m ∷ []))
  unfolding send_message drop_entry push publisher_message commit notify
  send-error m t open_queue = ground arith

  -- A new subscription that goes out of scope.
  dropped_new :
      (r : Routed) (t : Tables)
      → r.subscribed.is_ok ≡ false
      → t.subscribed_states r.state ≡ (subscribed_new r.subscribed.id).1
      → lock_mut t.outgoing ≡ some t.outgoing.value
      → let t' = drop_routed to_string r t in
        (t'.subscribed ≡ remove r.subscribed.id t.subscribed)
        × (t'.outgoing.value
            ≡ t.outgoing.value
              ++ (Message.subscribe_error
                    (record { id = r.subscribed.id; alias = 0; code = 0; reason = to_string done })
                  ∷ []))
  unfolding drop_routed subscribed_drop
  dropped_new r t fresh new open_queue =
      rw (drop_routed, end-new r.subscribed (t.subscribed_states r.state) fresh new)
        (send-error (record { id = r.subscribed.id; alias = 0; code = 0; reason = to_string done })
          (record t {
            subscribed_states =
                put t.subscribed_states r.state (state_drop (t.subscribed_states r.state));
          })
          open_queue)

  -- A SUBSCRIBE with a free id, for a namespace that is announced and still served, waits behind those
  -- that wait for the namespace already. Its id is in use then, no other id is affected, and nothing is
  -- sent.
  pub recv_subscribe-announced :
      (m : Subscribe) (t : Tables) (a : ℕ) (other : ℕ)
      → find m.id t.subscribed ≡ none
      → find_namespace m.track_namespace t.announces ≡ some a
      → lock_mut (t.announce_states a) ≡ some (t.announce_states a).value
      → m.id ≢ other
      → let (result, t') = recv_subscribe to_string m t in
        (result ≡ ok tt)
        × ((t'.announce_states a).value.subscribers
            ≡ (t.announce_states a).value.subscribers ++ (routed m.id t ∷ []))
        × (find m.id t'.subscribed ≡ some t.next)
        × (find other t'.subscribed ≡ find other t.subscribed)
        × (t'.outgoing ≡ t.outgoing)
  unfolding enter subscribed_new
  recv_subscribe-announced m t a other free known live ne =
      let f = fresh-route m t free in
      let (answered, waits, table, sent) =
        route-announced m.track_namespace (routed m.id t) (enter m.id t).1 a known live in
      (
        ap (λ x. x.0) f ∙ answered,
        ap (λ x. (x.1.announce_states a).value.subscribers) f ∙ waits,
        ap (λ x. find m.id x.1.subscribed) f
            ∙ ap (find m.id) table
            ∙ find-insert m.id t.next t.subscribed,
        ap (λ x. find other x.1.subscribed) f
            ∙ ap (find other) table
            ∙ find-insert_other m.id other t.next t.subscribed ne,
        ap (λ x. x.1.outgoing) f ∙ sent,
      )

  -- A SUBSCRIBE with a free id, for a namespace that is not announced, waits behind those of unknown
  -- namespaces. Its id is in use then, no other id is affected, and nothing is sent.
  pub recv_subscribe-unknown :
      (m : Subscribe) (t : Tables) (other : ℕ)
      → find m.id t.subscribed ≡ none
      → find_namespace m.track_namespace t.announces ≡ none
      → lock_mut t.unknown ≡ some t.unknown.value
      → m.id ≢ other
      → let (result, t') = recv_subscribe to_string m t in
        (result ≡ ok tt)
        × (t'.unknown.value ≡ t.unknown.value ++ (routed m.id t ∷ []))
        × (find m.id t'.subscribed ≡ some t.next)
        × (find other t'.subscribed ≡ find other t.subscribed)
        × (t'.outgoing ≡ t.outgoing)
  unfolding enter subscribed_new
  recv_subscribe-unknown m t other free unknown live ne =
      let f = fresh-route m t free in
      let (answered, waits, table, sent, states) =
        route-unknown m.track_namespace (routed m.id t) (enter m.id t).1 unknown live in
      (
        ap (λ x. x.0) f ∙ answered,
        ap (λ x. x.1.unknown.value) f ∙ waits,
        ap (λ x. find m.id x.1.subscribed) f
            ∙ ap (find m.id) table
            ∙ find-insert m.id t.next t.subscribed,
        ap (λ x. find other x.1.subscribed) f
            ∙ ap (find other) table
            ∙ find-insert_other m.id other t.next t.subscribed ne,
        ap (λ x. x.1.outgoing) f ∙ sent,
      )

  -- A SUBSCRIBE with a free id, for a namespace that is not announced, is taken up, and then the
  -- subscription is dropped before it was served: SUBSCRIBE_ERROR with `Done` is sent, behind what waits
  -- to be sent. The id is free again then, and no other id is affected.
  pub recv_subscribe-drop_routed :
      (m : Subscribe) (t : Tables) (other : ℕ)
      → find m.id t.subscribed ≡ none
      → find_namespace m.track_namespace t.announces ≡ none
      → lock_mut t.unknown ≡ some t.unknown.value
      → lock_mut t.outgoing ≡ some t.outgoing.value
      → m.id ≢ other
      → let (result, t') = recv_subscribe to_string m t in
        let t'' = drop_routed to_string (routed m.id t) t' in
        (result ≡ ok tt)
        × (find m.id t''.subscribed ≡ none)
        × (find other t''.subscribed ≡ find other t.subscribed)
        × (t''.outgoing.value
            ≡ t.outgoing.value
              ++ (Message.subscribe_error
                    (record { id = m.id; alias = 0; code = 0; reason = to_string done })
                  ∷ []))
  unfolding enter subscribed_new
  recv_subscribe-drop_routed m t other free unknown live open_queue ne =
      let f = fresh-route m t free in
      let (answered, waits, table, sent, states) =
        route-unknown m.track_namespace (routed m.id t) (enter m.id t).1 unknown live in
      let t' : Tables = (recv_subscribe to_string m t).1 in
      let entered : t'.subscribed ≡ insert m.id t.next t.subscribed =
        ap (λ x. x.1.subscribed) f ∙ table in
      let queue : t'.outgoing ≡ t.outgoing = ap (λ x. x.1.outgoing) f ∙ sent in
      let new : t'.subscribed_states t.next ≡ (subscribed_new m.id).1 =
        ap (λ x. x.1.subscribed_states t.next) f
        ∙ ap (λ g. g t.next) states
        ∙ put_self t.subscribed_states t.next (subscribed_new m.id).1 in
      let (removed, answer) =
        dropped_new (routed m.id t) t' refl new
          (subst (λ q. lock_mut q ≡ some q.value) (sym queue) open_queue) in
      let left = find-remove m.id m.id (insert m.id t.next t.subscribed) in
      let kept = find-remove m.id other (insert m.id t.next t.subscribed) in
      let others = find-insert_other m.id other t.next t.subscribed ne in
      let own : find m.id (remove m.id (insert m.id t.next t.subscribed)) ≡ none = ground arith in
      let same : find other (remove m.id (insert m.id t.next t.subscribed))
          ≡ find other t.subscribed =
        ground arith in
      (
        ap (λ x. x.0) f ∙ answered,
        ap (find m.id) (removed ∙ ap (remove m.id) entered) ∙ own,
        ap (find other) (removed ∙ ap (remove m.id) entered) ∙ same,
        answer
            ∙ ap
                (λ q.
                  q.value
                  ++ (Message.subscribe_error
                        (record { id = m.id; alias = 0; code = 0; reason = to_string done })
                      ∷ []))
                queue,
      )
