-- ===== src/Session/Announce/Routing.antt =====
-- moq-transport/src/session/announce.rs: what becomes of the subscriptions that are routed to a namespace.
use linode_moq.Prelude.{
  ◌≡◌, sym, ap, ◌∙◌, List, [], ◌∷◌, ◌++◌, Option, none, some, arith, append_assoc, append-nil,
}
use linode_moq.Coding.Outcome.{Outcome, ok, err}
use linode_moq.Coding.Tuple.{Tuple}
use linode_moq.Watch.State.{
  StateInner, lock_mut, commit, notify, modified, state_drop, Round, returned,
}
use linode_moq.Watch.Queue.{pop_front}
use linode_moq.Serve.Error.{ServeError}
use linode_moq.Session.Announce.{
  Routed, AnnounceState, announce_recv_subscribe, announce_subscribed, announce_recv_error,
  announce_closed, announce_end, announce_drop,
}

-- A call on an announced namespace: a subscription arrives, or one is taken.
pub data Call : Type 0 where
  arriving : Routed → Call
  taking : Call

abbrev pub taken : Round (Outcome ServeError (Option Routed)) → List Routed
taken (returned (ok (some r))) = r ∷ []
taken _ = []

-- The calls one after the other: what was taken, and the state behind them.
unfoldable pub calls : List Call → StateInner AnnounceState → List Routed × StateInner AnnounceState
calls [] s = ([], s)
calls (arriving r ∷ cs) s = calls cs (announce_recv_subscribe r s).1
calls (taking ∷ cs) s =
    let (out, end) = calls cs (announce_subscribed s).1 in
    (taken (announce_subscribed s).0 ++ out, end)

unfoldable pub arrived : List Call → List Routed
arrived [] = []
arrived (arriving r ∷ cs) = r ∷ arrived cs
arrived (taking ∷ cs) = arrived cs

arrive-live :
    (r : Routed) (s : StateInner AnnounceState)
    → lock_mut s ≡ some s.value
    → let s' = (announce_recv_subscribe r s).1 in
      (lock_mut s' ≡ some s'.value) × (s'.value.subscribers ≡ s.value.subscribers ++ (r ∷ []))
unfolding announce_recv_subscribe lock_mut commit notify
arrive-live r s live = ground arith

take-live :
    (s : StateInner AnnounceState)
    → lock_mut s ≡ some s.value
    → let (round, s') = announce_subscribed s in
      (lock_mut s' ≡ some s'.value) × (s.value.subscribers ≡ taken round ++ s'.value.subscribers)
unfolding announce_subscribed announce_end pop_front lock_mut commit notify modified
take-live s live = ground arith

calls-live :
    (cs : List Call) (s : StateInner AnnounceState)
    → lock_mut s ≡ some s.value
    → let (out, s') = calls cs s in
      (lock_mut s' ≡ some s'.value)
      × (out ++ s'.value.subscribers ≡ s.value.subscribers ++ arrived cs)
unfolding calls arrived
calls-live [] s h = (h, sym (append-nil s.value.subscribers))
calls-live (arriving r ∷ cs) s h =
    let (live, e) = arrive-live r s h in
    let (ih, p) = calls-live cs (announce_recv_subscribe r s).1 live in
    (ih, p ∙ ap (λ l. l ++ arrived cs) e ∙ append_assoc s.value.subscribers (r ∷ []) (arrived cs))
calls-live (taking ∷ cs) s h =
    let (live, e) = take-live s h in
    let s' : StateInner AnnounceState = (announce_subscribed s).1 in
    let (ih, p) = calls-live cs s' live in
    let front = taken (announce_subscribed s).0 in
    (
      ih,
      append_assoc front (calls cs s').0 (calls cs s').1.value.subscribers
          ∙ ap (λ l. front ++ l) p
          ∙ sym (append_assoc front s'.value.subscribers (arrived cs))
          ∙ ap (λ l. l ++ arrived cs) (sym e),
    )

-- While both sides of an announced namespace are there, subscriptions are taken in the order in which
-- they arrived, none lost and none twice: those taken, followed by those that still wait, are those that
-- waited at first followed by those that arrived.
pub calls_lem :
    (cs : List Call) (s : StateInner AnnounceState)
    → lock_mut s ≡ some s.value
    → let (out, s') = calls cs s in out ++ s'.value.subscribers ≡ s.value.subscribers ++ arrived cs
calls_lem cs s live = (calls-live cs s live).1

-- When the peer refuses or cancels a live namespace, the publisher that serves it gets the error and
-- sends no UNANNOUNCE. Subscriptions that wait are not served: a publisher that asks for one finds
-- `None`, though some are there.
pub announce_recv_error-waiting :
    (e : ServeError) (namespace : Tuple) (r : Routed) (rest : List Routed)
    (s : StateInner AnnounceState)
    → lock_mut s ≡ some s.value
    → s.value.closed ≡ none
    → s.value.subscribers ≡ r ∷ rest
    → let (result, s') = announce_recv_error e s in
      (result ≡ ok tt)
      × (announce_closed s' ≡ returned (err e))
      × ((announce_drop namespace s').0 ≡ none)
      × (announce_subscribed s' ≡ (returned (ok none), s'))
unfolding announce_recv_error announce_closed announce_drop announce_subscribed announce_end
    lock_mut commit notify state_drop modified
announce_recv_error-waiting e namespace r rest s live unclosed waits =
    (ground arith, ground arith, ground arith, ground arith)
