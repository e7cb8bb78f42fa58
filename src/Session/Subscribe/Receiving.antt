-- ===== src/Session/Subscribe/Receiving.antt =====
-- moq-transport/src/session/subscribe.rs: how long a subscription takes data.
use linode_moq.Prelude.{
  ℕ, false, ◌≡◌, ◌≢◌, refl, sym, ap, ◌∙◌, Option, none, some, arith, ◌⊎◌, subst,
}
use linode_moq.Coding.Outcome.{Outcome, ok, err, panic}
use linode_moq.Data.TrackHeader.{TrackHeader}
use linode_moq.Data.SubgroupHeader.{SubgroupHeader}
use linode_moq.Data.Datagram.{Datagram}
use linode_moq.Watch.State.{StateInner, lock_mut, commit, notify, state_drop, returned}
use linode_moq.Serve.Error.{ServeError, duplicate, done}
use linode_moq.Serve.Info.{Subgroup}
use linode_moq.Serve.Subgroup.Group.{SubgroupWriter, SubgroupReader}
use linode_moq.Serve.Subgroup.Groups.{SubgroupsWriter, subgroups_create}
use linode_moq.Serve.Subgroup.Groups.Newest.{writer_of}
use linode_moq.Serve.Subgroup.Groups.Appending.{subgroups_create-duplicate}
use linode_moq.Serve.Datagrams.{DatagramsWriter, DatagramsState}
use linode_moq.Serve.Track.Writers.{
  TrackWriterMode, track, stream, subgroups, objects, datagrams, Store,
}
use linode_moq.Session.Subscribe.{
  SubscribeRecv, SubscribeState, subscribe_recv_track, subscribe_recv_subgroup,
  subscribe_recv_datagram, subscribe_recv_ok, subscribe_recv_close, subscribe_closed,
  recv_subgroup_mode, recv_datagram_mode, create_subgroup, write_datagram, with_datagrams,
}

-- A receiving side that takes nothing any more: every data stream and every datagram gets `Done`.
abbrev pub IsDone : SubscribeRecv → Type 0
IsDone r =
    ((h : TrackHeader) (st : Store) → (subscribe_recv_track h r st).0 ≡ err done)
    × ((h : SubgroupHeader) (st : Store) → (subscribe_recv_subgroup h r st).0 ≡ err done)
    × ((d : Datagram) (st : Store) → (subscribe_recv_datagram d r st).0 ≡ err done)

emptied-IsDone : (r : SubscribeRecv) → r.writer ≡ none → IsDone r
unfolding subscribe_recv_track subscribe_recv_subgroup subscribe_recv_datagram
emptied-IsDone r e = (λ h st. rw e refl, λ h st. rw e refl, λ d st. rw e refl)

datagrams_opened :
    (d : Datagram) (opened : Outcome ServeError (DatagramsWriter × StateInner DatagramsState))
    (st : Store)
    → (with_datagrams d opened st).1.writer ≡ none
unfolding write_datagram
datagrams_opened d (ok (w, new)) st = refl
datagrams_opened d (err e) st = refl
datagrams_opened d panic st = refl

datagram_mode-emptied :
    (d : Datagram) (w : TrackWriterMode) (st : Store) → (recv_datagram_mode d w st).1.writer ≡ none
unfolding recv_datagram_mode write_datagram
datagram_mode-emptied d (track w) st = datagrams_opened d _ _
datagram_mode-emptied d (stream a w) st = refl
datagram_mode-emptied d (subgroups a w) st = refl
datagram_mode-emptied d (objects a w) st = refl
datagram_mode-emptied d (datagrams a w) st = refl

datagram-emptied :
    (d : Datagram) (r : SubscribeRecv) (w : Option TrackWriterMode) (st : Store)
    → r.writer ≡ w
    → (subscribe_recv_datagram d r st).1.writer ≡ none
unfolding subscribe_recv_datagram
datagram-emptied d r none st e = rw e refl
datagram-emptied d r (some w) st e = rw e (datagram_mode-emptied d w st)

-- A subscription takes one datagram at most. Whatever comes of it, every data stream and every datagram
-- after it gets `Done`.
pub subscribe_recv_datagram-IsDone :
    (d : Datagram) (r : SubscribeRecv) (st : Store) → IsDone (subscribe_recv_datagram d r st).1
subscribe_recv_datagram-IsDone d r st = emptied-IsDone _ (datagram-emptied d r r.writer st refl)

-- The subgroup of a header.
abbrev pub asked : SubgroupHeader → Subgroup
asked h = record {
  group_id = h.group_id;
  subgroup_id = h.subgroup_id;
  priority = h.publisher_priority;
}

-- What a further data stream of a subscription to subgroups comes to, by the result of the creation.
create_subgroup-result :
    (h : SubgroupHeader) (a : ℕ) (w : SubgroupsWriter) (st : Store)
    (result : Outcome ServeError SubgroupWriter)
    → (subgroups_create st.next (asked h) w (st.subgroups_of a)).result ≡ result
    → (create_subgroup h a w st).0 ≡ result
unfolding create_subgroup
create_subgroup-result h a w st (ok writer) e = rw (create_subgroup, e) refl
create_subgroup-result h a w st (err f) e = rw (create_subgroup, e) refl
create_subgroup-result h a w st panic e = rw (create_subgroup, e) refl

create_subgroup-kept :
    (h : SubgroupHeader) (a : ℕ) (w : SubgroupsWriter) (st : Store) (writer : SubgroupWriter)
    → (subgroups_create st.next (asked h) w (st.subgroups_of a)).result ≡ ok writer
    → (w' : SubgroupsWriter) × ((create_subgroup h a w st).1.writer ≡ some (subgroups a w'))
unfolding create_subgroup
create_subgroup-kept h a w st writer e = (
  (subgroups_create st.next (asked h) w (st.subgroups_of a)).writer,
  rw (create_subgroup, e) refl,
)

create_subgroup-lost :
    (h : SubgroupHeader) (a : ℕ) (w : SubgroupsWriter) (st : Store) (f : ServeError)
    → (subgroups_create st.next (asked h) w (st.subgroups_of a)).result ≡ err f
    → (create_subgroup h a w st).1.writer ≡ none
unfolding create_subgroup
create_subgroup-lost h a w st f e = rw (create_subgroup, e) refl

subgroups-mode :
    (h : SubgroupHeader) (r : SubscribeRecv) (a : ℕ) (w : SubgroupsWriter) (st : Store)
    → r.writer ≡ some (subgroups a w)
    → subscribe_recv_subgroup h r st ≡ create_subgroup h a w st
unfolding subscribe_recv_subgroup recv_subgroup_mode
subgroups-mode h r a w st e = rw e refl

-- A subscription to subgroups whose track is live takes any data stream that does not repeat the ids of
-- the latest subgroup, and goes on with the same subgroups. One that repeats them is refused as a
-- duplicate and ends the subscription: all data after it gets `Done`.
pub subscribe_recv_subgroup-duplicate :
    (h : SubgroupHeader) (r : SubscribeRecv) (a : ℕ) (w : SubgroupsWriter) (l : SubgroupReader)
    (st : Store)
    → r.writer ≡ some (subgroups a w)
    → lock_mut (st.subgroups_of a) ≡ some (st.subgroups_of a).value
    → (st.subgroups_of a).value.latest ≡ some l
    → let (result, r', st') = subscribe_recv_subgroup h r st in
      ((h.group_id ≢ l.info.group_id) ⊎ (h.subgroup_id ≢ l.info.subgroup_id)
        → (result ≡ ok (writer_of st.next (asked h) w))
          × ((w' : SubgroupsWriter) × (r'.writer ≡ some (subgroups a w'))))
      × ((h.group_id ≡ l.info.group_id) × (h.subgroup_id ≡ l.info.subgroup_id)
          → (result ≡ err duplicate) × IsDone r')
subscribe_recv_subgroup-duplicate h r a w l st e live newest =
    let m = subgroups-mode h r a w st e in
    let (same, other) =
      subgroups_create-duplicate st.next (asked h) l w (st.subgroups_of a) live newest in
    (
      λ p. (
        ap (λ x. x.0) m ∙ create_subgroup-result h a w st _ (other p),
        subst (λ x. (w' : SubgroupsWriter) × (x.1.writer ≡ some (subgroups a w'))) (sym m)
            (create_subgroup-kept h a w st _ (other p)),
      ),
      λ p. (
        ap (λ x. x.0) m ∙ create_subgroup-result h a w st _ (same p),
        emptied-IsDone _ (ap (λ x. x.1.writer) m ∙ create_subgroup-lost h a w st _ (same p)),
      ),
    )

-- On a live subscription the first SUBSCRIBE_OK is taken and any further one is refused as a duplicate.
-- An error that closes it, before or after, is what the application that waits for its end gets.
pub subscribe_recv_ok-twice :
    (e : ServeError) (s : StateInner SubscribeState)
    → lock_mut s ≡ some s.value
    → s.value.is_ok ≡ false
    → s.value.closed ≡ none
    → let (first, s') = subscribe_recv_ok s in
      (first ≡ ok tt)
      × ((subscribe_recv_ok s').0 ≡ err duplicate)
      × (subscribe_closed (subscribe_recv_close e s').1 ≡ returned (err e))
      × (subscribe_closed (subscribe_recv_close e s).1 ≡ returned (err e))
unfolding subscribe_recv_ok subscribe_recv_close subscribe_closed lock_mut commit notify state_drop
subscribe_recv_ok-twice e s live fresh unclosed =
    (ground arith, ground arith, ground arith, ground arith)
