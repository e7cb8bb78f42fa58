-- ===== src/Message/Sides.antt =====
-- moq-transport/src/message/publisher.rs and moq-transport/src/message/subscriber.rs: the messages that
-- a publisher sends, and those that a subscriber sends.
use linode_moq.Prelude.{◌≡◌, refl, ◌⊎◌, inl, inr}
use linode_moq.Coding.Outcome.{Outcome, ok, err}
use linode_moq.Message.Union.{Message}
use linode_moq.Message.Announce.{Announce}
use linode_moq.Message.AnnounceCancel.{AnnounceCancel}
use linode_moq.Message.AnnounceError.{AnnounceError}
use linode_moq.Message.AnnounceOk.{AnnounceOk}
use linode_moq.Message.Fetch.{Fetch}
use linode_moq.Message.FetchCancel.{FetchCancel}
use linode_moq.Message.FetchError.{FetchError}
use linode_moq.Message.FetchOk.{FetchOk}
use linode_moq.Message.GoAway.{GoAway}
use linode_moq.Message.MaxSubscribeId.{MaxSubscribeId}
use linode_moq.Message.Subscribe.{Subscribe}
use linode_moq.Message.SubscribeDone.{SubscribeDone}
use linode_moq.Message.SubscribeError.{SubscribeError}
use linode_moq.Message.SubscribeNamespace.{SubscribeNamespace}
use linode_moq.Message.SubscribeNamespaceError.{SubscribeNamespaceError}
use linode_moq.Message.SubscribeNamespaceOk.{SubscribeNamespaceOk}
use linode_moq.Message.SubscribeOk.{SubscribeOk}
use linode_moq.Message.SubscribeUpdate.{SubscribeUpdate}
use linode_moq.Message.TrackStatus.{TrackStatus}
use linode_moq.Message.TrackStatusRequest.{TrackStatusRequest}
use linode_moq.Message.Unannounce.{Unannounce}
use linode_moq.Message.Unsubscribe.{Unsubscribe}
use linode_moq.Message.UnsubscribeNamespace.{UnsubscribeNamespace}

pub data Publisher : Type 0 where
  announce : Announce → Publisher
  unannounce : Unannounce → Publisher
  subscribe_ok : SubscribeOk → Publisher
  subscribe_error : SubscribeError → Publisher
  subscribe_done : SubscribeDone → Publisher
  max_subscribe_id : MaxSubscribeId → Publisher
  track_status : TrackStatus → Publisher
  fetch_ok : FetchOk → Publisher
  fetch_error : FetchError → Publisher

-- `From<Publisher> for Message`
unfoldable pub publisher_message : Publisher → Message
publisher_message (Publisher.announce m) = Message.announce m
publisher_message (Publisher.unannounce m) = Message.unannounce m
publisher_message (Publisher.subscribe_ok m) = Message.subscribe_ok m
publisher_message (Publisher.subscribe_error m) = Message.subscribe_error m
publisher_message (Publisher.subscribe_done m) = Message.subscribe_done m
publisher_message (Publisher.max_subscribe_id m) = Message.max_subscribe_id m
publisher_message (Publisher.track_status m) = Message.track_status m
publisher_message (Publisher.fetch_ok m) = Message.fetch_ok m
publisher_message (Publisher.fetch_error m) = Message.fetch_error m

-- `TryFrom<Message> for Publisher`: another message comes back as the error.
unfoldable pub publisher_try_from : Message → Outcome Message Publisher
publisher_try_from (Message.announce m) = ok (Publisher.announce m)
publisher_try_from (Message.unannounce m) = ok (Publisher.unannounce m)
publisher_try_from (Message.subscribe_ok m) = ok (Publisher.subscribe_ok m)
publisher_try_from (Message.subscribe_error m) = ok (Publisher.subscribe_error m)
publisher_try_from (Message.subscribe_done m) = ok (Publisher.subscribe_done m)
publisher_try_from (Message.max_subscribe_id m) = ok (Publisher.max_subscribe_id m)
publisher_try_from (Message.track_status m) = ok (Publisher.track_status m)
publisher_try_from (Message.fetch_ok m) = ok (Publisher.fetch_ok m)
publisher_try_from (Message.fetch_error m) = ok (Publisher.fetch_error m)
publisher_try_from m = err m

pub data Subscriber : Type 0 where
  announce_ok : AnnounceOk → Subscriber
  announce_error : AnnounceError → Subscriber
  announce_cancel : AnnounceCancel → Subscriber
  subscribe : Subscribe → Subscriber
  unsubscribe : Unsubscribe → Subscriber
  subscribe_update : SubscribeUpdate → Subscriber
  track_status_request : TrackStatusRequest → Subscriber
  subscribe_namespace : SubscribeNamespace → Subscriber
  subscribe_namespace_ok : SubscribeNamespaceOk → Subscriber
  subscribe_namespace_error : SubscribeNamespaceError → Subscriber
  unsubscribe_namespace : UnsubscribeNamespace → Subscriber
  fetch : Fetch → Subscriber
  fetch_cancel : FetchCancel → Subscriber

-- `From<Subscriber> for Message`
unfoldable pub subscriber_message : Subscriber → Message
subscriber_message (Subscriber.announce_ok m) = Message.announce_ok m
subscriber_message (Subscriber.announce_error m) = Message.announce_error m
subscriber_message (Subscriber.announce_cancel m) = Message.announce_cancel m
subscriber_message (Subscriber.subscribe m) = Message.subscribe m
subscriber_message (Subscriber.unsubscribe m) = Message.unsubscribe m
subscriber_message (Subscriber.subscribe_update m) = Message.subscribe_update m
subscriber_message (Subscriber.track_status_request m) = Message.track_status_request m
subscriber_message (Subscriber.subscribe_namespace m) = Message.subscribe_namespace m
subscriber_message (Subscriber.subscribe_namespace_ok m) = Message.subscribe_namespace_ok m
subscriber_message (Subscriber.subscribe_namespace_error m) = Message.subscribe_namespace_error m
subscriber_message (Subscriber.unsubscribe_namespace m) = Message.unsubscribe_namespace m
subscriber_message (Subscriber.fetch m) = Message.fetch m
subscriber_message (Subscriber.fetch_cancel m) = Message.fetch_cancel m

-- `TryFrom<Message> for Subscriber`: another message comes back as the error.
unfoldable pub subscriber_try_from : Message → Outcome Message Subscriber
subscriber_try_from (Message.announce_ok m) = ok (Subscriber.announce_ok m)
subscriber_try_from (Message.announce_error m) = ok (Subscriber.announce_error m)
subscriber_try_from (Message.announce_cancel m) = ok (Subscriber.announce_cancel m)
subscriber_try_from (Message.subscribe m) = ok (Subscriber.subscribe m)
subscriber_try_from (Message.unsubscribe m) = ok (Subscriber.unsubscribe m)
subscriber_try_from (Message.subscribe_update m) = ok (Subscriber.subscribe_update m)
subscriber_try_from (Message.track_status_request m) = ok (Subscriber.track_status_request m)
subscriber_try_from (Message.subscribe_namespace m) = ok (Subscriber.subscribe_namespace m)
subscriber_try_from (Message.subscribe_namespace_ok m) = ok (Subscriber.subscribe_namespace_ok m)
subscriber_try_from (Message.subscribe_namespace_error m) =
    ok (Subscriber.subscribe_namespace_error m)
subscriber_try_from (Message.unsubscribe_namespace m) = ok (Subscriber.unsubscribe_namespace m)
subscriber_try_from (Message.fetch m) = ok (Subscriber.fetch m)
subscriber_try_from (Message.fetch_cancel m) = ok (Subscriber.fetch_cancel m)
subscriber_try_from m = err m

-- Which side a message belongs to: it is one of a publisher and of no subscriber, or the other way
-- around, or it is GOAWAY, which is neither.
abbrev pub IsSorted : Message → Type 0
IsSorted m =
    ((p : Publisher) × (publisher_try_from m ≡ ok p)
      × (publisher_message p ≡ m)
      × (subscriber_try_from m ≡ err m))
    ⊎ ((s : Subscriber) × (subscriber_try_from m ≡ ok s)
        × (subscriber_message s ≡ m)
        × (publisher_try_from m ≡ err m))
    ⊎ ((publisher_try_from m ≡ err m)
        × (subscriber_try_from m ≡ err m)
        × ((g : GoAway) × (m ≡ Message.go_away g)))

-- Every message but GOAWAY belongs to exactly one of the two sides, and is the same again when it is
-- turned back into a message; GOAWAY belongs to neither.
pub try_from-IsSorted : (m : Message) → IsSorted m
unfolding publisher_try_from publisher_message subscriber_try_from subscriber_message
try_from-IsSorted (Message.subscribe_update m) =
    inr (inl (Subscriber.subscribe_update m, refl, refl, refl))
try_from-IsSorted (Message.subscribe m) = inr (inl (Subscriber.subscribe m, refl, refl, refl))
try_from-IsSorted (Message.unsubscribe m) = inr (inl (Subscriber.unsubscribe m, refl, refl, refl))
try_from-IsSorted (Message.subscribe_ok m) = inl (Publisher.subscribe_ok m, refl, refl, refl)
try_from-IsSorted (Message.subscribe_error m) = inl (Publisher.subscribe_error m, refl, refl, refl)
try_from-IsSorted (Message.subscribe_done m) = inl (Publisher.subscribe_done m, refl, refl, refl)
try_from-IsSorted (Message.max_subscribe_id m) =
    inl (Publisher.max_subscribe_id m, refl, refl, refl)
try_from-IsSorted (Message.announce m) = inl (Publisher.announce m, refl, refl, refl)
try_from-IsSorted (Message.unannounce m) = inl (Publisher.unannounce m, refl, refl, refl)
try_from-IsSorted (Message.announce_ok m) = inr (inl (Subscriber.announce_ok m, refl, refl, refl))
try_from-IsSorted (Message.announce_error m) =
    inr (inl (Subscriber.announce_error m, refl, refl, refl))
try_from-IsSorted (Message.announce_cancel m) =
    inr (inl (Subscriber.announce_cancel m, refl, refl, refl))
try_from-IsSorted (Message.track_status_request m) =
    inr (inl (Subscriber.track_status_request m, refl, refl, refl))
try_from-IsSorted (Message.track_status m) = inl (Publisher.track_status m, refl, refl, refl)
try_from-IsSorted (Message.go_away m) = inr (inr (refl, refl, (m, refl)))
try_from-IsSorted (Message.subscribe_namespace m) =
    inr (inl (Subscriber.subscribe_namespace m, refl, refl, refl))
try_from-IsSorted (Message.subscribe_namespace_ok m) =
    inr (inl (Subscriber.subscribe_namespace_ok m, refl, refl, refl))
try_from-IsSorted (Message.subscribe_namespace_error m) =
    inr (inl (Subscriber.subscribe_namespace_error m, refl, refl, refl))
try_from-IsSorted (Message.unsubscribe_namespace m) =
    inr (inl (Subscriber.unsubscribe_namespace m, refl, refl, refl))
try_from-IsSorted (Message.fetch m) = inr (inl (Subscriber.fetch m, refl, refl, refl))
try_from-IsSorted (Message.fetch_cancel m) = inr (inl (Subscriber.fetch_cancel m, refl, refl, refl))
try_from-IsSorted (Message.fetch_ok m) = inl (Publisher.fetch_ok m, refl, refl, refl)
try_from-IsSorted (Message.fetch_error m) = inl (Publisher.fetch_error m, refl, refl, refl)

publisher-back : (p : Publisher) → publisher_try_from (publisher_message p) ≡ ok p
unfolding publisher_try_from publisher_message
publisher-back (Publisher.announce m) = refl
publisher-back (Publisher.unannounce m) = refl
publisher-back (Publisher.subscribe_ok m) = refl
publisher-back (Publisher.subscribe_error m) = refl
publisher-back (Publisher.subscribe_done m) = refl
publisher-back (Publisher.max_subscribe_id m) = refl
publisher-back (Publisher.track_status m) = refl
publisher-back (Publisher.fetch_ok m) = refl
publisher-back (Publisher.fetch_error m) = refl

subscriber-back : (p : Subscriber) → subscriber_try_from (subscriber_message p) ≡ ok p
unfolding subscriber_try_from subscriber_message
subscriber-back (Subscriber.announce_ok m) = refl
subscriber-back (Subscriber.announce_error m) = refl
subscriber-back (Subscriber.announce_cancel m) = refl
subscriber-back (Subscriber.subscribe m) = refl
subscriber-back (Subscriber.unsubscribe m) = refl
subscriber-back (Subscriber.subscribe_update m) = refl
subscriber-back (Subscriber.track_status_request m) = refl
subscriber-back (Subscriber.subscribe_namespace m) = refl
subscriber-back (Subscriber.subscribe_namespace_ok m) = refl
subscriber-back (Subscriber.subscribe_namespace_error m) = refl
subscriber-back (Subscriber.unsubscribe_namespace m) = refl
subscriber-back (Subscriber.fetch m) = refl
subscriber-back (Subscriber.fetch_cancel m) = refl

-- A message of either side is got back from the message that it becomes.
pub try_from-message :
    (p : Publisher) (s : Subscriber)
    → (publisher_try_from (publisher_message p) ≡ ok p)
      × (subscriber_try_from (subscriber_message s) ≡ ok s)
try_from-message p s = (publisher-back p, subscriber-back s)
