-- ===== src/Message.antt =====
-- moq-transport/src/message: control messages.
pub mod Announce
pub mod AnnounceCancel
pub mod AnnounceError
pub mod AnnounceOk
pub mod Fetch
pub mod FetchCancel
pub mod FetchError
pub mod FetchOk
pub mod FilterType
pub mod GoAway
pub mod GroupOrder
pub mod Last
pub mod MaxSubscribeId
pub mod Subscribe
pub mod SubscribeDone
pub mod SubscribeError
pub mod SubscribeNamespace
pub mod SubscribeNamespaceError
pub mod SubscribeNamespaceOk
pub mod SubscribeOk
pub mod SubscribePair
pub mod SubscribeRange
pub mod SubscribeUpdate
pub mod TrackStatus
pub mod TrackStatusCode
pub mod TrackStatusRequest
pub mod Unannounce
pub mod Union
pub mod Sides
pub mod Unsubscribe
pub mod UnsubscribeNamespace
