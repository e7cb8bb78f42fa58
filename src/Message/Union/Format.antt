-- ===== src/Message/Union/Format.antt =====
-- The wire form of a control message, and which messages have one.
use linode_moq.Coding.Framed.{framed_wire}
use linode_moq.Prelude.{ℕ, List, ◌++◌, ◌≡◌, false, length}
use linode_moq.Coding.Varint.Format.{IsVarint, varint_wire}
use linode_moq.Message.SubscribeRange.{is_absolute}
use linode_moq.Message.Union.{
  Message, message_id, subscribe_update, subscribe, unsubscribe, subscribe_ok, subscribe_error,
  subscribe_done, max_subscribe_id, announce, unannounce, announce_ok, announce_error,
  announce_cancel, track_status_request, track_status, go_away, subscribe_namespace,
  subscribe_namespace_ok, subscribe_namespace_error, unsubscribe_namespace, fetch, fetch_cancel,
  fetch_ok, fetch_error,
}
use linode_moq.Message.SubscribeUpdate.{
  SubscribeUpdateFits, subscribe_update_wire, SubscribeUpdateReceived,
}
use linode_moq.Message.Subscribe.{SubscribeFits, subscribe_wire, SubscribeReceived}
use linode_moq.Message.Unsubscribe.{UnsubscribeFits, unsubscribe_wire}
use linode_moq.Message.SubscribeOk.{SubscribeOkFits, subscribe_ok_wire}
use linode_moq.Message.SubscribeError.{SubscribeErrorFits, subscribe_error_wire}
use linode_moq.Message.SubscribeDone.{SubscribeDoneFits, subscribe_done_wire}
use linode_moq.Message.MaxSubscribeId.{MaxSubscribeIdFits, max_subscribe_id_wire}
use linode_moq.Message.Announce.{AnnounceFits, announce_wire}
use linode_moq.Message.Unannounce.{UnannounceFits, unannounce_wire}
use linode_moq.Message.AnnounceOk.{AnnounceOkFits, announce_ok_wire}
use linode_moq.Message.AnnounceError.{AnnounceErrorFits, announce_error_wire}
use linode_moq.Message.AnnounceCancel.{AnnounceCancelFits, announce_cancel_wire}
use linode_moq.Message.TrackStatusRequest.{TrackStatusRequestFits, track_status_request_wire}
use linode_moq.Message.TrackStatus.{TrackStatusFits, track_status_wire}
use linode_moq.Message.GoAway.{GoAwayFits, go_away_wire}
use linode_moq.Message.SubscribeNamespace.{SubscribeNamespaceFits, subscribe_namespace_wire}
use linode_moq.Message.SubscribeNamespaceOk.{SubscribeNamespaceOkFits, subscribe_namespace_ok_wire}
use linode_moq.Message.SubscribeNamespaceError.{
  SubscribeNamespaceErrorFits, subscribe_namespace_error_wire,
}
use linode_moq.Message.UnsubscribeNamespace.{UnsubscribeNamespaceFits, unsubscribe_namespace_wire}
use linode_moq.Message.Fetch.{FetchFits, fetch_wire}
use linode_moq.Message.FetchCancel.{FetchCancelFits, fetch_cancel_wire}
use linode_moq.Message.FetchOk.{FetchOkFits, fetch_ok_wire}
use linode_moq.Message.FetchError.{FetchErrorFits, fetch_error_wire}

abbrev pub BodyFits : Message → Type 0
BodyFits (subscribe_update m) = SubscribeUpdateFits m
BodyFits (subscribe m) = SubscribeFits m
BodyFits (unsubscribe m) = UnsubscribeFits m
BodyFits (subscribe_ok m) = SubscribeOkFits m
BodyFits (subscribe_error m) = SubscribeErrorFits m
BodyFits (subscribe_done m) = SubscribeDoneFits m
BodyFits (max_subscribe_id m) = MaxSubscribeIdFits m
BodyFits (announce m) = AnnounceFits m
BodyFits (unannounce m) = UnannounceFits m
BodyFits (announce_ok m) = AnnounceOkFits m
BodyFits (announce_error m) = AnnounceErrorFits m
BodyFits (announce_cancel m) = AnnounceCancelFits m
BodyFits (track_status_request m) = TrackStatusRequestFits m
BodyFits (track_status m) = TrackStatusFits m
BodyFits (go_away m) = GoAwayFits m
BodyFits (subscribe_namespace m) = SubscribeNamespaceFits m
BodyFits (subscribe_namespace_ok m) = SubscribeNamespaceOkFits m
BodyFits (subscribe_namespace_error m) = SubscribeNamespaceErrorFits m
BodyFits (unsubscribe_namespace m) = UnsubscribeNamespaceFits m
BodyFits (fetch m) = FetchFits m
BodyFits (fetch_cancel m) = FetchCancelFits m
BodyFits (fetch_ok m) = FetchOkFits m
BodyFits (fetch_error m) = FetchErrorFits m

unfoldable pub body_wire : Message → List ℕ
body_wire (subscribe_update m) = subscribe_update_wire m
body_wire (subscribe m) = subscribe_wire m
body_wire (unsubscribe m) = unsubscribe_wire m
body_wire (subscribe_ok m) = subscribe_ok_wire m
body_wire (subscribe_error m) = subscribe_error_wire m
body_wire (subscribe_done m) = subscribe_done_wire m
body_wire (max_subscribe_id m) = max_subscribe_id_wire m
body_wire (announce m) = announce_wire m
body_wire (unannounce m) = unannounce_wire m
body_wire (announce_ok m) = announce_ok_wire m
body_wire (announce_error m) = announce_error_wire m
body_wire (announce_cancel m) = announce_cancel_wire m
body_wire (track_status_request m) = track_status_request_wire m
body_wire (track_status m) = track_status_wire m
body_wire (go_away m) = go_away_wire m
body_wire (subscribe_namespace m) = subscribe_namespace_wire m
body_wire (subscribe_namespace_ok m) = subscribe_namespace_ok_wire m
body_wire (subscribe_namespace_error m) = subscribe_namespace_error_wire m
body_wire (unsubscribe_namespace m) = unsubscribe_namespace_wire m
body_wire (fetch m) = fetch_wire m
body_wire (fetch_cancel m) = fetch_cancel_wire m
body_wire (fetch_ok m) = fetch_ok_wire m
body_wire (fetch_error m) = fetch_error_wire m

-- The body fits its format, and its length fits 62 bits.
pub record MessageFits (m : Message) : Type 0 where
  pub body : BodyFits m
  pub size : IsVarint (length (body_wire m))

unfoldable pub message_wire : Message → List ℕ
message_wire m = varint_wire (message_id m) ++ framed_wire (body_wire m)

-- No subscription from or up to a place in the past: such a one is not read incrementally.
abbrev pub IsStreamable : Message → Type 0
IsStreamable (subscribe_update m) = is_absolute m.filter_type ≡ false
IsStreamable (subscribe m) = is_absolute m.filter_type ≡ false
IsStreamable _ = Unit

-- What the decoder returns.
abbrev pub MessageReceived : Message → Type 0
MessageReceived (subscribe_update m) = SubscribeUpdateReceived m
MessageReceived (subscribe m) = SubscribeReceived m
MessageReceived m = BodyFits m
