-- ===== src/Message/Union/Decoding.antt =====
-- `Message::decode` on the wire form and on a part of it.
use linode_moq.Coding.Framed.{framed_wire}
use linode_moq.Prelude.{append-nil}
use linode_moq.Coding.Buffer.{Buf}
use linode_moq.Coding.Decoder.{pure}
use linode_moq.Coding.Rules.Reads.{Reads, Reads-bind, Reads-last, Reads-pure}
use linode_moq.Coding.Rules.Parses.{Parses, Parses-bind, Parses-last, Parses-pure}
use linode_moq.Coding.Varint.Integers.{u64_decode-Parses}
use linode_moq.Message.Union.{
  Message, message_id, body_decode, message_decode, subscribe_update, subscribe, unsubscribe,
  subscribe_ok, subscribe_error, subscribe_done, max_subscribe_id, announce, unannounce,
  announce_ok, announce_error, announce_cancel, track_status_request, track_status, go_away,
  subscribe_namespace, subscribe_namespace_ok, subscribe_namespace_error, unsubscribe_namespace,
  fetch, fetch_cancel, fetch_ok, fetch_error,
}
use linode_moq.Message.Union.Format.{BodyFits, MessageFits, IsStreamable, body_wire, message_wire}
use linode_moq.Message.Union.Encoding.{message_id-IsVarint}
use linode_moq.Message.SubscribeUpdate.{
  subscribe_update_decode-Parses, subscribe_update_decode-Reads,
}
use linode_moq.Message.Subscribe.{subscribe_decode-Parses, subscribe_decode-Reads}
use linode_moq.Message.Unsubscribe.{unsubscribe_decode-Parses}
use linode_moq.Message.SubscribeOk.{subscribe_ok_decode-Parses}
use linode_moq.Message.SubscribeError.{subscribe_error_decode-Parses}
use linode_moq.Message.SubscribeDone.{subscribe_done_decode-Parses}
use linode_moq.Message.MaxSubscribeId.{max_subscribe_id_decode-Parses}
use linode_moq.Message.Announce.{announce_decode-Parses}
use linode_moq.Message.Unannounce.{unannounce_decode-Parses}
use linode_moq.Message.AnnounceOk.{announce_ok_decode-Parses}
use linode_moq.Message.AnnounceError.{announce_error_decode-Parses}
use linode_moq.Message.AnnounceCancel.{announce_cancel_decode-Parses}
use linode_moq.Message.TrackStatusRequest.{track_status_request_decode-Parses}
use linode_moq.Message.TrackStatus.{track_status_decode-Parses}
use linode_moq.Message.GoAway.{go_away_decode-Parses}
use linode_moq.Message.SubscribeNamespace.{subscribe_namespace_decode-Parses}
use linode_moq.Message.SubscribeNamespaceOk.{subscribe_namespace_ok_decode-Parses}
use linode_moq.Message.SubscribeNamespaceError.{subscribe_namespace_error_decode-Parses}
use linode_moq.Message.UnsubscribeNamespace.{unsubscribe_namespace_decode-Parses}
use linode_moq.Message.Fetch.{fetch_decode-Parses}
use linode_moq.Message.FetchCancel.{fetch_cancel_decode-Parses}
use linode_moq.Message.FetchOk.{fetch_ok_decode-Parses}
use linode_moq.Message.FetchError.{fetch_error_decode-Parses}

module _ {R : Type 0} ⦃b : Buf R⦄ where
  body_decode-Parses :
      (m : Message)
      → BodyFits m
      → IsStreamable m
      → Parses b (body_decode (message_id m)) (body_wire m) m
  unfolding body_decode message_id body_wire
  body_decode-Parses (subscribe_update m) h s =
      Parses-last (λ x. pure (subscribe_update x)) (subscribe_update_decode-Parses m h s)
        (Parses-pure _)
  body_decode-Parses (subscribe m) h s =
      Parses-last (λ x. pure (subscribe x)) (subscribe_decode-Parses m h s) (Parses-pure _)
  body_decode-Parses (unsubscribe m) h s =
      Parses-last (λ x. pure (unsubscribe x)) (unsubscribe_decode-Parses m h) (Parses-pure _)
  body_decode-Parses (subscribe_ok m) h s =
      Parses-last (λ x. pure (subscribe_ok x)) (subscribe_ok_decode-Parses m h) (Parses-pure _)
  body_decode-Parses (subscribe_error m) h s =
      Parses-last (λ x. pure (subscribe_error x)) (subscribe_error_decode-Parses m h)
        (Parses-pure _)
  body_decode-Parses (subscribe_done m) h s =
      Parses-last (λ x. pure (subscribe_done x)) (subscribe_done_decode-Parses m h) (Parses-pure _)
  body_decode-Parses (max_subscribe_id m) h s =
      Parses-last (λ x. pure (max_subscribe_id x)) (max_subscribe_id_decode-Parses m h)
        (Parses-pure _)
  body_decode-Parses (announce m) h s =
      Parses-last (λ x. pure (announce x)) (announce_decode-Parses m h) (Parses-pure _)
  body_decode-Parses (unannounce m) h s =
      Parses-last (λ x. pure (unannounce x)) (unannounce_decode-Parses m h) (Parses-pure _)
  body_decode-Parses (announce_ok m) h s =
      Parses-last (λ x. pure (announce_ok x)) (announce_ok_decode-Parses m h) (Parses-pure _)
  body_decode-Parses (announce_error m) h s =
      Parses-last (λ x. pure (announce_error x)) (announce_error_decode-Parses m h) (Parses-pure _)
  body_decode-Parses (announce_cancel m) h s =
      Parses-last (λ x. pure (announce_cancel x)) (announce_cancel_decode-Parses m h)
        (Parses-pure _)
  body_decode-Parses (track_status_request m) h s =
      Parses-last (λ x. pure (track_status_request x)) (track_status_request_decode-Parses m h)
        (Parses-pure _)
  body_decode-Parses (track_status m) h s =
      Parses-last (λ x. pure (track_status x)) (track_status_decode-Parses m h) (Parses-pure _)
  body_decode-Parses (go_away m) h s =
      Parses-last (λ x. pure (go_away x)) (go_away_decode-Parses m h) (Parses-pure _)
  body_decode-Parses (subscribe_namespace m) h s =
      Parses-last (λ x. pure (subscribe_namespace x)) (subscribe_namespace_decode-Parses m h)
        (Parses-pure _)
  body_decode-Parses (subscribe_namespace_ok m) h s =
      Parses-last (λ x. pure (subscribe_namespace_ok x)) (subscribe_namespace_ok_decode-Parses m h)
        (Parses-pure _)
  body_decode-Parses (subscribe_namespace_error m) h s =
      Parses-last (λ x. pure (subscribe_namespace_error x))
        (subscribe_namespace_error_decode-Parses m h) (Parses-pure _)
  body_decode-Parses (unsubscribe_namespace m) h s =
      Parses-last (λ x. pure (unsubscribe_namespace x)) (unsubscribe_namespace_decode-Parses m h)
        (Parses-pure _)
  body_decode-Parses (fetch m) h s =
      Parses-last (λ x. pure (fetch x)) (fetch_decode-Parses m h) (Parses-pure _)
  body_decode-Parses (fetch_cancel m) h s =
      Parses-last (λ x. pure (fetch_cancel x)) (fetch_cancel_decode-Parses m h) (Parses-pure _)
  body_decode-Parses (fetch_ok m) h s =
      Parses-last (λ x. pure (fetch_ok x)) (fetch_ok_decode-Parses m h) (Parses-pure _)
  body_decode-Parses (fetch_error m) h s =
      Parses-last (λ x. pure (fetch_error x)) (fetch_error_decode-Parses m h) (Parses-pure _)

  body_decode-Reads :
      (m : Message) → BodyFits m → Reads b (body_decode (message_id m)) (body_wire m) m
  unfolding body_decode message_id body_wire
  body_decode-Reads (subscribe_update m) h =
      Reads-last (λ x. pure (subscribe_update x)) (subscribe_update_decode-Reads m h) (Reads-pure _)
  body_decode-Reads (subscribe m) h =
      Reads-last (λ x. pure (subscribe x)) (subscribe_decode-Reads m h) (Reads-pure _)
  body_decode-Reads m h = (body_decode-Parses m h tt).reads

  pub message_decode-Reads :
      (m : Message) → MessageFits m → Reads b message_decode (message_wire m) m
  unfolding message_decode message_wire framed_wire
  message_decode-Reads m h =
      Reads-bind _ (u64_decode-Parses _ (message_id-IsVarint m)).reads (
        Reads-bind _ (u64_decode-Parses _ h.size).reads
          (rw append-nil (body_decode-Reads m h.body)))

  pub message_decode-Parses :
      (m : Message) → MessageFits m → IsStreamable m → Parses b message_decode (message_wire m) m
  unfolding message_decode message_wire framed_wire
  message_decode-Parses m h s =
      Parses-bind _ (u64_decode-Parses _ (message_id-IsVarint m))
        (Parses-bind _ (u64_decode-Parses _ h.size) (rw append-nil (body_decode-Parses m h.body s)))
