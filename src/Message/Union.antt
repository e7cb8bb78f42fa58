-- ===== src/Message/Union.antt =====
-- `Message` of moq-transport/src/message/mod.rs: a control message with its type and length.
pub mod Format
pub mod Encoding
pub mod Decoding
pub mod Safety
pub mod Fragment
use linode_moq.Prelude.{ℕ, ◌==◌, if◌then◌else◌}
use linode_moq.Coding.Outcome.{DecodeError, EncodeError, Outcome, ok, err, panic}
use linode_moq.Coding.Buffer.{Buf, BufMut, VecBuf}
use linode_moq.Coding.Decoder.{Decoder, pure, fail, ◌>>=◌}
use linode_moq.Coding.Encoder.{Encoder, abort, ◌>>◌}
use linode_moq.Coding.Framed.{framed_bytes}
use linode_moq.Coding.Varint.{u64_encode, u64_decode}
use linode_moq.Message.SubscribeUpdate.{
  SubscribeUpdate, subscribe_update_encode, subscribe_update_decode,
}
use linode_moq.Message.Subscribe.{Subscribe, subscribe_encode, subscribe_decode}
use linode_moq.Message.Unsubscribe.{Unsubscribe, unsubscribe_encode, unsubscribe_decode}
use linode_moq.Message.SubscribeOk.{SubscribeOk, subscribe_ok_encode, subscribe_ok_decode}
use linode_moq.Message.SubscribeError.{
  SubscribeError, subscribe_error_encode, subscribe_error_decode,
}
use linode_moq.Message.SubscribeDone.{SubscribeDone, subscribe_done_encode, subscribe_done_decode}
use linode_moq.Message.MaxSubscribeId.{
  MaxSubscribeId, max_subscribe_id_encode, max_subscribe_id_decode,
}
use linode_moq.Message.Announce.{Announce, announce_encode, announce_decode}
use linode_moq.Message.Unannounce.{Unannounce, unannounce_encode, unannounce_decode}
use linode_moq.Message.AnnounceOk.{AnnounceOk, announce_ok_encode, announce_ok_decode}
use linode_moq.Message.AnnounceError.{AnnounceError, announce_error_encode, announce_error_decode}
use linode_moq.Message.AnnounceCancel.{
  AnnounceCancel, announce_cancel_encode, announce_cancel_decode,
}
use linode_moq.Message.TrackStatusRequest.{
  TrackStatusRequest, track_status_request_encode, track_status_request_decode,
}
use linode_moq.Message.TrackStatus.{TrackStatus, track_status_encode, track_status_decode}
use linode_moq.Message.GoAway.{GoAway, go_away_encode, go_away_decode}
use linode_moq.Message.SubscribeNamespace.{
  SubscribeNamespace, subscribe_namespace_encode, subscribe_namespace_decode,
}
use linode_moq.Message.SubscribeNamespaceOk.{
  SubscribeNamespaceOk, subscribe_namespace_ok_encode, subscribe_namespace_ok_decode,
}
use linode_moq.Message.SubscribeNamespaceError.{
  SubscribeNamespaceError, subscribe_namespace_error_encode, subscribe_namespace_error_decode,
}
use linode_moq.Message.UnsubscribeNamespace.{
  UnsubscribeNamespace, unsubscribe_namespace_encode, unsubscribe_namespace_decode,
}
use linode_moq.Message.Fetch.{Fetch, fetch_encode, fetch_decode}
use linode_moq.Message.FetchCancel.{FetchCancel, fetch_cancel_encode, fetch_cancel_decode}
use linode_moq.Message.FetchOk.{FetchOk, fetch_ok_encode, fetch_ok_decode}
use linode_moq.Message.FetchError.{FetchError, fetch_error_encode, fetch_error_decode}

pub data Message : Type 0 where
  subscribe_update : SubscribeUpdate → Message
  subscribe : Subscribe → Message
  unsubscribe : Unsubscribe → Message
  subscribe_ok : SubscribeOk → Message
  subscribe_error : SubscribeError → Message
  subscribe_done : SubscribeDone → Message
  max_subscribe_id : MaxSubscribeId → Message
  announce : Announce → Message
  unannounce : Unannounce → Message
  announce_ok : AnnounceOk → Message
  announce_error : AnnounceError → Message
  announce_cancel : AnnounceCancel → Message
  track_status_request : TrackStatusRequest → Message
  track_status : TrackStatus → Message
  go_away : GoAway → Message
  subscribe_namespace : SubscribeNamespace → Message
  subscribe_namespace_ok : SubscribeNamespaceOk → Message
  subscribe_namespace_error : SubscribeNamespaceError → Message
  unsubscribe_namespace : UnsubscribeNamespace → Message
  fetch : Fetch → Message
  fetch_cancel : FetchCancel → Message
  fetch_ok : FetchOk → Message
  fetch_error : FetchError → Message

-- `Message::id`
unfoldable pub message_id : Message → ℕ
message_id (subscribe_update m) = 0x2
message_id (subscribe m) = 0x3
message_id (unsubscribe m) = 0xa
message_id (subscribe_ok m) = 0x4
message_id (subscribe_error m) = 0x5
message_id (subscribe_done m) = 0xb
message_id (max_subscribe_id m) = 0x15
message_id (announce m) = 0x6
message_id (unannounce m) = 0x9
message_id (announce_ok m) = 0x7
message_id (announce_error m) = 0x8
message_id (announce_cancel m) = 0xc
message_id (track_status_request m) = 0xd
message_id (track_status m) = 0xe
message_id (go_away m) = 0x10
message_id (subscribe_namespace m) = 0x11
message_id (subscribe_namespace_ok m) = 0x12
message_id (subscribe_namespace_error m) = 0x13
message_id (unsubscribe_namespace m) = 0x14
message_id (fetch m) = 0x16
message_id (fetch_cancel m) = 0x17
message_id (fetch_ok m) = 0x18
message_id (fetch_error m) = 0x19

-- `m.encode`, in the arm of each type.
unfoldable pub body_encode : {W : Type 0} ⦃c : BufMut W⦄ → Message → Encoder W
body_encode (subscribe_update m) = subscribe_update_encode m
body_encode (subscribe m) = subscribe_encode m
body_encode (unsubscribe m) = unsubscribe_encode m
body_encode (subscribe_ok m) = subscribe_ok_encode m
body_encode (subscribe_error m) = subscribe_error_encode m
body_encode (subscribe_done m) = subscribe_done_encode m
body_encode (max_subscribe_id m) = max_subscribe_id_encode m
body_encode (announce m) = announce_encode m
body_encode (unannounce m) = unannounce_encode m
body_encode (announce_ok m) = announce_ok_encode m
body_encode (announce_error m) = announce_error_encode m
body_encode (announce_cancel m) = announce_cancel_encode m
body_encode (track_status_request m) = track_status_request_encode m
body_encode (track_status m) = track_status_encode m
body_encode (go_away m) = go_away_encode m
body_encode (subscribe_namespace m) = subscribe_namespace_encode m
body_encode (subscribe_namespace_ok m) = subscribe_namespace_ok_encode m
body_encode (subscribe_namespace_error m) = subscribe_namespace_error_encode m
body_encode (unsubscribe_namespace m) = unsubscribe_namespace_encode m
body_encode (fetch m) = fetch_encode m
body_encode (fetch_cancel m) = fetch_cancel_encode m
body_encode (fetch_ok m) = fetch_ok_encode m
body_encode (fetch_error m) = fetch_error_encode m

module _ {V W : Type 0} ⦃c : BufMut W⦄ (v : VecBuf V) where
  -- `m.encode(&mut buf).unwrap()`, and what follows it.
  framed : Outcome EncodeError V → Encoder W
  framed (ok buf) = framed_bytes (v.buf_mut.written buf)
  framed (err e) = abort
  framed panic = abort

  unfoldable pub message_encode : Message → Encoder W
  unfolding framed
  message_encode m = do u64_encode (message_id m); framed (body_encode ⦃c = v.buf_mut⦄ m v.new)

module _ {R : Type 0} ⦃b : Buf R⦄ where
  -- The match on the type.
  unfoldable pub body_decode : ℕ → Decoder R Message
  body_decode t =
      if t == 0x2
      then (do m ← subscribe_update_decode; pure (subscribe_update m))
      else if t == 0x3
      then (do m ← subscribe_decode; pure (subscribe m))
      else if t == 0xa
      then (do m ← unsubscribe_decode; pure (unsubscribe m))
      else if t == 0x4
      then (do m ← subscribe_ok_decode; pure (subscribe_ok m))
      else if t == 0x5
      then (do m ← subscribe_error_decode; pure (subscribe_error m))
      else if t == 0xb
      then (do m ← subscribe_done_decode; pure (subscribe_done m))
      else if t == 0x15
      then (do m ← max_subscribe_id_decode; pure (max_subscribe_id m))
      else if t == 0x6
      then (do m ← announce_decode; pure (announce m))
      else if t == 0x9
      then (do m ← unannounce_decode; pure (unannounce m))
      else if t == 0x7
      then (do m ← announce_ok_decode; pure (announce_ok m))
      else if t == 0x8
      then (do m ← announce_error_decode; pure (announce_error m))
      else if t == 0xc
      then (do m ← announce_cancel_decode; pure (announce_cancel m))
      else if t == 0xd
      then (do m ← track_status_request_decode; pure (track_status_request m))
      else if t == 0xe
      then (do m ← track_status_decode; pure (track_status m))
      else if t == 0x10
      then (do m ← go_away_decode; pure (go_away m))
      else if t == 0x11
      then (do m ← subscribe_namespace_decode; pure (subscribe_namespace m))
      else if t == 0x12
      then (do m ← subscribe_namespace_ok_decode; pure (subscribe_namespace_ok m))
      else if t == 0x13
      then (do m ← subscribe_namespace_error_decode; pure (subscribe_namespace_error m))
      else if t == 0x14
      then (do m ← unsubscribe_namespace_decode; pure (unsubscribe_namespace m))
      else if t == 0x16
      then (do m ← fetch_decode; pure (fetch m))
      else if t == 0x17
      then (do m ← fetch_cancel_decode; pure (fetch_cancel m))
      else if t == 0x18
      then (do m ← fetch_ok_decode; pure (fetch_ok m))
      else if t == 0x19
      then (do m ← fetch_error_decode; pure (fetch_error m))
      else fail (DecodeError.invalid_message t)

  -- The length is read and not looked at.
  unfoldable pub message_decode : Decoder R Message
  message_decode = do t ← u64_decode; _ ← u64_decode; body_decode t
