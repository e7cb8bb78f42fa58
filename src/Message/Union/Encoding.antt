-- ===== src/Message/Union/Encoding.antt =====
-- What `Message::encode` appends, and where its `unwrap` panics.
use linode_moq.Prelude.BigEndian.{to_be_bytes}
use linode_moq.Prelude.{ℕ, ◌^◌, ◌<◌, ◌≤◌, ◌≡◌, length, none, arith}
use linode_moq.Coding.Outcome.{EncodeError, ok, panic}
use linode_moq.Coding.Buffer.{BufMut, VecBuf}
use linode_moq.Coding.Encoder.{◌>>◌, abort}
use linode_moq.Coding.Framed.{framed_wire, framed_bytes-Writes}
use linode_moq.Coding.Rules.Writes.{Writes, Writes-then, Refuses}
use linode_moq.Coding.Varint.Format.{IsVarint, varint_wire}
use linode_moq.Coding.Varint.Encoding.{u64_encode-Writes}
use linode_moq.Message.FilterType.{absolute_start}
use linode_moq.Message.Union.{
  Message, message_id, body_encode, framed, message_encode, subscribe_update, subscribe,
  unsubscribe, subscribe_ok, subscribe_error, subscribe_done, max_subscribe_id, announce,
  unannounce, announce_ok, announce_error, announce_cancel, track_status_request, track_status,
  go_away, subscribe_namespace, subscribe_namespace_ok, subscribe_namespace_error,
  unsubscribe_namespace, fetch, fetch_cancel, fetch_ok, fetch_error,
}
use linode_moq.Message.Union.Format.{BodyFits, MessageFits, body_wire, message_wire}
use linode_moq.Message.SubscribeUpdate.{subscribe_update_encode-Writes}
use linode_moq.Message.Subscribe.{
  subscribe_encode-Writes, SubscribeParts, subscribe_front, subscribe_encode-Refuses, Subscribe,
}
use linode_moq.Message.Unsubscribe.{unsubscribe_encode-Writes}
use linode_moq.Message.SubscribeOk.{subscribe_ok_encode-Writes}
use linode_moq.Message.SubscribeError.{subscribe_error_encode-Writes}
use linode_moq.Message.SubscribeDone.{subscribe_done_encode-Writes}
use linode_moq.Message.MaxSubscribeId.{max_subscribe_id_encode-Writes}
use linode_moq.Message.Announce.{announce_encode-Writes}
use linode_moq.Message.Unannounce.{unannounce_encode-Writes}
use linode_moq.Message.AnnounceOk.{announce_ok_encode-Writes}
use linode_moq.Message.AnnounceError.{announce_error_encode-Writes}
use linode_moq.Message.AnnounceCancel.{announce_cancel_encode-Writes}
use linode_moq.Message.TrackStatusRequest.{track_status_request_encode-Writes}
use linode_moq.Message.TrackStatus.{track_status_encode-Writes}
use linode_moq.Message.GoAway.{go_away_encode-Writes}
use linode_moq.Message.SubscribeNamespace.{subscribe_namespace_encode-Writes}
use linode_moq.Message.SubscribeNamespaceOk.{subscribe_namespace_ok_encode-Writes}
use linode_moq.Message.SubscribeNamespaceError.{subscribe_namespace_error_encode-Writes}
use linode_moq.Message.UnsubscribeNamespace.{unsubscribe_namespace_encode-Writes}
use linode_moq.Message.Fetch.{fetch_encode-Writes}
use linode_moq.Message.FetchCancel.{fetch_cancel_encode-Writes}
use linode_moq.Message.FetchOk.{fetch_ok_encode-Writes}
use linode_moq.Message.FetchError.{fetch_error_encode-Writes}

module _ {W : Type 0} ⦃c : BufMut W⦄ where
  body_encode-Writes : (m : Message) → BodyFits m → Writes c (body_encode m) (body_wire m)
  unfolding body_encode body_wire
  body_encode-Writes (subscribe_update m) h = subscribe_update_encode-Writes m h
  body_encode-Writes (subscribe m) h = subscribe_encode-Writes m h
  body_encode-Writes (unsubscribe m) h = unsubscribe_encode-Writes m h
  body_encode-Writes (subscribe_ok m) h = subscribe_ok_encode-Writes m h
  body_encode-Writes (subscribe_error m) h = subscribe_error_encode-Writes m h
  body_encode-Writes (subscribe_done m) h = subscribe_done_encode-Writes m h
  body_encode-Writes (max_subscribe_id m) h = max_subscribe_id_encode-Writes m h
  body_encode-Writes (announce m) h = announce_encode-Writes m h
  body_encode-Writes (unannounce m) h = unannounce_encode-Writes m h
  body_encode-Writes (announce_ok m) h = announce_ok_encode-Writes m h
  body_encode-Writes (announce_error m) h = announce_error_encode-Writes m h
  body_encode-Writes (announce_cancel m) h = announce_cancel_encode-Writes m h
  body_encode-Writes (track_status_request m) h = track_status_request_encode-Writes m h
  body_encode-Writes (track_status m) h = track_status_encode-Writes m h
  body_encode-Writes (go_away m) h = go_away_encode-Writes m h
  body_encode-Writes (subscribe_namespace m) h = subscribe_namespace_encode-Writes m h
  body_encode-Writes (subscribe_namespace_ok m) h = subscribe_namespace_ok_encode-Writes m h
  body_encode-Writes (subscribe_namespace_error m) h = subscribe_namespace_error_encode-Writes m h
  body_encode-Writes (unsubscribe_namespace m) h = unsubscribe_namespace_encode-Writes m h
  body_encode-Writes (fetch m) h = fetch_encode-Writes m h
  body_encode-Writes (fetch_cancel m) h = fetch_cancel_encode-Writes m h
  body_encode-Writes (fetch_ok m) h = fetch_ok_encode-Writes m h
  body_encode-Writes (fetch_error m) h = fetch_error_encode-Writes m h

pub message_id-IsVarint : (m : Message) → IsVarint (message_id m)
unfolding message_id
message_id-IsVarint (subscribe m) = omega arith
message_id-IsVarint _ = omega arith

module _ {V : Type 0} (v : VecBuf V) where
  -- The body in its vector.
  body_buf :
      (m : Message)
      → MessageFits m
      → (buf : V) × (body_encode ⦃c = v.buf_mut⦄ m v.new ≡ ok buf)
        × (v.buf_mut.written buf ≡ body_wire m)
  body_buf m h =
      let (buf, p, q, _) =
        (body_encode-Writes ⦃c = v.buf_mut⦄ m h.body).at v.new
          (omega (arith, v.room_new, h.size)) in
      (buf, p, rw v.written_new at q)

module _ {V W : Type 0} ⦃c : BufMut W⦄ (v : VecBuf V) where
  framed-Writes :
      (m : Message) (buf : V)
      → IsVarint (length (body_wire m))
      → v.buf_mut.written buf ≡ body_wire m
      → Writes c (framed v (ok buf)) (framed_wire (body_wire m))
  unfolding framed
  framed-Writes m buf h q = rw q (framed_bytes-Writes (body_wire m) h)

  pub message_encode-Writes :
      (m : Message) → MessageFits m → Writes c (message_encode v m) (message_wire m)
  unfolding message_encode message_wire
  message_encode-Writes m h =
      let (buf, p, q) = body_buf v m h in
      Writes-then (u64_encode-Writes (message_id m) (message_id-IsVarint m))
        (rw p (framed-Writes m buf h.size q))

  -- A body that is refused: its `unwrap` panics once the type is written.
  refused_body :
      (m : Message) {x : EncodeError} {n : ℕ}
      → Refuses v.buf_mut (body_encode ⦃c = v.buf_mut⦄ m) x n
      → n < 2 ^ 63
      → (w : W) → length (varint_wire (message_id m)) ≤ c.remaining_mut w
      → message_encode v m w ≡ panic
  unfolding message_encode framed ◌>>◌ abort
  refused_body m refused small w room =
      let (w', p, _, _) =
        (u64_encode-Writes ⦃b = c⦄ (message_id m) (message_id-IsVarint m)).at w room in
      rw (p, refused.at v.new (omega (arith, v.room_new)))

  -- A SUBSCRIBE with the filter AbsoluteStart and no end, whose other fields fit the format and take
  -- less than 2^63 bytes: where there is room for one byte, encoding the message panics.
  pub message_encode_subscribe_start :
      (m : Subscribe)
      → SubscribeParts m
      → m.filter_type ≡ absolute_start
      → m.end ≡ none
      → subscribe_front m < 2 ^ 63
      → (w : W) → 1 ≤ c.remaining_mut w
      → message_encode v (subscribe m) w ≡ panic
  unfolding body_encode message_id varint_wire to_be_bytes
  message_encode_subscribe_start m h filter open_ended small =
      refused_body (subscribe m) (subscribe_encode-Refuses ⦃c = v.buf_mut⦄ m h filter open_ended)
        small
