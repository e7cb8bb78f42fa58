-- ===== src/Tests/Messages.antt =====
-- The codecs of moq-transport/src/message on concrete buffers.
use linode_moq.Prelude.{[], ◌∷◌, ◌≡◌, refl, none, some, arith}
use linode_moq.Coding.RoundTrip.{Sends, Receives, AsksForMore}
use linode_moq.Tests.Buffers.{list_buf, vec_mut, empty, vec_buf}
use linode_moq.Prelude.BigEndian.{to_be_bytes}
use linode_moq.Coding.Varint.Format.{varint_wire, u8_wire}
use linode_moq.Message.SubscribeOk.{SubscribeOk}
use linode_moq.Properties.Messages.{
  message_encode_lem, message_decode_lem, message_cut_short, message_decode-Tame,
}
use linode_moq.Message.GroupOrder.{ascending, group_order_wire, group_order_code, descending}
use linode_moq.Message.SubscribeDone.{SubscribeDone}
use linode_moq.Coding.Text.{string_wire}
use linode_moq.Coding.Prefixed.{prefixed_wire}
use linode_moq.Message.SubscribeError.{SubscribeError}
use linode_moq.Message.Fetch.{Fetch}
use linode_moq.Coding.Tuple.{tuple_wire, tuple_field_wire}
use linode_moq.Coding.Sequence.{each_wire}
use linode_moq.Message.Announce.{Announce}
use linode_moq.Message.TrackStatus.{TrackStatus}
use linode_moq.Message.TrackStatusCode.{in_progress}
use linode_moq.Message.Union.{subscribe, message_encode, message_decode, message_id}
use linode_moq.Message.Union.Format.{MessageReceived, body_wire, message_wire}
use linode_moq.Message.Unsubscribe.{unsubscribe_wire}
use linode_moq.Coding.Framed.{framed_wire}
use linode_moq.Coding.Rules.Ensures.{Tame}
use linode_moq.Message.Subscribe.{subscribe_front}
use linode_moq.Message.FilterType.{filter_type_wire, filter_type_code}
use linode_moq.Coding.Outcome.{panic}
use linode_moq.Message.Union.Encoding.{message_encode_subscribe_start}
use linode_moq.Tests.Values.{ended, ended-Fits, open_ended, open_ended-Parts}

abbrev accepted : SubscribeOk
accepted = record { id = 5; expires = some 1000; group_order = ascending; latest = some (3, 70) }

abbrev finished : SubscribeDone
finished = record { id = 5; code = 2; reason = 0x61 ∷ []; last = none }

abbrev rejected : SubscribeError
rejected = record { id = 5; code = 2; reason = 0x61 ∷ []; alias = 9 }

abbrev fetched : Fetch
fetched = record {
  id = 5;
  track_namespace = record { fields = record { value = 0x61 ∷ [] } ∷ [] };
  track_name = 0x61 ∷ [];
  subscriber_priority = 127;
  group_order = descending;
  start_group = 1;
  start_object = 2;
  end_group = 300;
  end_object = 0;
  params = record { entries = [] };
}

abbrev announced : Announce
announced = record {
  namespace = record { fields = record { value = 0x61 ∷ [] } ∷ [] };
  params = record { entries = [] };
}

abbrev status : TrackStatus
status = record {
  track_namespace = record { fields = record { value = 0x61 ∷ [] } ∷ [] };
  track_name = 0x61 ∷ [];
  status_code = in_progress;
  last_group_id = 70;
  last_object_id = 3;
}

message_encode_lem_example : Sends vec_mut (message_encode vec_buf ended) (message_wire ended) empty
unfolding message_wire message_id body_wire framed_wire unsubscribe_wire varint_wire to_be_bytes
message_encode_lem_example = message_encode_lem vec_buf ended empty ended-Fits (omega arith)

message_decode_lem_example :
    Receives list_buf message_decode ended (9 ∷ []) (0x0a ∷ 2 ∷ 0x41 ∷ 0x2c ∷ 9 ∷ [])
unfolding message_wire message_id body_wire framed_wire unsubscribe_wire varint_wire to_be_bytes
message_decode_lem_example =
    message_decode_lem ended (0x0a ∷ 2 ∷ 0x41 ∷ 0x2c ∷ 9 ∷ []) (9 ∷ []) ended-Fits refl

message_cut_short_example : AsksForMore list_buf message_decode 1 (0x0a ∷ 2 ∷ 0x41 ∷ [])
unfolding message_wire message_id body_wire framed_wire unsubscribe_wire varint_wire to_be_bytes
message_cut_short_example =
    message_cut_short ended (0x0a ∷ 2 ∷ 0x41 ∷ []) 0x2c [] ended-Fits tt refl

-- There is no message of the type.
message_decode-Tame_example :
    Tame list_buf MessageReceived (0x1f ∷ 0 ∷ []) (message_decode (0x1f ∷ 0 ∷ []))
message_decode-Tame_example = message_decode-Tame (0x1f ∷ 0 ∷ [])

message_encode_subscribe_start_example : message_encode vec_buf (subscribe open_ended) empty ≡ panic
unfolding subscribe_front varint_wire to_be_bytes tuple_wire each_wire tuple_field_wire
    prefixed_wire string_wire u8_wire group_order_wire group_order_code filter_type_wire
    filter_type_code
message_encode_subscribe_start_example =
    message_encode_subscribe_start vec_buf open_ended open_ended-Parts refl refl (omega arith) empty
      (omega arith)
