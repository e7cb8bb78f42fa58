-- ===== src/Tests/Streams.antt =====
-- Readers of control messages on concrete streams.
use linode_moq.Prelude.{ℕ, [], ◌∷◌, ◌≡◌, ◌≤◌, refl, arith}
use linode_moq.Tests.Buffers.{vec_buf, list_buf, list_cursor, vec_mut, as_bytes-IsByte}
use linode_moq.Prelude.BigEndian.{to_be_bytes}
use linode_moq.Coding.Varint.Format.{varint_wire, u8_wire}
use linode_moq.Message.GroupOrder.{group_order_wire, group_order_code}
use linode_moq.Coding.Text.{string_wire}
use linode_moq.Coding.Prefixed.{prefixed_wire}
use linode_moq.Coding.Tuple.{tuple_wire, tuple_field_wire}
use linode_moq.Coding.Sequence.{each_wire}
use linode_moq.Message.Union.{message_encode, message_decode, message_id}
use linode_moq.Message.Union.Format.{body_wire, message_wire}
use linode_moq.Message.Unsubscribe.{unsubscribe_wire}
use linode_moq.Coding.Framed.{framed_wire}
use linode_moq.Message.FilterType.{filter_type_wire, filter_type_code}
use linode_moq.Coding.Outcome.{DecodeError, ok, err}
use linode_moq.Session.Reader.{Reader, RecvStream, chunk, broken, reader_decode}
use linode_moq.Session.Writer.{SendStream, takes, waits, finished, writer_encode}
use linode_moq.Session.Writer.Delivery.{capacity}
use linode_moq.Session.Error.{transport, decode}
use linode_moq.Session.Reader.Streaming.{received, pending, closing_error}
use linode_moq.Properties.Streams.{
  message_crosses, message_streams, message_stream_ends, subscribe_fragment,
}
use linode_moq.Message.Union.Fragment.{fragment_wire, subscribe_front_wire}
use linode_moq.Tests.Values.{ended, ended-Fits, open_ended, open_ended-Parts}

abbrev split_reader : Reader ℕ
split_reader = record {
  stream = chunk (2 ∷ 0x41 ∷ []) (chunk [] (chunk (0x2c ∷ 9 ∷ []) RecvStream.ended));
  buffer = 0x0a ∷ [];
}

message_streams_example :
    (self' : Reader ℕ) × (reader_decode list_cursor message_decode split_reader ≡ ok (ended, self'))
    × (pending self' ≡ 9 ∷ [])
unfolding received message_wire message_id body_wire framed_wire unsubscribe_wire varint_wire
    to_be_bytes
message_streams_example =
    message_streams list_cursor ended split_reader (9 ∷ []) ended-Fits tt
      (omega arith, (omega arith, (omega arith, (omega arith, (omega arith, tt))))) refl

abbrev broken_reader : Reader ℕ
broken_reader = record { stream = chunk (2 ∷ []) (broken 7); buffer = 0x0a ∷ [] }

message_stream_ends_example :
    (n : ℕ) × (n ≤ 1) × (reader_decode list_cursor message_decode broken_reader ≡ err (transport 7))
unfolding received closing_error message_wire message_id body_wire framed_wire unsubscribe_wire
    varint_wire to_be_bytes
message_stream_ends_example =
    message_stream_ends list_cursor ended broken_reader 0x41 (0x2c ∷ []) ended-Fits tt
      (omega arith, (omega arith, tt)) refl

abbrev fragment_reader : Reader ℕ
unfolding fragment_wire subscribe_front_wire varint_wire to_be_bytes tuple_wire each_wire
    tuple_field_wire prefixed_wire string_wire u8_wire group_order_wire group_order_code
    filter_type_wire filter_type_code
fragment_reader = record {
  stream = chunk (1 ∷ 4 ∷ 1 ∷ 0 ∷ 0 ∷ []) RecvStream.ended;
  buffer = fragment_wire open_ended 15;
}

subscribe_fragment_example :
    reader_decode list_cursor message_decode fragment_reader
    ≡ err (decode DecodeError.missing_field)
unfolding fragment_wire subscribe_front_wire varint_wire to_be_bytes tuple_wire each_wire
    tuple_field_wire prefixed_wire string_wire u8_wire group_order_wire group_order_code
    filter_type_wire filter_type_code
subscribe_fragment_example =
    subscribe_fragment list_cursor open_ended 15 fragment_reader open_ended-Parts (omega arith) refl
      (as_bytes-IsByte fragment_reader.buffer) refl

abbrev slow_writer : SendStream ℕ
slow_writer = takes 3 (takes 0 (takes 1 waits))

message_crosses_example :
    (out' : SendStream ℕ) × (self' : Reader ℕ) × (writer_encode vec_buf slow_writer
        (message_encode vec_buf ended)
      ≡ finished (0x0a ∷ 2 ∷ 0x41 ∷ 0x2c ∷ []) out')
    × (reader_decode list_cursor message_decode split_reader ≡ ok (ended, self'))
    × (pending self' ≡ 9 ∷ [])
unfolding capacity received message_wire message_id body_wire framed_wire unsubscribe_wire
    varint_wire to_be_bytes
message_crosses_example =
    message_crosses list_cursor vec_buf ended slow_writer split_reader (9 ∷ []) ended-Fits tt
      (omega arith) (omega arith) (as_bytes-IsByte (pending split_reader)) refl
