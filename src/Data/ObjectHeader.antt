-- ===== src/Data/ObjectHeader.antt =====
-- moq-transport/src/data/object.rs: the header of an object.
use linode_moq.Prelude.{ℕ, List, [], ◌++◌}
use linode_moq.Coding.Buffer.{Buf, BufMut}
use linode_moq.Coding.Decoder.{Decoder, pure, ◌>>=◌}
use linode_moq.Coding.Encoder.{Encoder, done, ◌>>◌}
use linode_moq.Coding.Codec.{IsCodec, Any}
use linode_moq.Coding.Rules.Writes.{Writes, Writes-then, Writes-done}
use linode_moq.Coding.Rules.Parses.{Parses, Parses-bind, Parses-pure}
use linode_moq.Coding.Rules.Ensures.{Ensures, Ensures-bind, Ensures-pure}
use linode_moq.Coding.Varint.{u64_encode, u64_decode, u8_encode, u8_decode}
use linode_moq.Coding.Varint.Format.{IsVarint, varint_wire, u8_wire}
use linode_moq.Coding.Varint.Encoding.{u64_encode-Writes, u8_encode-Writes}
use linode_moq.Coding.Varint.Integers.{u64_decode-Parses, u64_decode-Ensures}
use linode_moq.Prelude.BigEndian.{IsByte}
use linode_moq.Coding.Varint.Decoding.{u8_decode-Parses, u8_decode-Ensures}
use linode_moq.Data.ObjectStatus.{
  ObjectStatus, object_status_wire, object_status_encode, object_status_decode,
  object_status_encode-Writes, object_status_decode-Parses, object_status_decode-Ensures,
}

pub record ObjectHeader : Type 0 where
  pub subscribe_id : ℕ
  pub track_alias : ℕ
  pub group_id : ℕ
  pub object_id : ℕ
  pub publisher_priority : ℕ
  pub object_status : ObjectStatus

pub record ObjectHeaderFits (m : ObjectHeader) : Type 0 where
  pub subscribe_id : IsVarint m.subscribe_id
  pub track_alias : IsVarint m.track_alias
  pub group_id : IsVarint m.group_id
  pub object_id : IsVarint m.object_id
  pub publisher_priority : IsByte m.publisher_priority
  pub object_status : Any m.object_status

unfoldable pub object_header_wire : ObjectHeader → List ℕ
object_header_wire m =
    varint_wire m.subscribe_id
    ++ (varint_wire m.track_alias
        ++ (varint_wire m.group_id
            ++ (varint_wire m.object_id
                ++ (u8_wire m.publisher_priority ++ (object_status_wire m.object_status ++ [])))))

module _ {W : Type 0} ⦃c : BufMut W⦄ where
  unfoldable pub object_header_encode : ObjectHeader → Encoder W
  object_header_encode m = do
    u64_encode m.subscribe_id
    u64_encode m.track_alias
    u64_encode m.group_id
    u64_encode m.object_id
    u8_encode m.publisher_priority
    object_status_encode m.object_status
    done

  pub object_header_encode-Writes :
      (m : ObjectHeader)
      → ObjectHeaderFits m
      → Writes c (object_header_encode m) (object_header_wire m)
  unfolding object_header_wire object_header_encode
  object_header_encode-Writes m h = Writes-then (u64_encode-Writes m.subscribe_id h.subscribe_id) (
      Writes-then (u64_encode-Writes m.track_alias h.track_alias) (
        Writes-then (u64_encode-Writes m.group_id h.group_id) (
          Writes-then (u64_encode-Writes m.object_id h.object_id) (
            Writes-then (u8_encode-Writes m.publisher_priority h.publisher_priority) (
              Writes-then (object_status_encode-Writes m.object_status h.object_status)
                (Writes-done))))))

module _ {R : Type 0} ⦃b : Buf R⦄ where
  unfoldable pub object_header_decode : Decoder R ObjectHeader
  object_header_decode = do
    subscribe_id ← u64_decode
    track_alias ← u64_decode
    group_id ← u64_decode
    object_id ← u64_decode
    publisher_priority ← u8_decode
    object_status ← object_status_decode
    pure (record {
      subscribe_id = subscribe_id;
      track_alias = track_alias;
      group_id = group_id;
      object_id = object_id;
      publisher_priority = publisher_priority;
      object_status = object_status;
    })

  pub object_header_decode-Parses :
      (m : ObjectHeader)
      → ObjectHeaderFits m
      → Parses b object_header_decode (object_header_wire m) m
  unfolding object_header_wire object_header_decode
  object_header_decode-Parses m h =
      Parses-bind _ (u64_decode-Parses m.subscribe_id h.subscribe_id) (
        Parses-bind _ (u64_decode-Parses m.track_alias h.track_alias) (
          Parses-bind _ (u64_decode-Parses m.group_id h.group_id) (
            Parses-bind _ (u64_decode-Parses m.object_id h.object_id) (
              Parses-bind _ (u8_decode-Parses m.publisher_priority h.publisher_priority) (
                Parses-bind _ (object_status_decode-Parses m.object_status h.object_status)
                  (Parses-pure m))))))

  pub object_header_decode-Ensures : Ensures b ObjectHeaderFits object_header_decode
  unfolding object_header_decode
  object_header_decode-Ensures = Ensures-bind _ u64_decode-Ensures λ subscribe_id subscribe_id'.
      Ensures-bind _ u64_decode-Ensures λ track_alias track_alias'.
        Ensures-bind _ u64_decode-Ensures λ group_id group_id'.
          Ensures-bind _ u64_decode-Ensures λ object_id object_id'.
            Ensures-bind _ u8_decode-Ensures λ publisher_priority publisher_priority'.
              Ensures-bind _ object_status_decode-Ensures λ object_status object_status'.
                Ensures-pure _ (record {
                  subscribe_id = subscribe_id';
                  track_alias = track_alias';
                  group_id = group_id';
                  object_id = object_id';
                  publisher_priority = publisher_priority';
                  object_status = object_status';
                })

module _ {R W : Type 0} ⦃b : Buf R⦄ ⦃c : BufMut W⦄ where
  pub object_header-IsCodec :
      IsCodec b c ObjectHeaderFits object_header_wire object_header_encode object_header_decode
  object_header-IsCodec = record {
    writes = object_header_encode-Writes;
    parses = object_header_decode-Parses;
    ensures = object_header_decode-Ensures;
  }
