-- ===== src/Data/Datagram.antt =====
-- moq-transport/src/data/datagram.rs: an object in a datagram of its own.
use linode_moq.Prelude.{ℕ, List, ◌++◌, ◌≡◌, arith, sym, subst, length, All}
use linode_moq.Coding.Buffer.{Buf, BufMut}
use linode_moq.Coding.Decoder.{Decoder, pure, ◌>>=◌}
use linode_moq.Coding.Encoder.{Encoder, ◌>>◌, put_slice, encode_remaining}
use linode_moq.Coding.Codec.{Any}
use linode_moq.Coding.Rules.Writes.{Writes, Writes-then, Writes-checked, Writes-put_slice}
use linode_moq.Coding.Rules.Ensures.{Ensures, Ensures-bind, Ensures-pure}
use linode_moq.Coding.Varint.{u64_encode, u64_decode, u8_encode, u8_decode}
use linode_moq.Coding.Varint.Format.{IsVarint, varint_wire, u8_wire}
use linode_moq.Coding.Varint.Encoding.{u64_encode-Writes, u8_encode-Writes}
use linode_moq.Coding.Varint.Integers.{u64_decode-Parses, u64_decode-Ensures}
use linode_moq.Prelude.BigEndian.{IsByte}
use linode_moq.Coding.Varint.Decoding.{u8_decode-Parses, u8_decode-Ensures}
use linode_moq.Data.ObjectStatus.{
  ObjectStatus, object_status_wire, object_status_encode, object_status_decode,
  object_status_encode-Writes, object_status_decode-Parses, object_status_decode-Ensures,
}
use linode_moq.Coding.Rules.ReadsAll.{
  ReadsAll, ReadsAll-bind, ReadsAll-last, take_rest, ReadsAll-take_rest, Ensures-take_rest,
}

pub record Datagram : Type 0 where
  pub subscribe_id : ℕ
  pub track_alias : ℕ
  pub group_id : ℕ
  pub object_id : ℕ
  pub publisher_priority : ℕ
  pub object_status : ObjectStatus
  pub payload_len : ℕ
  pub payload : List ℕ

pub record DatagramFits (m : Datagram) : Type 0 where
  pub subscribe_id : IsVarint m.subscribe_id
  pub track_alias : IsVarint m.track_alias
  pub group_id : IsVarint m.group_id
  pub object_id : IsVarint m.object_id
  pub publisher_priority : IsByte m.publisher_priority
  pub object_status : Any m.object_status
  pub payload_len : IsVarint m.payload_len
  pub payload : All IsByte m.payload
  pub size : m.payload_len ≡ length m.payload

unfoldable pub datagram_wire : Datagram → List ℕ
datagram_wire m =
    varint_wire m.subscribe_id
    ++ (varint_wire m.track_alias
        ++ (varint_wire m.group_id
            ++ (varint_wire m.object_id
                ++ (u8_wire m.publisher_priority
                    ++ (object_status_wire m.object_status
                        ++ (varint_wire m.payload_len ++ m.payload))))))

module _ {W : Type 0} ⦃c : BufMut W⦄ where
  put_payload : List ℕ → Encoder W
  put_payload payload = do encode_remaining (length payload); put_slice payload

  unfoldable pub datagram_encode : Datagram → Encoder W
  unfolding put_payload
  datagram_encode m = do
    u64_encode m.subscribe_id
    u64_encode m.track_alias
    u64_encode m.group_id
    u64_encode m.object_id
    u8_encode m.publisher_priority
    object_status_encode m.object_status
    u64_encode m.payload_len
    put_payload m.payload

  pub datagram_encode-Writes :
      (m : Datagram) → DatagramFits m → Writes c (datagram_encode m) (datagram_wire m)
  unfolding datagram_wire datagram_encode put_payload
  datagram_encode-Writes m h = Writes-then (u64_encode-Writes m.subscribe_id h.subscribe_id) (
      Writes-then (u64_encode-Writes m.track_alias h.track_alias) (
        Writes-then (u64_encode-Writes m.group_id h.group_id) (
          Writes-then (u64_encode-Writes m.object_id h.object_id) (
            Writes-then (u8_encode-Writes m.publisher_priority h.publisher_priority) (
              Writes-then (object_status_encode-Writes m.object_status h.object_status) (
                Writes-then (u64_encode-Writes m.payload_len h.payload_len)
                  (Writes-checked (omega arith) (Writes-put_slice m.payload))))))))

module _ {R : Type 0} ⦃b : Buf R⦄ where
  unfoldable pub datagram_decode : Decoder R Datagram
  datagram_decode = do
    subscribe_id ← u64_decode
    track_alias ← u64_decode
    group_id ← u64_decode
    object_id ← u64_decode
    publisher_priority ← u8_decode
    object_status ← object_status_decode
    payload_len ← u64_decode
    payload ← take_rest payload_len
    pure (record {
      subscribe_id = subscribe_id;
      track_alias = track_alias;
      group_id = group_id;
      object_id = object_id;
      publisher_priority = publisher_priority;
      object_status = object_status;
      payload_len = payload_len;
      payload = payload;
    })

  -- The payload is all that follows the length.
  payload-ReadsAll :
      (m : Datagram)
      → m.payload_len ≡ length m.payload
      → ReadsAll b (take_rest m.payload_len) m.payload m.payload
  payload-ReadsAll m size =
      subst (λ n. ReadsAll b (take_rest n) m.payload m.payload) (sym size)
        (ReadsAll-take_rest m.payload)

  pub datagram_decode-ReadsAll :
      (m : Datagram) → DatagramFits m → ReadsAll b datagram_decode (datagram_wire m) m
  unfolding datagram_wire datagram_decode
  datagram_decode-ReadsAll m h =
      ReadsAll-bind _ (u64_decode-Parses m.subscribe_id h.subscribe_id).reads (
        ReadsAll-bind _ (u64_decode-Parses m.track_alias h.track_alias).reads (
          ReadsAll-bind _ (u64_decode-Parses m.group_id h.group_id).reads (
            ReadsAll-bind _ (u64_decode-Parses m.object_id h.object_id).reads (
              ReadsAll-bind _ (u8_decode-Parses m.publisher_priority h.publisher_priority).reads (
                ReadsAll-bind _ (object_status_decode-Parses m.object_status h.object_status).reads
                  (ReadsAll-bind _ (u64_decode-Parses m.payload_len h.payload_len).reads (
                    ReadsAll-last
                      (λ x. record {
                        subscribe_id = m.subscribe_id;
                        track_alias = m.track_alias;
                        group_id = m.group_id;
                        object_id = m.object_id;
                        publisher_priority = m.publisher_priority;
                        object_status = m.object_status;
                        payload_len = m.payload_len;
                        payload = x;
                      })
                      (payload-ReadsAll m h.size))))))))

  pub datagram_decode-Ensures : Ensures b DatagramFits datagram_decode
  unfolding datagram_decode
  datagram_decode-Ensures = Ensures-bind _ u64_decode-Ensures λ subscribe_id subscribe_id'.
      Ensures-bind _ u64_decode-Ensures λ track_alias track_alias'.
        Ensures-bind _ u64_decode-Ensures λ group_id group_id'.
          Ensures-bind _ u64_decode-Ensures λ object_id object_id'.
            Ensures-bind _ u8_decode-Ensures λ publisher_priority publisher_priority'.
              Ensures-bind _ object_status_decode-Ensures λ object_status object_status'.
                Ensures-bind _ u64_decode-Ensures λ payload_len payload_len'.
                  Ensures-bind _ (Ensures-take_rest payload_len) λ payload (bytes, size).
                    Ensures-pure _ (record {
                      subscribe_id = subscribe_id';
                      track_alias = track_alias';
                      group_id = group_id';
                      object_id = object_id';
                      publisher_priority = publisher_priority';
                      object_status = object_status';
                      payload_len = payload_len';
                      payload = bytes;
                      size = size;
                    })
