-- ===== src/Data/TrackHeader.antt =====
-- moq-transport/src/data/track.rs: the header of a stream of a whole track.
use linode_moq.Prelude.{ℕ, List, [], ◌++◌}
use linode_moq.Coding.Buffer.{Buf, BufMut}
use linode_moq.Coding.Decoder.{Decoder, pure, ◌>>=◌}
use linode_moq.Coding.Encoder.{Encoder, done, ◌>>◌}
use linode_moq.Coding.Codec.{IsCodec}
use linode_moq.Coding.Rules.Writes.{Writes, Writes-then, Writes-done}
use linode_moq.Coding.Rules.Parses.{Parses, Parses-bind, Parses-pure}
use linode_moq.Coding.Rules.Ensures.{Ensures, Ensures-bind, Ensures-pure}
use linode_moq.Coding.Varint.{u64_encode, u64_decode, u8_encode, u8_decode}
use linode_moq.Coding.Varint.Format.{IsVarint, varint_wire, u8_wire}
use linode_moq.Coding.Varint.Encoding.{u64_encode-Writes, u8_encode-Writes}
use linode_moq.Coding.Varint.Integers.{u64_decode-Parses, u64_decode-Ensures}
use linode_moq.Prelude.BigEndian.{IsByte}
use linode_moq.Coding.Varint.Decoding.{u8_decode-Parses, u8_decode-Ensures}

pub record TrackHeader : Type 0 where
  pub subscribe_id : ℕ
  pub track_alias : ℕ
  pub publisher_priority : ℕ

pub record TrackHeaderFits (m : TrackHeader) : Type 0 where
  pub subscribe_id : IsVarint m.subscribe_id
  pub track_alias : IsVarint m.track_alias
  pub publisher_priority : IsByte m.publisher_priority

unfoldable pub track_header_wire : TrackHeader → List ℕ
track_header_wire m =
    varint_wire m.subscribe_id
    ++ (varint_wire m.track_alias ++ (u8_wire m.publisher_priority ++ []))

module _ {W : Type 0} ⦃c : BufMut W⦄ where
  unfoldable pub track_header_encode : TrackHeader → Encoder W
  track_header_encode m = do
    u64_encode m.subscribe_id
    u64_encode m.track_alias
    u8_encode m.publisher_priority
    done

  pub track_header_encode-Writes :
      (m : TrackHeader) → TrackHeaderFits m → Writes c (track_header_encode m) (track_header_wire m)
  unfolding track_header_wire track_header_encode
  track_header_encode-Writes m h = Writes-then (u64_encode-Writes m.subscribe_id h.subscribe_id) (
      Writes-then (u64_encode-Writes m.track_alias h.track_alias)
        (Writes-then (u8_encode-Writes m.publisher_priority h.publisher_priority) (Writes-done)))

module _ {R : Type 0} ⦃b : Buf R⦄ where
  unfoldable pub track_header_decode : Decoder R TrackHeader
  track_header_decode = do
    subscribe_id ← u64_decode
    track_alias ← u64_decode
    publisher_priority ← u8_decode
    pure (record {
      subscribe_id = subscribe_id;
      track_alias = track_alias;
      publisher_priority = publisher_priority;
    })

  pub track_header_decode-Parses :
      (m : TrackHeader) → TrackHeaderFits m → Parses b track_header_decode (track_header_wire m) m
  unfolding track_header_wire track_header_decode
  track_header_decode-Parses m h = Parses-bind _ (u64_decode-Parses m.subscribe_id h.subscribe_id) (
      Parses-bind _ (u64_decode-Parses m.track_alias h.track_alias) (
        Parses-bind _ (u8_decode-Parses m.publisher_priority h.publisher_priority) (Parses-pure m)))

  pub track_header_decode-Ensures : Ensures b TrackHeaderFits track_header_decode
  unfolding track_header_decode
  track_header_decode-Ensures = Ensures-bind _ u64_decode-Ensures λ subscribe_id subscribe_id'.
      Ensures-bind _ u64_decode-Ensures λ track_alias track_alias'.
        Ensures-bind _ u8_decode-Ensures λ publisher_priority publisher_priority'.
          Ensures-pure _ (record {
            subscribe_id = subscribe_id';
            track_alias = track_alias';
            publisher_priority = publisher_priority';
          })

module _ {R W : Type 0} ⦃b : Buf R⦄ ⦃c : BufMut W⦄ where
  pub track_header-IsCodec :
      IsCodec b c TrackHeaderFits track_header_wire track_header_encode track_header_decode
  track_header-IsCodec = record {
    writes = track_header_encode-Writes;
    parses = track_header_decode-Parses;
    ensures = track_header_decode-Ensures;
  }
