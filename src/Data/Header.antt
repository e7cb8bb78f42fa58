-- ===== src/Data/Header.antt =====
-- moq-transport/src/data/header.rs: the header of a data stream, with its type.
use linode_moq.Prelude.{ℕ, List, ◌++◌, ◌==◌, if◌then◌else◌, arith}
use linode_moq.Coding.Buffer.{Buf, BufMut}
use linode_moq.Coding.Decoder.{Decoder, pure, ◌>>=◌, fail}
use linode_moq.Coding.Encoder.{Encoder, ◌>>◌}
use linode_moq.Coding.Codec.{IsCodec}
use linode_moq.Coding.Rules.Writes.{Writes, Writes-then}
use linode_moq.Coding.Rules.Parses.{Parses, Parses-bind, Parses-pure, Parses-last}
use linode_moq.Coding.Rules.Ensures.{Ensures, Ensures-bind, Ensures-pure, Ensures-if, Ensures-fail}
use linode_moq.Coding.Outcome.{DecodeError}
use linode_moq.Coding.Varint.{u64_encode, u64_decode}
use linode_moq.Coding.Varint.Format.{varint_wire}
use linode_moq.Coding.Varint.Encoding.{u64_encode-Writes}
use linode_moq.Coding.Varint.Integers.{u64_decode-Parses, u64_decode-Ensures}
use linode_moq.Data.TrackHeader.{
  TrackHeader, TrackHeaderFits, track_header_wire, track_header_encode, track_header_decode,
  track_header_encode-Writes, track_header_decode-Parses, track_header_decode-Ensures,
}
use linode_moq.Data.SubgroupHeader.{
  SubgroupHeader, SubgroupHeaderFits, subgroup_header_wire, subgroup_header_encode,
  subgroup_header_decode, subgroup_header_encode-Writes, subgroup_header_decode-Parses,
  subgroup_header_decode-Ensures,
}

pub data Header : Type 0 where
  track : TrackHeader → Header
  subgroup : SubgroupHeader → Header

-- `Header::id`
unfoldable pub header_id : Header → ℕ
header_id (track m) = 0x2
header_id (subgroup m) = 0x4

-- `Header::subscribe_id`
unfoldable pub header_subscribe_id : Header → ℕ
header_subscribe_id (track o) = o.subscribe_id
header_subscribe_id (subgroup o) = o.subscribe_id

-- `Header::track_alias`
unfoldable pub header_track_alias : Header → ℕ
header_track_alias (track o) = o.track_alias
header_track_alias (subgroup o) = o.track_alias

-- `Header::publisher_priority`
unfoldable pub header_publisher_priority : Header → ℕ
header_publisher_priority (track o) = o.publisher_priority
header_publisher_priority (subgroup o) = o.publisher_priority

abbrev pub HeaderFits : Header → Type 0
HeaderFits (track m) = TrackHeaderFits m
HeaderFits (subgroup m) = SubgroupHeaderFits m

unfoldable pub header_wire : Header → List ℕ
header_wire (track m) = varint_wire 2 ++ track_header_wire m
header_wire (subgroup m) = varint_wire 4 ++ subgroup_header_wire m

module _ {W : Type 0} ⦃c : BufMut W⦄ where
  unfoldable pub header_encode : Header → Encoder W
  unfolding header_id
  header_encode (track m) = do u64_encode (header_id (track m)); track_header_encode m
  header_encode (subgroup m) = do u64_encode (header_id (subgroup m)); subgroup_header_encode m

  pub header_encode-Writes :
      (m : Header) → HeaderFits m → Writes c (header_encode m) (header_wire m)
  unfolding header_encode header_wire header_id
  header_encode-Writes (track m) h =
      Writes-then (u64_encode-Writes 2 (omega arith)) (track_header_encode-Writes m h)
  header_encode-Writes (subgroup m) h =
      Writes-then (u64_encode-Writes 4 (omega arith)) (subgroup_header_encode-Writes m h)

module _ {R : Type 0} ⦃b : Buf R⦄ where
  -- The match on the type.
  unfoldable pub header_of : ℕ → Decoder R Header
  header_of t =
      if t == 0x2
      then (do msg ← track_header_decode; pure (track msg))
      else if t == 0x4
      then (do msg ← subgroup_header_decode; pure (subgroup msg))
      else fail (DecodeError.invalid_message t)

  unfoldable pub header_decode : Decoder R Header
  header_decode = do t ← u64_decode; header_of t

  pub header_decode-Parses : (m : Header) → HeaderFits m → Parses b header_decode (header_wire m) m
  unfolding header_decode header_wire header_of
  header_decode-Parses (track m) h =
      Parses-bind _ (u64_decode-Parses 2 (omega arith))
        (Parses-last (λ x. pure (track x)) (track_header_decode-Parses m h) (Parses-pure _))
  header_decode-Parses (subgroup m) h =
      Parses-bind _ (u64_decode-Parses 4 (omega arith))
        (Parses-last (λ x. pure (subgroup x)) (subgroup_header_decode-Parses m h) (Parses-pure _))

  pub header_decode-Ensures : Ensures b HeaderFits header_decode
  unfolding header_decode header_of
  header_decode-Ensures = Ensures-bind _ u64_decode-Ensures λ t _.
      Ensures-if (t == 0x2)
        (λ _. Ensures-bind _ track_header_decode-Ensures λ m k. Ensures-pure (track m) k)
        λ _.
          Ensures-if (t == 0x4)
            (λ _. Ensures-bind _ subgroup_header_decode-Ensures λ m k. Ensures-pure (subgroup m) k)
            λ _. Ensures-fail _

module _ {R W : Type 0} ⦃b : Buf R⦄ ⦃c : BufMut W⦄ where
  pub header-IsCodec : IsCodec b c HeaderFits header_wire header_encode header_decode
  header-IsCodec = record {
    writes = header_encode-Writes;
    parses = header_decode-Parses;
    ensures = header_decode-Ensures;
  }
