-- ===== src/Data/SubgroupHeader.antt =====
-- moq-transport/src/data/subgroup.rs: the header of a stream of one subgroup.
use linode_moq.Prelude.{ℕ, List, [], ◌++◌}
use linode_moq.Coding.Buffer.{Buf, BufMut}
use linode_moq.Coding.Decoder.{Decoder, pure, ◌>>=◌}
use linode_moq.Coding.Encoder.{Encoder, done, ◌>>◌}
use linode_moq.Coding.Codec.{IsCodec}
use linode_moq.Coding.Rules.Writes.{Writes, Writes-then, Writes-done}
use linode_moq.Coding.Rules.Parses.{Parses, Parses-bind, Parses-pure}
use linode_moq.Coding.Rules.Ensures.{Ensures, Ensures-bind, Ensures-pure}
use linode_moq.Coding.Varint.{u64_encode, u64_decode, u8_encode, u8_decode}
use linode_moq.Coding.Varint.Format.{IsVarint, varint_wire, u8_wire}
use linode_moq.Coding.Varint.Encoding.{u64_encode-Writes, u8_encode-Writes}
use linode_moq.Coding.Varint.Integers.{u64_decode-Parses, u64_decode-Ensures}
use linode_moq.Prelude.BigEndian.{IsByte}
use linode_moq.Coding.Varint.Decoding.{u8_decode-Parses, u8_decode-Ensures}

pub record SubgroupHeader : Type 0 where
  pub subscribe_id : ℕ
  pub track_alias : ℕ
  pub group_id : ℕ
  pub subgroup_id : ℕ
  pub publisher_priority : ℕ

pub record SubgroupHeaderFits (m : SubgroupHeader) : Type 0 where
  pub subscribe_id : IsVarint m.subscribe_id
  pub track_alias : IsVarint m.track_alias
  pub group_id : IsVarint m.group_id
  pub subgroup_id : IsVarint m.subgroup_id
  pub publisher_priority : IsByte m.publisher_priority

unfoldable pub subgroup_header_wire : SubgroupHeader → List ℕ
subgroup_header_wire m =
    varint_wire m.subscribe_id
    ++ (varint_wire m.track_alias
        ++ (varint_wire m.group_id
            ++ (varint_wire m.subgroup_id ++ (u8_wire m.publisher_priority ++ []))))

module _ {W : Type 0} ⦃c : BufMut W⦄ where
  unfoldable pub subgroup_header_encode : SubgroupHeader → Encoder W
  subgroup_header_encode m = do
    u64_encode m.subscribe_id
    u64_encode m.track_alias
    u64_encode m.group_id
    u64_encode m.subgroup_id
    u8_encode m.publisher_priority
    done

  pub subgroup_header_encode-Writes :
      (m : SubgroupHeader)
      → SubgroupHeaderFits m
      → Writes c (subgroup_header_encode m) (subgroup_header_wire m)
  unfolding subgroup_header_wire subgroup_header_encode
  subgroup_header_encode-Writes m h =
      Writes-then (u64_encode-Writes m.subscribe_id h.subscribe_id) (
        Writes-then (u64_encode-Writes m.track_alias h.track_alias) (
          Writes-then (u64_encode-Writes m.group_id h.group_id) (
            Writes-then (u64_encode-Writes m.subgroup_id h.subgroup_id) (
              Writes-then (u8_encode-Writes m.publisher_priority h.publisher_priority)
                (Writes-done)))))

module _ {R : Type 0} ⦃b : Buf R⦄ where
  unfoldable pub subgroup_header_decode : Decoder R SubgroupHeader
  subgroup_header_decode = do
    subscribe_id ← u64_decode
    track_alias ← u64_decode
    group_id ← u64_decode
    subgroup_id ← u64_decode
    publisher_priority ← u8_decode
    pure (record {
      subscribe_id = subscribe_id;
      track_alias = track_alias;
      group_id = group_id;
      subgroup_id = subgroup_id;
      publisher_priority = publisher_priority;
    })

  pub subgroup_header_decode-Parses :
      (m : SubgroupHeader)
      → SubgroupHeaderFits m
      → Parses b subgroup_header_decode (subgroup_header_wire m) m
  unfolding subgroup_header_wire subgroup_header_decode
  subgroup_header_decode-Parses m h =
      Parses-bind _ (u64_decode-Parses m.subscribe_id h.subscribe_id) (
        Parses-bind _ (u64_decode-Parses m.track_alias h.track_alias) (
          Parses-bind _ (u64_decode-Parses m.group_id h.group_id) (
            Parses-bind _ (u64_decode-Parses m.subgroup_id h.subgroup_id) (
              Parses-bind _ (u8_decode-Parses m.publisher_priority h.publisher_priority)
                (Parses-pure m)))))

  pub subgroup_header_decode-Ensures : Ensures b SubgroupHeaderFits subgroup_header_decode
  unfolding subgroup_header_decode
  subgroup_header_decode-Ensures = Ensures-bind _ u64_decode-Ensures λ subscribe_id subscribe_id'.
      Ensures-bind _ u64_decode-Ensures λ track_alias track_alias'.
        Ensures-bind _ u64_decode-Ensures λ group_id group_id'.
          Ensures-bind _ u64_decode-Ensures λ subgroup_id subgroup_id'.
            Ensures-bind _ u8_decode-Ensures λ publisher_priority publisher_priority'.
              Ensures-pure _ (record {
                subscribe_id = subscribe_id';
                track_alias = track_alias';
                group_id = group_id';
                subgroup_id = subgroup_id';
                publisher_priority = publisher_priority';
              })

module _ {R W : Type 0} ⦃b : Buf R⦄ ⦃c : BufMut W⦄ where
  pub subgroup_header-IsCodec :
      IsCodec b c SubgroupHeaderFits subgroup_header_wire subgroup_header_encode
        subgroup_header_decode
  subgroup_header-IsCodec = record {
    writes = subgroup_header_encode-Writes;
    parses = subgroup_header_decode-Parses;
    ensures = subgroup_header_decode-Ensures;
  }
