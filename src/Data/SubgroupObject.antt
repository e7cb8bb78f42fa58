-- ===== src/Data/SubgroupObject.antt =====
-- moq-transport/src/data/subgroup.rs: an object within a stream of one subgroup.
use linode_moq.Prelude.{ℕ, List, [], ◌++◌}
use linode_moq.Coding.Buffer.{Buf, BufMut}
use linode_moq.Coding.Decoder.{Decoder, pure, ◌>>=◌}
use linode_moq.Coding.Encoder.{Encoder, done, ◌>>◌}
use linode_moq.Coding.Codec.{IsCodec}
use linode_moq.Coding.Rules.Writes.{Writes, Writes-then, Writes-done}
use linode_moq.Coding.Rules.Parses.{Parses, Parses-bind, Parses-pure}
use linode_moq.Coding.Rules.Ensures.{Ensures, Ensures-bind, Ensures-pure}
use linode_moq.Coding.Varint.{u64_encode, u64_decode}
use linode_moq.Coding.Varint.Format.{IsVarint, varint_wire}
use linode_moq.Coding.Varint.Encoding.{u64_encode-Writes}
use linode_moq.Coding.Varint.Integers.{u64_decode-Parses, u64_decode-Ensures}
use linode_moq.Data.ObjectStatus.{ObjectStatus}
use linode_moq.Data.SizedStatus.{
  StatusFits, status_wire, status_encode, status_decode, status_encode-Writes, status_decode-Parses,
  status_decode-Ensures,
}

pub record SubgroupObject : Type 0 where
  pub object_id : ℕ
  pub size : ℕ
  pub status : ObjectStatus

pub record SubgroupObjectFits (m : SubgroupObject) : Type 0 where
  pub object_id : IsVarint m.object_id
  pub size : IsVarint m.size
  pub status : StatusFits m.size m.status

unfoldable pub subgroup_object_wire : SubgroupObject → List ℕ
subgroup_object_wire m =
    varint_wire m.object_id ++ (varint_wire m.size ++ (status_wire m.size m.status ++ []))

module _ {W : Type 0} ⦃c : BufMut W⦄ where
  unfoldable pub subgroup_object_encode : SubgroupObject → Encoder W
  subgroup_object_encode m = do
    u64_encode m.object_id
    u64_encode m.size
    status_encode m.size m.status
    done

  pub subgroup_object_encode-Writes :
      (m : SubgroupObject)
      → SubgroupObjectFits m
      → Writes c (subgroup_object_encode m) (subgroup_object_wire m)
  unfolding subgroup_object_wire subgroup_object_encode
  subgroup_object_encode-Writes m h = Writes-then (u64_encode-Writes m.object_id h.object_id) (
      Writes-then (u64_encode-Writes m.size h.size)
        (Writes-then (status_encode-Writes m.size m.status) (Writes-done)))

module _ {R : Type 0} ⦃b : Buf R⦄ where
  unfoldable pub subgroup_object_decode : Decoder R SubgroupObject
  subgroup_object_decode = do
    object_id ← u64_decode
    size ← u64_decode
    status ← status_decode size
    pure (record { object_id = object_id; size = size; status = status })

  pub subgroup_object_decode-Parses :
      (m : SubgroupObject)
      → SubgroupObjectFits m
      → Parses b subgroup_object_decode (subgroup_object_wire m) m
  unfolding subgroup_object_wire subgroup_object_decode
  subgroup_object_decode-Parses m h = Parses-bind _ (u64_decode-Parses m.object_id h.object_id) (
      Parses-bind _ (u64_decode-Parses m.size h.size)
        (Parses-bind _ (status_decode-Parses m.size m.status h.status) (Parses-pure m)))

  pub subgroup_object_decode-Ensures : Ensures b SubgroupObjectFits subgroup_object_decode
  unfolding subgroup_object_decode
  subgroup_object_decode-Ensures = Ensures-bind _ u64_decode-Ensures λ object_id object_id'.
      Ensures-bind _ u64_decode-Ensures λ size size'.
        Ensures-bind _ (status_decode-Ensures size) λ status status'.
          Ensures-pure _ (record { object_id = object_id'; size = size'; status = status' })

module _ {R W : Type 0} ⦃b : Buf R⦄ ⦃c : BufMut W⦄ where
  pub subgroup_object-IsCodec :
      IsCodec b c SubgroupObjectFits subgroup_object_wire subgroup_object_encode
        subgroup_object_decode
  subgroup_object-IsCodec = record {
    writes = subgroup_object_encode-Writes;
    parses = subgroup_object_decode-Parses;
    ensures = subgroup_object_decode-Ensures;
  }
