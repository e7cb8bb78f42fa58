-- ===== src/Message/MaxSubscribeId.antt =====
-- moq-transport/src/message/max_subscribe_id.rs: a publisher allows more subscriptions.
use linode_moq.Prelude.{ℕ, List, [], ◌++◌}
use linode_moq.Coding.Buffer.{Buf, BufMut}
use linode_moq.Coding.Decoder.{Decoder, pure, ◌>>=◌}
use linode_moq.Coding.Encoder.{Encoder, done, ◌>>◌}
use linode_moq.Coding.Codec.{IsCodec}
use linode_moq.Coding.Rules.Writes.{Writes, Writes-then, Writes-done}
use linode_moq.Coding.Rules.Parses.{Parses, Parses-bind, Parses-pure}
use linode_moq.Coding.Rules.Ensures.{Ensures, Ensures-bind, Ensures-pure}
use linode_moq.Coding.Varint.{u64_encode, u64_decode}
use linode_moq.Coding.Varint.Format.{IsVarint, varint_wire}
use linode_moq.Coding.Varint.Encoding.{u64_encode-Writes}
use linode_moq.Coding.Varint.Integers.{u64_decode-Parses, u64_decode-Ensures}

pub record MaxSubscribeId : Type 0 where
  pub id : ℕ

pub record MaxSubscribeIdFits (m : MaxSubscribeId) : Type 0 where
  pub id : IsVarint m.id

unfoldable pub max_subscribe_id_wire : MaxSubscribeId → List ℕ
max_subscribe_id_wire m = varint_wire m.id ++ []

module _ {W : Type 0} ⦃c : BufMut W⦄ where
  unfoldable pub max_subscribe_id_encode : MaxSubscribeId → Encoder W
  max_subscribe_id_encode m = do u64_encode m.id; done

  pub max_subscribe_id_encode-Writes :
      (m : MaxSubscribeId)
      → MaxSubscribeIdFits m
      → Writes c (max_subscribe_id_encode m) (max_subscribe_id_wire m)
  unfolding max_subscribe_id_wire max_subscribe_id_encode
  max_subscribe_id_encode-Writes m h = Writes-then (u64_encode-Writes m.id h.id) (Writes-done)

module _ {R : Type 0} ⦃b : Buf R⦄ where
  unfoldable pub max_subscribe_id_decode : Decoder R MaxSubscribeId
  max_subscribe_id_decode = do id ← u64_decode; pure (record { id = id })

  pub max_subscribe_id_decode-Parses :
      (m : MaxSubscribeId)
      → MaxSubscribeIdFits m
      → Parses b max_subscribe_id_decode (max_subscribe_id_wire m) m
  unfolding max_subscribe_id_wire max_subscribe_id_decode
  max_subscribe_id_decode-Parses m h = Parses-bind _ (u64_decode-Parses m.id h.id) (Parses-pure m)

  pub max_subscribe_id_decode-Ensures : Ensures b MaxSubscribeIdFits max_subscribe_id_decode
  unfolding max_subscribe_id_decode
  max_subscribe_id_decode-Ensures =
      Ensures-bind _ u64_decode-Ensures λ id id'. Ensures-pure _ (record { id = id' })

module _ {R W : Type 0} ⦃b : Buf R⦄ ⦃c : BufMut W⦄ where
  pub max_subscribe_id-IsCodec :
      IsCodec b c MaxSubscribeIdFits max_subscribe_id_wire max_subscribe_id_encode
        max_subscribe_id_decode
  max_subscribe_id-IsCodec = record {
    writes = max_subscribe_id_encode-Writes;
    parses = max_subscribe_id_decode-Parses;
    ensures = max_subscribe_id_decode-Ensures;
  }
