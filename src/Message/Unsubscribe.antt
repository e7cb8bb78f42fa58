-- ===== src/Message/Unsubscribe.antt =====
-- moq-transport/src/message/unsubscribe.rs: a subscriber ends a subscription.
use linode_moq.Prelude.{ℕ, List, [], ◌++◌}
use linode_moq.Coding.Buffer.{Buf, BufMut}
use linode_moq.Coding.Decoder.{Decoder, pure, ◌>>=◌}
use linode_moq.Coding.Encoder.{Encoder, done, ◌>>◌}
use linode_moq.Coding.Codec.{IsCodec}
use linode_moq.Coding.Rules.Writes.{Writes, Writes-then, Writes-done}
use linode_moq.Coding.Rules.Parses.{Parses, Parses-bind, Parses-pure}
use linode_moq.Coding.Rules.Ensures.{Ensures, Ensures-bind, Ensures-pure}
use linode_moq.Coding.Varint.{u64_encode, u64_decode}
use linode_moq.Coding.Varint.Format.{IsVarint, varint_wire}
use linode_moq.Coding.Varint.Encoding.{u64_encode-Writes}
use linode_moq.Coding.Varint.Integers.{u64_decode-Parses, u64_decode-Ensures}

pub record Unsubscribe : Type 0 where
  pub id : ℕ

pub record UnsubscribeFits (m : Unsubscribe) : Type 0 where
  pub id : IsVarint m.id

unfoldable pub unsubscribe_wire : Unsubscribe → List ℕ
unsubscribe_wire m = varint_wire m.id ++ []

module _ {W : Type 0} ⦃c : BufMut W⦄ where
  unfoldable pub unsubscribe_encode : Unsubscribe → Encoder W
  unsubscribe_encode m = do u64_encode m.id; done

  pub unsubscribe_encode-Writes :
      (m : Unsubscribe) → UnsubscribeFits m → Writes c (unsubscribe_encode m) (unsubscribe_wire m)
  unfolding unsubscribe_wire unsubscribe_encode
  unsubscribe_encode-Writes m h = Writes-then (u64_encode-Writes m.id h.id) (Writes-done)

module _ {R : Type 0} ⦃b : Buf R⦄ where
  unfoldable pub unsubscribe_decode : Decoder R Unsubscribe
  unsubscribe_decode = do id ← u64_decode; pure (record { id = id })

  pub unsubscribe_decode-Parses :
      (m : Unsubscribe) → UnsubscribeFits m → Parses b unsubscribe_decode (unsubscribe_wire m) m
  unfolding unsubscribe_wire unsubscribe_decode
  unsubscribe_decode-Parses m h = Parses-bind _ (u64_decode-Parses m.id h.id) (Parses-pure m)

  pub unsubscribe_decode-Ensures : Ensures b UnsubscribeFits unsubscribe_decode
  unfolding unsubscribe_decode
  unsubscribe_decode-Ensures =
      Ensures-bind _ u64_decode-Ensures λ id id'. Ensures-pure _ (record { id = id' })

module _ {R W : Type 0} ⦃b : Buf R⦄ ⦃c : BufMut W⦄ where
  pub unsubscribe-IsCodec :
      IsCodec b c UnsubscribeFits unsubscribe_wire unsubscribe_encode unsubscribe_decode
  unsubscribe-IsCodec = record {
    writes = unsubscribe_encode-Writes;
    parses = unsubscribe_decode-Parses;
    ensures = unsubscribe_decode-Ensures;
  }
