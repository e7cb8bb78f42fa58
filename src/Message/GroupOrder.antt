-- ===== src/Message/GroupOrder.antt =====
-- moq-transport/src/message/group_order.rs: the order in which groups are sent.
use linode_moq.Prelude.{ℕ, List, ◌≡◌, ◌==◌, if◌then◌else◌, refl, arith}
use linode_moq.Coding.Outcome.{DecodeError}
use linode_moq.Coding.Buffer.{Buf, BufMut}
use linode_moq.Coding.Decoder.{Decoder, pure, fail, ◌>>=◌}
use linode_moq.Coding.Encoder.{Encoder}
use linode_moq.Coding.Codec.{IsCodec, Any}
use linode_moq.Coding.Rules.Writes.{Writes}
use linode_moq.Coding.Rules.Parses.{Parses}
use linode_moq.Coding.Rules.Ensures.{Ensures, Ensures-bind, Ensures-if, Ensures-pure, Ensures-fail}
use linode_moq.Coding.Primitives.{coded-Parses}
use linode_moq.Prelude.BigEndian.{IsByte}
use linode_moq.Coding.Varint.{u8_encode, u8_decode}
use linode_moq.Coding.Varint.Format.{u8_wire}
use linode_moq.Coding.Varint.Encoding.{u8_encode-Writes}
use linode_moq.Coding.Varint.Decoding.{u8_decode-Parses, u8_decode-Ensures}

pub data GroupOrder : Type 0 where
  publisher ascending descending : GroupOrder

-- The number that the encoder sends.
unfoldable pub group_order_code : GroupOrder → ℕ
group_order_code publisher = 0
group_order_code ascending = 1
group_order_code descending = 2

group_order_code-fits : (s : GroupOrder) → IsByte (group_order_code s)
unfolding group_order_code
group_order_code-fits publisher = omega arith
group_order_code-fits ascending = omega arith
group_order_code-fits descending = omega arith

unfoldable pub group_order_wire : GroupOrder → List ℕ
group_order_wire s = u8_wire (group_order_code s)

module _ {W : Type 0} ⦃c : BufMut W⦄ where
  unfoldable pub group_order_encode : GroupOrder → Encoder W
  unfolding group_order_code
  group_order_encode s = u8_encode (group_order_code s)

  pub group_order_encode-Writes :
      (s : GroupOrder) → Any s → Writes c (group_order_encode s) (group_order_wire s)
  unfolding group_order_wire group_order_encode
  group_order_encode-Writes s _ = u8_encode-Writes (group_order_code s) (group_order_code-fits s)

module _ {R : Type 0} ⦃b : Buf R⦄ where
  group_order_of : ℕ → Decoder R GroupOrder
  group_order_of v =
      if v == 0
      then pure publisher
      else if v == 1
      then pure ascending
      else if v == 2
      then pure descending
      else fail DecodeError.invalid_group_order

  unfoldable pub group_order_decode : Decoder R GroupOrder
  unfolding group_order_of
  group_order_decode = do v ← u8_decode; group_order_of v

  group_order_of-code : (s : GroupOrder) → group_order_of (group_order_code s) ≡ pure s
  unfolding group_order_of group_order_code
  group_order_of-code publisher = refl
  group_order_of-code ascending = refl
  group_order_of-code descending = refl

  pub group_order_decode-Parses :
      (s : GroupOrder) → Any s → Parses b group_order_decode (group_order_wire s) s
  unfolding group_order_wire group_order_decode
  group_order_decode-Parses s _ =
      coded-Parses group_order_code group_order_of u8_decode-Parses group_order_code-fits
        group_order_of-code s

  pub group_order_decode-Ensures : Ensures b Any group_order_decode
  unfolding group_order_decode
  group_order_decode-Ensures = Ensures-bind _ u8_decode-Ensures λ v _.
      Ensures-if (v == 0) (λ _. Ensures-pure publisher tt)
        λ _.
          Ensures-if (v == 1) (λ _. Ensures-pure ascending tt)
            λ _. Ensures-if (v == 2) (λ _. Ensures-pure descending tt) λ _. Ensures-fail _

module _ {R W : Type 0} ⦃b : Buf R⦄ ⦃c : BufMut W⦄ where
  pub group_order-IsCodec : IsCodec b c Any group_order_wire group_order_encode group_order_decode
  group_order-IsCodec = record {
    writes = group_order_encode-Writes;
    parses = group_order_decode-Parses;
    ensures = group_order_decode-Ensures;
  }
