-- ===== src/Message/FilterType.antt =====
-- moq-transport/src/message/filter_type.rs: where a subscription begins and ends.
use linode_moq.Prelude.{ℕ, List, ◌≡◌, ◌==◌, if◌then◌else◌, refl, arith}
use linode_moq.Coding.Outcome.{DecodeError}
use linode_moq.Coding.Buffer.{Buf, BufMut}
use linode_moq.Coding.Decoder.{Decoder, pure, fail, ◌>>=◌}
use linode_moq.Coding.Encoder.{Encoder}
use linode_moq.Coding.Codec.{IsCodec, Any}
use linode_moq.Coding.Rules.Writes.{Writes}
use linode_moq.Coding.Rules.Parses.{Parses}
use linode_moq.Coding.Rules.Ensures.{Ensures, Ensures-bind, Ensures-if, Ensures-pure, Ensures-fail}
use linode_moq.Coding.Primitives.{coded-Parses}
use linode_moq.Coding.Varint.{u64_encode, u64_decode}
use linode_moq.Coding.Varint.Format.{IsVarint, varint_wire}
use linode_moq.Coding.Varint.Encoding.{u64_encode-Writes}
use linode_moq.Coding.Varint.Integers.{u64_decode-Parses, u64_decode-Ensures}

pub data FilterType : Type 0 where
  latest_group latest_object absolute_start absolute_range : FilterType

-- The number that the encoder sends.
unfoldable pub filter_type_code : FilterType → ℕ
filter_type_code latest_group = 1
filter_type_code latest_object = 2
filter_type_code absolute_start = 3
filter_type_code absolute_range = 4

filter_type_code-fits : (s : FilterType) → IsVarint (filter_type_code s)
unfolding filter_type_code
filter_type_code-fits latest_group = omega arith
filter_type_code-fits latest_object = omega arith
filter_type_code-fits absolute_start = omega arith
filter_type_code-fits absolute_range = omega arith

unfoldable pub filter_type_wire : FilterType → List ℕ
filter_type_wire s = varint_wire (filter_type_code s)

module _ {W : Type 0} ⦃c : BufMut W⦄ where
  unfoldable pub filter_type_encode : FilterType → Encoder W
  unfolding filter_type_code
  filter_type_encode s = u64_encode (filter_type_code s)

  pub filter_type_encode-Writes :
      (s : FilterType) → Any s → Writes c (filter_type_encode s) (filter_type_wire s)
  unfolding filter_type_wire filter_type_encode
  filter_type_encode-Writes s _ = u64_encode-Writes (filter_type_code s) (filter_type_code-fits s)

module _ {R : Type 0} ⦃b : Buf R⦄ where
  filter_type_of : ℕ → Decoder R FilterType
  filter_type_of v =
      if v == 1
      then pure latest_group
      else if v == 2
      then pure latest_object
      else if v == 3
      then pure absolute_start
      else if v == 4
      then pure absolute_range
      else fail DecodeError.invalid_filter_type

  unfoldable pub filter_type_decode : Decoder R FilterType
  unfolding filter_type_of
  filter_type_decode = do v ← u64_decode; filter_type_of v

  filter_type_of-code : (s : FilterType) → filter_type_of (filter_type_code s) ≡ pure s
  unfolding filter_type_of filter_type_code
  filter_type_of-code latest_group = refl
  filter_type_of-code latest_object = refl
  filter_type_of-code absolute_start = refl
  filter_type_of-code absolute_range = refl

  pub filter_type_decode-Parses :
      (s : FilterType) → Any s → Parses b filter_type_decode (filter_type_wire s) s
  unfolding filter_type_wire filter_type_decode
  filter_type_decode-Parses s _ =
      coded-Parses filter_type_code filter_type_of u64_decode-Parses filter_type_code-fits
        filter_type_of-code s

  pub filter_type_decode-Ensures : Ensures b Any filter_type_decode
  unfolding filter_type_decode
  filter_type_decode-Ensures = Ensures-bind _ u64_decode-Ensures λ v _.
      Ensures-if (v == 1) (λ _. Ensures-pure latest_group tt)
        λ _.
          Ensures-if (v == 2) (λ _. Ensures-pure latest_object tt)
            λ _.
              Ensures-if (v == 3) (λ _. Ensures-pure absolute_start tt)
                λ _. Ensures-if (v == 4) (λ _. Ensures-pure absolute_range tt) λ _. Ensures-fail _

module _ {R W : Type 0} ⦃b : Buf R⦄ ⦃c : BufMut W⦄ where
  pub filter_type-IsCodec : IsCodec b c Any filter_type_wire filter_type_encode filter_type_decode
  filter_type-IsCodec = record {
    writes = filter_type_encode-Writes;
    parses = filter_type_decode-Parses;
    ensures = filter_type_decode-Ensures;
  }
