-- ===== src/Data/ObjectStatus.antt =====
-- moq-transport/src/data/object.rs: the status of an object.
use linode_moq.Prelude.{ℕ, List, ◌≡◌, ◌==◌, if◌then◌else◌, refl, arith}
use linode_moq.Coding.Outcome.{DecodeError}
use linode_moq.Coding.Buffer.{Buf, BufMut}
use linode_moq.Coding.Decoder.{Decoder, pure, fail, ◌>>=◌}
use linode_moq.Coding.Encoder.{Encoder}
use linode_moq.Coding.Codec.{IsCodec, Any}
use linode_moq.Coding.Rules.Writes.{Writes}
use linode_moq.Coding.Rules.Parses.{Parses}
use linode_moq.Coding.Rules.Ensures.{Ensures, Ensures-bind, Ensures-if, Ensures-pure, Ensures-fail}
use linode_moq.Coding.Primitives.{coded-Parses}
use linode_moq.Coding.Varint.{u64_encode, u64_decode}
use linode_moq.Coding.Varint.Format.{IsVarint, varint_wire}
use linode_moq.Coding.Varint.Encoding.{u64_encode-Writes}
use linode_moq.Coding.Varint.Integers.{u64_decode-Parses, u64_decode-Ensures}

pub data ObjectStatus : Type 0 where
  object object_does_not_exist end_of_group end_of_track end_of_subgroup : ObjectStatus

-- The number that the encoder sends.
unfoldable pub object_status_code : ObjectStatus → ℕ
object_status_code object = 0
object_status_code object_does_not_exist = 1
object_status_code end_of_group = 3
object_status_code end_of_track = 4
object_status_code end_of_subgroup = 5

object_status_code-fits : (s : ObjectStatus) → IsVarint (object_status_code s)
unfolding object_status_code
object_status_code-fits object = omega arith
object_status_code-fits object_does_not_exist = omega arith
object_status_code-fits end_of_group = omega arith
object_status_code-fits end_of_track = omega arith
object_status_code-fits end_of_subgroup = omega arith

unfoldable pub object_status_wire : ObjectStatus → List ℕ
object_status_wire s = varint_wire (object_status_code s)

module _ {W : Type 0} ⦃c : BufMut W⦄ where
  unfoldable pub object_status_encode : ObjectStatus → Encoder W
  unfolding object_status_code
  object_status_encode s = u64_encode (object_status_code s)

  pub object_status_encode-Writes :
      (s : ObjectStatus) → Any s → Writes c (object_status_encode s) (object_status_wire s)
  unfolding object_status_wire object_status_encode
  object_status_encode-Writes s _ =
      u64_encode-Writes (object_status_code s) (object_status_code-fits s)

module _ {R : Type 0} ⦃b : Buf R⦄ where
  object_status_of : ℕ → Decoder R ObjectStatus
  object_status_of v =
      if v == 0
      then pure object
      else if v == 1
      then pure object_does_not_exist
      else if v == 3
      then pure end_of_group
      else if v == 4
      then pure end_of_track
      else if v == 5
      then pure end_of_subgroup
      else fail DecodeError.invalid_object_status

  unfoldable pub object_status_decode : Decoder R ObjectStatus
  unfolding object_status_of
  object_status_decode = do v ← u64_decode; object_status_of v

  object_status_of-code : (s : ObjectStatus) → object_status_of (object_status_code s) ≡ pure s
  unfolding object_status_of object_status_code
  object_status_of-code object = refl
  object_status_of-code object_does_not_exist = refl
  object_status_of-code end_of_group = refl
  object_status_of-code end_of_track = refl
  object_status_of-code end_of_subgroup = refl

  pub object_status_decode-Parses :
      (s : ObjectStatus) → Any s → Parses b object_status_decode (object_status_wire s) s
  unfolding object_status_wire object_status_decode
  object_status_decode-Parses s _ =
      coded-Parses object_status_code object_status_of u64_decode-Parses object_status_code-fits
        object_status_of-code s

  pub object_status_decode-Ensures : Ensures b Any object_status_decode
  unfolding object_status_decode
  object_status_decode-Ensures = Ensures-bind _ u64_decode-Ensures λ v _.
      Ensures-if (v == 0) (λ _. Ensures-pure object tt)
        λ _.
          Ensures-if (v == 1) (λ _. Ensures-pure object_does_not_exist tt)
            λ _.
              Ensures-if (v == 3) (λ _. Ensures-pure end_of_group tt)
                λ _.
                  Ensures-if (v == 4) (λ _. Ensures-pure end_of_track tt)
                    λ _.
                      Ensures-if (v == 5) (λ _. Ensures-pure end_of_subgroup tt) λ _. Ensures-fail _

module _ {R W : Type 0} ⦃b : Buf R⦄ ⦃c : BufMut W⦄ where
  pub object_status-IsCodec :
      IsCodec b c Any object_status_wire object_status_encode object_status_decode
  object_status-IsCodec = record {
    writes = object_status_encode-Writes;
    parses = object_status_decode-Parses;
    ensures = object_status_decode-Ensures;
  }
