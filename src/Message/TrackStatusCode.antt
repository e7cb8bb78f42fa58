-- ===== src/Message/TrackStatusCode.antt =====
-- moq-transport/src/message/mod.rs: the status of a track.
use linode_moq.Prelude.{ℕ, List, ◌≡◌, ◌==◌, if◌then◌else◌, refl, arith}
use linode_moq.Coding.Outcome.{DecodeError}
use linode_moq.Coding.Buffer.{Buf, BufMut}
use linode_moq.Coding.Decoder.{Decoder, pure, fail, ◌>>=◌}
use linode_moq.Coding.Encoder.{Encoder}
use linode_moq.Coding.Codec.{IsCodec, Any}
use linode_moq.Coding.Rules.Writes.{Writes}
use linode_moq.Coding.Rules.Parses.{Parses}
use linode_moq.Coding.Rules.Ensures.{Ensures, Ensures-bind, Ensures-if, Ensures-pure, Ensures-fail}
use linode_moq.Coding.Primitives.{coded-Parses}
use linode_moq.Coding.Varint.{u64_encode, u64_decode}
use linode_moq.Coding.Varint.Format.{IsVarint, varint_wire}
use linode_moq.Coding.Varint.Encoding.{u64_encode-Writes}
use linode_moq.Coding.Varint.Integers.{u64_decode-Parses, u64_decode-Ensures}

pub data TrackStatusCode : Type 0 where
  in_progress does_not_exist not_yet_begun finished relay : TrackStatusCode

-- The number that the encoder sends.
unfoldable pub track_status_code_code : TrackStatusCode → ℕ
track_status_code_code in_progress = 0
track_status_code_code does_not_exist = 1
track_status_code_code not_yet_begun = 2
track_status_code_code finished = 3
track_status_code_code relay = 4

track_status_code_code-fits : (s : TrackStatusCode) → IsVarint (track_status_code_code s)
unfolding track_status_code_code
track_status_code_code-fits in_progress = omega arith
track_status_code_code-fits does_not_exist = omega arith
track_status_code_code-fits not_yet_begun = omega arith
track_status_code_code-fits finished = omega arith
track_status_code_code-fits relay = omega arith

unfoldable pub track_status_code_wire : TrackStatusCode → List ℕ
track_status_code_wire s = varint_wire (track_status_code_code s)

module _ {W : Type 0} ⦃c : BufMut W⦄ where
  unfoldable pub track_status_code_encode : TrackStatusCode → Encoder W
  unfolding track_status_code_code
  track_status_code_encode s = u64_encode (track_status_code_code s)

  pub track_status_code_encode-Writes :
      (s : TrackStatusCode)
      → Any s
      → Writes c (track_status_code_encode s) (track_status_code_wire s)
  unfolding track_status_code_wire track_status_code_encode
  track_status_code_encode-Writes s _ =
      u64_encode-Writes (track_status_code_code s) (track_status_code_code-fits s)

module _ {R : Type 0} ⦃b : Buf R⦄ where
  track_status_code_of : ℕ → Decoder R TrackStatusCode
  track_status_code_of v =
      if v == 0
      then pure in_progress
      else if v == 1
      then pure does_not_exist
      else if v == 2
      then pure not_yet_begun
      else if v == 3
      then pure finished
      else if v == 4
      then pure relay
      else fail DecodeError.invalid_track_status_code

  unfoldable pub track_status_code_decode : Decoder R TrackStatusCode
  unfolding track_status_code_of
  track_status_code_decode = do v ← u64_decode; track_status_code_of v

  track_status_code_of-code :
      (s : TrackStatusCode) → track_status_code_of (track_status_code_code s) ≡ pure s
  unfolding track_status_code_of track_status_code_code
  track_status_code_of-code in_progress = refl
  track_status_code_of-code does_not_exist = refl
  track_status_code_of-code not_yet_begun = refl
  track_status_code_of-code finished = refl
  track_status_code_of-code relay = refl

  pub track_status_code_decode-Parses :
      (s : TrackStatusCode) → Any s → Parses b track_status_code_decode (track_status_code_wire s) s
  unfolding track_status_code_wire track_status_code_decode
  track_status_code_decode-Parses s _ =
      coded-Parses track_status_code_code track_status_code_of u64_decode-Parses
        track_status_code_code-fits track_status_code_of-code s

  pub track_status_code_decode-Ensures : Ensures b Any track_status_code_decode
  unfolding track_status_code_decode
  track_status_code_decode-Ensures = Ensures-bind _ u64_decode-Ensures λ v _.
      Ensures-if (v == 0) (λ _. Ensures-pure in_progress tt)
        λ _.
          Ensures-if (v == 1) (λ _. Ensures-pure does_not_exist tt)
            λ _.
              Ensures-if (v == 2) (λ _. Ensures-pure not_yet_begun tt)
                λ _.
                  Ensures-if (v == 3) (λ _. Ensures-pure finished tt)
                    λ _. Ensures-if (v == 4) (λ _. Ensures-pure relay tt) λ _. Ensures-fail _

module _ {R W : Type 0} ⦃b : Buf R⦄ ⦃c : BufMut W⦄ where
  pub track_status_code-IsCodec :
      IsCodec b c Any track_status_code_wire track_status_code_encode track_status_code_decode
  track_status_code-IsCodec = record {
    writes = track_status_code_encode-Writes;
    parses = track_status_code_decode-Parses;
    ensures = track_status_code_decode-Ensures;
  }
