-- ===== src/Coding/Primitives.antt =====
-- The codecs of u8 and u64, and of an enum that is sent as a number.
use linode_moq.Prelude.{ℕ, List, ◌≡◌}
use linode_moq.Prelude.BigEndian.{IsByte}
use linode_moq.Coding.Buffer.{Buf, BufMut}
use linode_moq.Coding.Decoder.{Decoder, pure, ◌>>=◌}
use linode_moq.Coding.Codec.{IsCodec}
use linode_moq.Coding.Rules.Parses.{Parses, Parses-last, Parses-pure}
use linode_moq.Coding.Varint.{u8_encode, u8_decode, u64_encode, u64_decode}
use linode_moq.Coding.Varint.Format.{IsVarint, varint_wire, u8_wire}
use linode_moq.Coding.Varint.Encoding.{u8_encode-Writes, u64_encode-Writes}
use linode_moq.Coding.Varint.Decoding.{u8_decode-Parses, u8_decode-Ensures}
use linode_moq.Coding.Varint.Integers.{u64_decode-Parses, u64_decode-Ensures}

module _ {R W : Type 0} ⦃b : Buf R⦄ ⦃c : BufMut W⦄ where
  pub u8-IsCodec : IsCodec b c IsByte u8_wire u8_encode u8_decode
  u8-IsCodec = record {
    writes = u8_encode-Writes;
    parses = u8_decode-Parses;
    ensures = u8_decode-Ensures;
  }

  pub u64-IsCodec : IsCodec b c IsVarint varint_wire u64_encode u64_decode
  u64-IsCodec = record {
    writes = u64_encode-Writes;
    parses = u64_decode-Parses;
    ensures = u64_decode-Ensures;
  }

-- `code` gives an enum's number, and `of_code` is the match on a number that was read.
module _ {A : Type 0} (code : A → ℕ) where
  pub coded-Parses :
      {R : Type 0} ⦃b : Buf R⦄ {Fits : ℕ → Type 0} {wire : ℕ → List ℕ} {decode : Decoder R ℕ}
      (of_code : ℕ → Decoder R A)
      → ((n : ℕ) → Fits n → Parses b decode (wire n) n)
      → ((a : A) → Fits (code a))
      → ((a : A) → of_code (code a) ≡ pure a)
      → (a : A) → Parses b (decode >>= of_code) (wire (code a)) a
  coded-Parses of_code parses fits back a =
      Parses-last of_code (parses (code a) (fits a)) (rw back (Parses-pure a))
