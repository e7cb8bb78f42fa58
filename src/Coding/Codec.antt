-- ===== src/Coding/Codec.antt =====
-- The contract of a type that implements both `Encode` and `Decode`.
use linode_moq.Prelude.{ℕ, List}
use linode_moq.Coding.Buffer.{Buf, BufMut}
use linode_moq.Coding.Decoder.{Decoder}
use linode_moq.Coding.Encoder.{Encoder}
use linode_moq.Coding.Rules.Writes.{Writes}
use linode_moq.Coding.Rules.Parses.{Parses}
use linode_moq.Coding.Rules.Ensures.{Ensures}

-- Of every value that fits the format: where there is room the encoder returns and appends the
-- value's wire form; the decoder reads the value back off that form and leaves what follows; and
-- on a proper front of that form it asks for more, and for no more than is missing.
-- On any bytes at all the decoder does not panic, and what it returns fits the format.
pub record IsCodec {R W A : Type 0} (b : Buf R) (c : BufMut W) (Fits : A → Type 0)
    (wire : A → List ℕ) (encode : A → Encoder W) (decode : Decoder R A) : Type 0 where
  pub writes : (a : A) → Fits a → Writes c (encode a) (wire a)
  pub parses : (a : A) → Fits a → Parses b decode (wire a) a
  pub ensures : Ensures b Fits decode

-- Of a type whose every value has a wire form.
abbrev pub Any {ℓ} : {A : Type ℓ} → A → Type 0
Any a = Unit
