-- ===== src/Coding/Varint.antt =====
-- moq-transport/src/coding/varint.rs: QUIC variable-length integers, and the codecs of u64, usize
-- and u8. A `VarInt` and an unsigned integer are numbers; `usize` has 64 bits.
pub mod Format
pub mod Decoding
pub mod Integers
pub mod Encoding
use linode_moq.Prelude.{
  ℕ, ◌+◌, ◌*◌, ◌/◌, ◌%◌, ◌^◌, ◌-◌, bit_and, bit_or, List, ◌∷◌, ltb, leb, ◌==◌, if◌then◌else◌,
}
use linode_moq.Prelude.BigEndian.{be_value}
use linode_moq.Coding.Outcome.{EncodeError, Outcome, ok, err}
use linode_moq.Coding.Buffer.{Buf, BufMut}
use linode_moq.Coding.Decoder.{Decoder, pure, abort, ◌>>=◌, get_u8, copy_to_slice, decode_remaining}
use linode_moq.Coding.Encoder
use linode_moq.Coding.Encoder.{Encoder, fail, ◌>>◌, put_uint, encode_remaining}

-- `VarInt::MAX`
abbrev pub max_varint : ℕ
max_varint = 2 ^ 62 - 1

-- `VarInt::try_from`, of a u64 and of a usize
unfoldable pub try_from : ℕ → Outcome EncodeError ℕ
try_from x = if leb x max_varint then ok x else err EncodeError.bounds_exceeded

module _ {R : Type 0} ⦃b : Buf R⦄ where
  unfoldable pub u8_decode : Decoder R ℕ
  u8_decode = do _ ← decode_remaining 1; get_u8

  -- `n` more bytes behind the test that they are there
  unfoldable pub read_bytes : ℕ → Decoder R (List ℕ)
  read_bytes n = do _ ← decode_remaining n; copy_to_slice n

  -- One arm of the match on the tag: `n` bytes behind the first, as one big-endian integer.
  unfoldable pub varint_rest : ℕ → ℕ → Decoder R ℕ
  varint_rest first n = do rest ← read_bytes n; pure (be_value 0 (first ∷ rest))

  -- The match on `tag`, whose last arm is `unreachable!()`.
  unfoldable pub varint_match : ℕ → ℕ → Decoder R ℕ
  varint_match tag first =
      if tag == 0
      then pure first
      else if tag == 1
      then varint_rest first 1
      else if tag == 2
      then varint_rest first 3
      else if tag == 3
      then varint_rest first 7
      else abort

  unfoldable pub varint_decode : Decoder R ℕ
  varint_decode = do x ← u8_decode; varint_match (x / 2 ^ 6) (bit_and x 0x3f)

  -- `u64::decode` and `usize::decode`
  unfoldable pub u64_decode : Decoder R ℕ
  u64_decode = do v ← varint_decode; pure v

module _ {W : Type 0} ⦃b : BufMut W⦄ where
  unfoldable pub u8_encode : ℕ → Encoder W
  u8_encode x = put_uint 1 x

  unfoldable pub varint_encode : ℕ → Encoder W
  varint_encode x =
      if ltb x (2 ^ 6)
      then (do encode_remaining 1; put_uint 1 (x % 2 ^ 8))
      else if ltb x (2 ^ 14)
      then (do encode_remaining 2; put_uint 2 (bit_or (1 * 2 ^ 14) (x % 2 ^ 16)))
      else if ltb x (2 ^ 30)
      then (do encode_remaining 4; put_uint 4 (bit_or (2 * 2 ^ 30) (x % 2 ^ 32)))
      else if ltb x (2 ^ 62)
      then (do encode_remaining 8; put_uint 8 (bit_or (3 * 2 ^ 62) x))
      else fail EncodeError.bounds_exceeded

  encode_tried : Outcome EncodeError ℕ → Encoder W
  encode_tried (ok x) = varint_encode x
  encode_tried (err e) = fail e
  encode_tried Outcome.panic = Encoder.abort

  -- `u64::encode` and `usize::encode`
  unfoldable pub u64_encode : ℕ → Encoder W
  unfolding encode_tried try_from
  u64_encode x = encode_tried (try_from x)
