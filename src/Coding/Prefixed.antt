-- ===== src/Coding/Prefixed.antt =====
-- Bytes behind their number, as String, TupleField and Params in moq-transport/src/coding send
-- them: `len.encode(w)?`, `encode_remaining`, `put_slice`, and the reverse.
use linode_moq.Prelude.{ℕ, List, ◌++◌, length, arith, All}
use linode_moq.Prelude.BigEndian.{IsByte}
use linode_moq.Coding.Buffer.{Buf, BufMut}
use linode_moq.Coding.Decoder.{Decoder, ◌>>=◌}
use linode_moq.Coding.Encoder.{Encoder, ◌>>◌, put_slice, encode_remaining}
use linode_moq.Coding.Rules.Writes.{Writes, Writes-then, Writes-checked, Writes-put_slice}
use linode_moq.Coding.Rules.Parses.{Parses, Parses-bind}
use linode_moq.Coding.Rules.Ensures.{Ensures, Ensures-bind, Ensures-weaken}
use linode_moq.Coding.Varint.{u64_encode, u64_decode, read_bytes}
use linode_moq.Coding.Varint.Format.{IsVarint, varint_wire}
use linode_moq.Coding.Varint.Encoding.{u64_encode-Writes}
use linode_moq.Coding.Varint.Integers.{u64_decode-Parses, u64_decode-Ensures}
use linode_moq.Coding.Varint.Decoding.{read_bytes-Parses, read_bytes-Ensures}

unfoldable pub prefixed_wire : List ℕ → List ℕ
prefixed_wire bs = varint_wire (length bs) ++ bs

-- A `Vec<u8>` or `String` whose length can be sent.
pub record IsSized (bs : List ℕ) : Type 0 where
  pub bytes : All IsByte bs
  pub size : IsVarint (length bs)

module _ {W : Type 0} ⦃c : BufMut W⦄ where
  unfoldable pub prefixed_encode : List ℕ → Encoder W
  prefixed_encode bs = do u64_encode (length bs); encode_remaining (length bs); put_slice bs

  pub prefixed_encode-Writes :
      (bs : List ℕ) → IsSized bs → Writes c (prefixed_encode bs) (prefixed_wire bs)
  unfolding prefixed_encode prefixed_wire
  prefixed_encode-Writes bs h =
      Writes-then (u64_encode-Writes _ h.size) (Writes-checked (omega arith) (Writes-put_slice bs))

module _ {R : Type 0} ⦃b : Buf R⦄ where
  unfoldable pub prefixed_decode : Decoder R (List ℕ)
  prefixed_decode = do size ← u64_decode; read_bytes size

  pub prefixed_decode-Parses :
      (bs : List ℕ) → IsSized bs → Parses b prefixed_decode (prefixed_wire bs) bs
  unfolding prefixed_decode prefixed_wire
  prefixed_decode-Parses bs h = Parses-bind _ (u64_decode-Parses _ h.size) (read_bytes-Parses bs)

  sized : (n : ℕ) → IsVarint n → Ensures b IsSized (read_bytes n)
  sized n h =
      Ensures-weaken (λ bs p. record { bytes = p.0; size = omega (arith, p.1) })
        (read_bytes-Ensures n)

  pub prefixed_decode-Ensures : Ensures b IsSized prefixed_decode
  unfolding prefixed_decode
  prefixed_decode-Ensures = Ensures-bind _ u64_decode-Ensures sized
