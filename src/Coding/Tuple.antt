-- ===== src/Coding/Tuple.antt =====
-- moq-transport/src/coding/tuple.rs: tuple fields and tuples, which name tracks.
use linode_moq.Prelude.{ℕ, List, [], ◌++◌, length, All, arith}
use linode_moq.Coding.Buffer.{Buf, BufMut}
use linode_moq.Coding.Decoder.{Decoder, pure, ◌>>=◌}
use linode_moq.Coding.Encoder.{Encoder, done, ◌>>◌}
use linode_moq.Coding.Codec.{IsCodec}
use linode_moq.Coding.Rules.Writes.{Writes, Writes-then, Writes-done}
use linode_moq.Coding.Rules.Parses.{Parses, Parses-bind, Parses-pure}
use linode_moq.Coding.Rules.Ensures.{Ensures, Ensures-bind, Ensures-pure}
use linode_moq.Coding.Varint.{u64_encode, u64_decode}
use linode_moq.Coding.Varint.Format.{IsVarint, varint_wire}
use linode_moq.Coding.Varint.Encoding.{u64_encode-Writes}
use linode_moq.Coding.Varint.Integers.{u64_decode-Parses, u64_decode-Ensures}
use linode_moq.Coding.Prefixed.{
  IsSized, prefixed_wire, prefixed_encode, prefixed_decode, prefixed_encode-Writes,
  prefixed_decode-Parses, prefixed_decode-Ensures,
}
use linode_moq.Coding.Sequence.{
  each_wire, encode_each, decode_each, encode_each-Writes, decode_each-Parses, decode_each-Ensures,
}

pub record TupleField : Type 0 where
  pub value : List ℕ

pub record Tuple : Type 0 where
  pub fields : List TupleField

pub record TupleFieldFits (f : TupleField) : Type 0 where
  pub value : IsSized f.value

pub record TupleFits (t : Tuple) : Type 0 where
  pub fields : All TupleFieldFits t.fields
  pub count : IsVarint (length t.fields)

unfoldable pub tuple_field_wire : TupleField → List ℕ
tuple_field_wire f = prefixed_wire f.value ++ []

unfoldable pub tuple_wire : Tuple → List ℕ
tuple_wire t = varint_wire (length t.fields) ++ (each_wire tuple_field_wire t.fields ++ [])

module _ {W : Type 0} ⦃c : BufMut W⦄ where
  unfoldable pub tuple_field_encode : TupleField → Encoder W
  tuple_field_encode f = do prefixed_encode f.value; done

  unfoldable pub tuple_encode : Tuple → Encoder W
  tuple_encode t = do u64_encode (length t.fields); encode_each tuple_field_encode t.fields; done

module _ {R : Type 0} ⦃b : Buf R⦄ where
  unfoldable pub tuple_field_decode : Decoder R TupleField
  tuple_field_decode = do buf ← prefixed_decode; pure (record { value = buf })

  unfoldable pub tuple_decode : Decoder R Tuple
  tuple_decode = do
    count ← u64_decode
    fields ← decode_each count tuple_field_decode
    pure (record { fields = fields })

module _ {W : Type 0} ⦃c : BufMut W⦄ where
  pub tuple_field_encode-Writes :
      (f : TupleField) → TupleFieldFits f → Writes c (tuple_field_encode f) (tuple_field_wire f)
  unfolding tuple_field_wire tuple_field_encode
  tuple_field_encode-Writes f h = Writes-then (prefixed_encode-Writes f.value h.value) Writes-done

  pub tuple_encode-Writes : (t : Tuple) → TupleFits t → Writes c (tuple_encode t) (tuple_wire t)
  unfolding tuple_wire tuple_encode
  tuple_encode-Writes t h =
      Writes-then (u64_encode-Writes _ h.count)
        (Writes-then (encode_each-Writes tuple_field_encode-Writes t.fields h.fields) Writes-done)

module _ {R : Type 0} ⦃b : Buf R⦄ where
  pub tuple_field_decode-Parses :
      (f : TupleField) → TupleFieldFits f → Parses b tuple_field_decode (tuple_field_wire f) f
  unfolding tuple_field_wire tuple_field_decode
  tuple_field_decode-Parses f h =
      Parses-bind _ (prefixed_decode-Parses f.value h.value) (Parses-pure f)

  pub tuple_field_decode-Ensures : Ensures b TupleFieldFits tuple_field_decode
  unfolding tuple_field_decode
  tuple_field_decode-Ensures =
      Ensures-bind _ prefixed_decode-Ensures λ buf h. Ensures-pure _ (record { value = h })

  pub tuple_decode-Parses : (t : Tuple) → TupleFits t → Parses b tuple_decode (tuple_wire t) t
  unfolding tuple_wire tuple_decode
  tuple_decode-Parses t h = Parses-bind _ (u64_decode-Parses _ h.count) (
      Parses-bind _ (decode_each-Parses tuple_field_decode-Parses t.fields h.fields)
        (Parses-pure t))

  pub tuple_decode-Ensures : Ensures b TupleFits tuple_decode
  unfolding tuple_decode
  tuple_decode-Ensures = Ensures-bind _ u64_decode-Ensures λ count hc.
      Ensures-bind _ (decode_each-Ensures tuple_field_decode-Ensures count)
        λ fields (h, size). Ensures-pure _ (record { fields = h; count = omega arith })

module _ {R W : Type 0} ⦃b : Buf R⦄ ⦃c : BufMut W⦄ where
  pub tuple-IsCodec : IsCodec b c TupleFits tuple_wire tuple_encode tuple_decode
  tuple-IsCodec = record {
    writes = tuple_encode-Writes;
    parses = tuple_decode-Parses;
    ensures = tuple_decode-Ensures;
  }
