-- ===== src/Message/AnnounceError.antt =====
-- moq-transport/src/message/announce_error.rs: a subscriber rejects an announce.
use linode_moq.Prelude.{ℕ, List, [], ◌++◌}
use linode_moq.Coding.Buffer.{Buf, BufMut}
use linode_moq.Coding.Decoder.{Decoder, pure, ◌>>=◌}
use linode_moq.Coding.Encoder.{Encoder, done, ◌>>◌}
use linode_moq.Coding.Codec.{IsCodec}
use linode_moq.Coding.Rules.Writes.{Writes, Writes-then, Writes-done}
use linode_moq.Coding.Rules.Parses.{Parses, Parses-bind, Parses-pure}
use linode_moq.Coding.Rules.Ensures.{Ensures, Ensures-bind, Ensures-pure}
use linode_moq.Coding.Tuple.{
  Tuple, TupleFits, tuple_wire, tuple_encode, tuple_decode, tuple_encode-Writes,
  tuple_decode-Parses, tuple_decode-Ensures,
}
use linode_moq.Coding.Varint.{u64_encode, u64_decode}
use linode_moq.Coding.Varint.Format.{IsVarint, varint_wire}
use linode_moq.Coding.Varint.Encoding.{u64_encode-Writes}
use linode_moq.Coding.Varint.Integers.{u64_decode-Parses, u64_decode-Ensures}
use linode_moq.Coding.Text.{
  IsText, string_wire, string_encode, string_decode, string_encode-Writes, string_decode-Parses,
  string_decode-Ensures,
}

pub record AnnounceError : Type 0 where
  pub namespace : Tuple
  pub error_code : ℕ
  pub reason_phrase : List ℕ

pub record AnnounceErrorFits (m : AnnounceError) : Type 0 where
  pub namespace : TupleFits m.namespace
  pub error_code : IsVarint m.error_code
  pub reason_phrase : IsText m.reason_phrase

unfoldable pub announce_error_wire : AnnounceError → List ℕ
announce_error_wire m =
    tuple_wire m.namespace ++ (varint_wire m.error_code ++ (string_wire m.reason_phrase ++ []))

module _ {W : Type 0} ⦃c : BufMut W⦄ where
  unfoldable pub announce_error_encode : AnnounceError → Encoder W
  announce_error_encode m = do
    tuple_encode m.namespace
    u64_encode m.error_code
    string_encode m.reason_phrase
    done

  pub announce_error_encode-Writes :
      (m : AnnounceError)
      → AnnounceErrorFits m
      → Writes c (announce_error_encode m) (announce_error_wire m)
  unfolding announce_error_wire announce_error_encode
  announce_error_encode-Writes m h = Writes-then (tuple_encode-Writes m.namespace h.namespace) (
      Writes-then (u64_encode-Writes m.error_code h.error_code)
        (Writes-then (string_encode-Writes m.reason_phrase h.reason_phrase) (Writes-done)))

module _ {R : Type 0} ⦃b : Buf R⦄ where
  unfoldable pub announce_error_decode : Decoder R AnnounceError
  announce_error_decode = do
    namespace ← tuple_decode
    error_code ← u64_decode
    reason_phrase ← string_decode
    pure (record { namespace = namespace; error_code = error_code; reason_phrase = reason_phrase })

  pub announce_error_decode-Parses :
      (m : AnnounceError)
      → AnnounceErrorFits m
      → Parses b announce_error_decode (announce_error_wire m) m
  unfolding announce_error_wire announce_error_decode
  announce_error_decode-Parses m h = Parses-bind _ (tuple_decode-Parses m.namespace h.namespace) (
      Parses-bind _ (u64_decode-Parses m.error_code h.error_code)
        (Parses-bind _ (string_decode-Parses m.reason_phrase h.reason_phrase) (Parses-pure m)))

  pub announce_error_decode-Ensures : Ensures b AnnounceErrorFits announce_error_decode
  unfolding announce_error_decode
  announce_error_decode-Ensures = Ensures-bind _ tuple_decode-Ensures λ namespace namespace'.
      Ensures-bind _ u64_decode-Ensures λ error_code error_code'.
        Ensures-bind _ string_decode-Ensures λ reason_phrase reason_phrase'.
          Ensures-pure _ (record {
            namespace = namespace';
            error_code = error_code';
            reason_phrase = reason_phrase';
          })

module _ {R W : Type 0} ⦃b : Buf R⦄ ⦃c : BufMut W⦄ where
  pub announce_error-IsCodec :
      IsCodec b c AnnounceErrorFits announce_error_wire announce_error_encode announce_error_decode
  announce_error-IsCodec = record {
    writes = announce_error_encode-Writes;
    parses = announce_error_decode-Parses;
    ensures = announce_error_decode-Ensures;
  }
