-- ===== src/Message/AnnounceCancel.antt =====
-- moq-transport/src/message/announce_cancel.rs: a subscriber withdraws its acceptance.
use linode_moq.Prelude.{ℕ, List, [], ◌++◌}
use linode_moq.Coding.Buffer.{Buf, BufMut}
use linode_moq.Coding.Decoder.{Decoder, pure, ◌>>=◌}
use linode_moq.Coding.Encoder.{Encoder, done, ◌>>◌}
use linode_moq.Coding.Codec.{IsCodec}
use linode_moq.Coding.Rules.Writes.{Writes, Writes-then, Writes-done}
use linode_moq.Coding.Rules.Parses.{Parses, Parses-bind, Parses-pure}
use linode_moq.Coding.Rules.Ensures.{Ensures, Ensures-bind, Ensures-pure}
use linode_moq.Coding.Tuple.{
  Tuple, TupleFits, tuple_wire, tuple_encode, tuple_decode, tuple_encode-Writes,
  tuple_decode-Parses, tuple_decode-Ensures,
}
use linode_moq.Coding.Varint.{u64_encode, u64_decode}
use linode_moq.Coding.Varint.Format.{IsVarint, varint_wire}
use linode_moq.Coding.Varint.Encoding.{u64_encode-Writes}
use linode_moq.Coding.Varint.Integers.{u64_decode-Parses, u64_decode-Ensures}
use linode_moq.Coding.Text.{
  IsText, string_wire, string_encode, string_decode, string_encode-Writes, string_decode-Parses,
  string_decode-Ensures,
}

pub record AnnounceCancel : Type 0 where
  pub namespace : Tuple
  pub error_code : ℕ
  pub reason_phrase : List ℕ

pub record AnnounceCancelFits (m : AnnounceCancel) : Type 0 where
  pub namespace : TupleFits m.namespace
  pub error_code : IsVarint m.error_code
  pub reason_phrase : IsText m.reason_phrase

unfoldable pub announce_cancel_wire : AnnounceCancel → List ℕ
announce_cancel_wire m =
    tuple_wire m.namespace ++ (varint_wire m.error_code ++ (string_wire m.reason_phrase ++ []))

module _ {W : Type 0} ⦃c : BufMut W⦄ where
  unfoldable pub announce_cancel_encode : AnnounceCancel → Encoder W
  announce_cancel_encode m = do
    tuple_encode m.namespace
    u64_encode m.error_code
    string_encode m.reason_phrase
    done

  pub announce_cancel_encode-Writes :
      (m : AnnounceCancel)
      → AnnounceCancelFits m
      → Writes c (announce_cancel_encode m) (announce_cancel_wire m)
  unfolding announce_cancel_wire announce_cancel_encode
  announce_cancel_encode-Writes m h = Writes-then (tuple_encode-Writes m.namespace h.namespace) (
      Writes-then (u64_encode-Writes m.error_code h.error_code)
        (Writes-then (string_encode-Writes m.reason_phrase h.reason_phrase) (Writes-done)))

module _ {R : Type 0} ⦃b : Buf R⦄ where
  unfoldable pub announce_cancel_decode : Decoder R AnnounceCancel
  announce_cancel_decode = do
    namespace ← tuple_decode
    error_code ← u64_decode
    reason_phrase ← string_decode
    pure (record { namespace = namespace; error_code = error_code; reason_phrase = reason_phrase })

  pub announce_cancel_decode-Parses :
      (m : AnnounceCancel)
      → AnnounceCancelFits m
      → Parses b announce_cancel_decode (announce_cancel_wire m) m
  unfolding announce_cancel_wire announce_cancel_decode
  announce_cancel_decode-Parses m h = Parses-bind _ (tuple_decode-Parses m.namespace h.namespace) (
      Parses-bind _ (u64_decode-Parses m.error_code h.error_code)
        (Parses-bind _ (string_decode-Parses m.reason_phrase h.reason_phrase) (Parses-pure m)))

  pub announce_cancel_decode-Ensures : Ensures b AnnounceCancelFits announce_cancel_decode
  unfolding announce_cancel_decode
  announce_cancel_decode-Ensures = Ensures-bind _ tuple_decode-Ensures λ namespace namespace'.
      Ensures-bind _ u64_decode-Ensures λ error_code error_code'.
        Ensures-bind _ string_decode-Ensures λ reason_phrase reason_phrase'.
          Ensures-pure _ (record {
            namespace = namespace';
            error_code = error_code';
            reason_phrase = reason_phrase';
          })

module _ {R W : Type 0} ⦃b : Buf R⦄ ⦃c : BufMut W⦄ where
  pub announce_cancel-IsCodec :
      IsCodec b c AnnounceCancelFits announce_cancel_wire announce_cancel_encode
        announce_cancel_decode
  announce_cancel-IsCodec = record {
    writes = announce_cancel_encode-Writes;
    parses = announce_cancel_decode-Parses;
    ensures = announce_cancel_decode-Ensures;
  }
