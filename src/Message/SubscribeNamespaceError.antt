-- ===== src/Message/SubscribeNamespaceError.antt =====
-- moq-transport/src/message/subscribe_namespace_error.rs: such a request is rejected.
use linode_moq.Prelude.{ℕ, List, [], ◌++◌}
use linode_moq.Coding.Buffer.{Buf, BufMut}
use linode_moq.Coding.Decoder.{Decoder, pure, ◌>>=◌}
use linode_moq.Coding.Encoder.{Encoder, done, ◌>>◌}
use linode_moq.Coding.Codec.{IsCodec}
use linode_moq.Coding.Rules.Writes.{Writes, Writes-then, Writes-done}
use linode_moq.Coding.Rules.Parses.{Parses, Parses-bind, Parses-pure}
use linode_moq.Coding.Rules.Ensures.{Ensures, Ensures-bind, Ensures-pure}
use linode_moq.Coding.Tuple.{
  Tuple, TupleFits, tuple_wire, tuple_encode, tuple_decode, tuple_encode-Writes,
  tuple_decode-Parses, tuple_decode-Ensures,
}
use linode_moq.Coding.Varint.{u64_encode, u64_decode}
use linode_moq.Coding.Varint.Format.{IsVarint, varint_wire}
use linode_moq.Coding.Varint.Encoding.{u64_encode-Writes}
use linode_moq.Coding.Varint.Integers.{u64_decode-Parses, u64_decode-Ensures}
use linode_moq.Coding.Text.{
  IsText, string_wire, string_encode, string_decode, string_encode-Writes, string_decode-Parses,
  string_decode-Ensures,
}

pub record SubscribeNamespaceError : Type 0 where
  pub namespace_prefix : Tuple
  pub code : ℕ
  pub reason : List ℕ

pub record SubscribeNamespaceErrorFits (m : SubscribeNamespaceError) : Type 0 where
  pub namespace_prefix : TupleFits m.namespace_prefix
  pub code : IsVarint m.code
  pub reason : IsText m.reason

unfoldable pub subscribe_namespace_error_wire : SubscribeNamespaceError → List ℕ
subscribe_namespace_error_wire m =
    tuple_wire m.namespace_prefix ++ (varint_wire m.code ++ (string_wire m.reason ++ []))

module _ {W : Type 0} ⦃c : BufMut W⦄ where
  unfoldable pub subscribe_namespace_error_encode : SubscribeNamespaceError → Encoder W
  subscribe_namespace_error_encode m = do
    tuple_encode m.namespace_prefix
    u64_encode m.code
    string_encode m.reason
    done

  pub subscribe_namespace_error_encode-Writes :
      (m : SubscribeNamespaceError)
      → SubscribeNamespaceErrorFits m
      → Writes c (subscribe_namespace_error_encode m) (subscribe_namespace_error_wire m)
  unfolding subscribe_namespace_error_wire subscribe_namespace_error_encode
  subscribe_namespace_error_encode-Writes m h =
      Writes-then (tuple_encode-Writes m.namespace_prefix h.namespace_prefix) (
        Writes-then (u64_encode-Writes m.code h.code)
          (Writes-then (string_encode-Writes m.reason h.reason) (Writes-done)))

module _ {R : Type 0} ⦃b : Buf R⦄ where
  unfoldable pub subscribe_namespace_error_decode : Decoder R SubscribeNamespaceError
  subscribe_namespace_error_decode = do
    namespace_prefix ← tuple_decode
    code ← u64_decode
    reason ← string_decode
    pure (record { namespace_prefix = namespace_prefix; code = code; reason = reason })

  pub subscribe_namespace_error_decode-Parses :
      (m : SubscribeNamespaceError)
      → SubscribeNamespaceErrorFits m
      → Parses b subscribe_namespace_error_decode (subscribe_namespace_error_wire m) m
  unfolding subscribe_namespace_error_wire subscribe_namespace_error_decode
  subscribe_namespace_error_decode-Parses m h =
      Parses-bind _ (tuple_decode-Parses m.namespace_prefix h.namespace_prefix) (
        Parses-bind _ (u64_decode-Parses m.code h.code)
          (Parses-bind _ (string_decode-Parses m.reason h.reason) (Parses-pure m)))

  pub subscribe_namespace_error_decode-Ensures :
      Ensures b SubscribeNamespaceErrorFits subscribe_namespace_error_decode
  unfolding subscribe_namespace_error_decode
  subscribe_namespace_error_decode-Ensures =
      Ensures-bind _ tuple_decode-Ensures λ namespace_prefix namespace_prefix'.
        Ensures-bind _ u64_decode-Ensures λ code code'.
          Ensures-bind _ string_decode-Ensures λ reason reason'.
            Ensures-pure _
              (record { namespace_prefix = namespace_prefix'; code = code'; reason = reason' })

module _ {R W : Type 0} ⦃b : Buf R⦄ ⦃c : BufMut W⦄ where
  pub subscribe_namespace_error-IsCodec :
      IsCodec b c SubscribeNamespaceErrorFits subscribe_namespace_error_wire
        subscribe_namespace_error_encode subscribe_namespace_error_decode
  subscribe_namespace_error-IsCodec = record {
    writes = subscribe_namespace_error_encode-Writes;
    parses = subscribe_namespace_error_decode-Parses;
    ensures = subscribe_namespace_error_decode-Ensures;
  }
