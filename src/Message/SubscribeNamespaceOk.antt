-- ===== src/Message/SubscribeNamespaceOk.antt =====
-- moq-transport/src/message/subscribe_namespace_ok.rs: such a request is accepted.
use linode_moq.Prelude.{ℕ, List, [], ◌++◌}
use linode_moq.Coding.Buffer.{Buf, BufMut}
use linode_moq.Coding.Decoder.{Decoder, pure, ◌>>=◌}
use linode_moq.Coding.Encoder.{Encoder, done, ◌>>◌}
use linode_moq.Coding.Codec.{IsCodec}
use linode_moq.Coding.Rules.Writes.{Writes, Writes-then, Writes-done}
use linode_moq.Coding.Rules.Parses.{Parses, Parses-bind, Parses-pure}
use linode_moq.Coding.Rules.Ensures.{Ensures, Ensures-bind, Ensures-pure}
use linode_moq.Coding.Tuple.{
  Tuple, TupleFits, tuple_wire, tuple_encode, tuple_decode, tuple_encode-Writes,
  tuple_decode-Parses, tuple_decode-Ensures,
}

pub record SubscribeNamespaceOk : Type 0 where
  pub namespace_prefix : Tuple

pub record SubscribeNamespaceOkFits (m : SubscribeNamespaceOk) : Type 0 where
  pub namespace_prefix : TupleFits m.namespace_prefix

unfoldable pub subscribe_namespace_ok_wire : SubscribeNamespaceOk → List ℕ
subscribe_namespace_ok_wire m = tuple_wire m.namespace_prefix ++ []

module _ {W : Type 0} ⦃c : BufMut W⦄ where
  unfoldable pub subscribe_namespace_ok_encode : SubscribeNamespaceOk → Encoder W
  subscribe_namespace_ok_encode m = do tuple_encode m.namespace_prefix; done

  pub subscribe_namespace_ok_encode-Writes :
      (m : SubscribeNamespaceOk)
      → SubscribeNamespaceOkFits m
      → Writes c (subscribe_namespace_ok_encode m) (subscribe_namespace_ok_wire m)
  unfolding subscribe_namespace_ok_wire subscribe_namespace_ok_encode
  subscribe_namespace_ok_encode-Writes m h =
      Writes-then (tuple_encode-Writes m.namespace_prefix h.namespace_prefix) (Writes-done)

module _ {R : Type 0} ⦃b : Buf R⦄ where
  unfoldable pub subscribe_namespace_ok_decode : Decoder R SubscribeNamespaceOk
  subscribe_namespace_ok_decode = do
    namespace_prefix ← tuple_decode
    pure (record { namespace_prefix = namespace_prefix })

  pub subscribe_namespace_ok_decode-Parses :
      (m : SubscribeNamespaceOk)
      → SubscribeNamespaceOkFits m
      → Parses b subscribe_namespace_ok_decode (subscribe_namespace_ok_wire m) m
  unfolding subscribe_namespace_ok_wire subscribe_namespace_ok_decode
  subscribe_namespace_ok_decode-Parses m h =
      Parses-bind _ (tuple_decode-Parses m.namespace_prefix h.namespace_prefix) (Parses-pure m)

  pub subscribe_namespace_ok_decode-Ensures :
      Ensures b SubscribeNamespaceOkFits subscribe_namespace_ok_decode
  unfolding subscribe_namespace_ok_decode
  subscribe_namespace_ok_decode-Ensures =
      Ensures-bind _ tuple_decode-Ensures λ namespace_prefix namespace_prefix'.
        Ensures-pure _ (record { namespace_prefix = namespace_prefix' })

module _ {R W : Type 0} ⦃b : Buf R⦄ ⦃c : BufMut W⦄ where
  pub subscribe_namespace_ok-IsCodec :
      IsCodec b c SubscribeNamespaceOkFits subscribe_namespace_ok_wire subscribe_namespace_ok_encode
        subscribe_namespace_ok_decode
  subscribe_namespace_ok-IsCodec = record {
    writes = subscribe_namespace_ok_encode-Writes;
    parses = subscribe_namespace_ok_decode-Parses;
    ensures = subscribe_namespace_ok_decode-Ensures;
  }
