-- ===== src/Message/UnsubscribeNamespace.antt =====
-- moq-transport/src/message/unsubscribe_namespace.rs: a subscriber ends its interest in a namespace.
use linode_moq.Prelude.{ℕ, List, [], ◌++◌}
use linode_moq.Coding.Buffer.{Buf, BufMut}
use linode_moq.Coding.Decoder.{Decoder, pure, ◌>>=◌}
use linode_moq.Coding.Encoder.{Encoder, done, ◌>>◌}
use linode_moq.Coding.Codec.{IsCodec}
use linode_moq.Coding.Rules.Writes.{Writes, Writes-then, Writes-done}
use linode_moq.Coding.Rules.Parses.{Parses, Parses-bind, Parses-pure}
use linode_moq.Coding.Rules.Ensures.{Ensures, Ensures-bind, Ensures-pure}
use linode_moq.Coding.Tuple.{
  Tuple, TupleFits, tuple_wire, tuple_encode, tuple_decode, tuple_encode-Writes,
  tuple_decode-Parses, tuple_decode-Ensures,
}

pub record UnsubscribeNamespace : Type 0 where
  pub namespace_prefix : Tuple

pub record UnsubscribeNamespaceFits (m : UnsubscribeNamespace) : Type 0 where
  pub namespace_prefix : TupleFits m.namespace_prefix

unfoldable pub unsubscribe_namespace_wire : UnsubscribeNamespace → List ℕ
unsubscribe_namespace_wire m = tuple_wire m.namespace_prefix ++ []

module _ {W : Type 0} ⦃c : BufMut W⦄ where
  unfoldable pub unsubscribe_namespace_encode : UnsubscribeNamespace → Encoder W
  unsubscribe_namespace_encode m = do tuple_encode m.namespace_prefix; done

  pub unsubscribe_namespace_encode-Writes :
      (m : UnsubscribeNamespace)
      → UnsubscribeNamespaceFits m
      → Writes c (unsubscribe_namespace_encode m) (unsubscribe_namespace_wire m)
  unfolding unsubscribe_namespace_wire unsubscribe_namespace_encode
  unsubscribe_namespace_encode-Writes m h =
      Writes-then (tuple_encode-Writes m.namespace_prefix h.namespace_prefix) (Writes-done)

module _ {R : Type 0} ⦃b : Buf R⦄ where
  unfoldable pub unsubscribe_namespace_decode : Decoder R UnsubscribeNamespace
  unsubscribe_namespace_decode = do
    namespace_prefix ← tuple_decode
    pure (record { namespace_prefix = namespace_prefix })

  pub unsubscribe_namespace_decode-Parses :
      (m : UnsubscribeNamespace)
      → UnsubscribeNamespaceFits m
      → Parses b unsubscribe_namespace_decode (unsubscribe_namespace_wire m) m
  unfolding unsubscribe_namespace_wire unsubscribe_namespace_decode
  unsubscribe_namespace_decode-Parses m h =
      Parses-bind _ (tuple_decode-Parses m.namespace_prefix h.namespace_prefix) (Parses-pure m)

  pub unsubscribe_namespace_decode-Ensures :
      Ensures b UnsubscribeNamespaceFits unsubscribe_namespace_decode
  unfolding unsubscribe_namespace_decode
  unsubscribe_namespace_decode-Ensures =
      Ensures-bind _ tuple_decode-Ensures λ namespace_prefix namespace_prefix'.
        Ensures-pure _ (record { namespace_prefix = namespace_prefix' })

module _ {R W : Type 0} ⦃b : Buf R⦄ ⦃c : BufMut W⦄ where
  pub unsubscribe_namespace-IsCodec :
      IsCodec b c UnsubscribeNamespaceFits unsubscribe_namespace_wire unsubscribe_namespace_encode
        unsubscribe_namespace_decode
  unsubscribe_namespace-IsCodec = record {
    writes = unsubscribe_namespace_encode-Writes;
    parses = unsubscribe_namespace_decode-Parses;
    ensures = unsubscribe_namespace_decode-Ensures;
  }
