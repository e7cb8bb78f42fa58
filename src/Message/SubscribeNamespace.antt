-- ===== src/Message/SubscribeNamespace.antt =====
-- moq-transport/src/message/subscribe_namespace.rs: a subscriber asks for a namespace.
use linode_moq.Prelude.{ℕ, List, [], ◌++◌}
use linode_moq.Coding.Buffer.{Buf, BufMut}
use linode_moq.Coding.Decoder.{Decoder, pure, ◌>>=◌}
use linode_moq.Coding.Encoder.{Encoder, done, ◌>>◌}
use linode_moq.Coding.Codec.{IsCodec}
use linode_moq.Coding.Rules.Writes.{Writes, Writes-then, Writes-done}
use linode_moq.Coding.Rules.Parses.{Parses, Parses-bind, Parses-pure}
use linode_moq.Coding.Rules.Ensures.{Ensures, Ensures-bind, Ensures-pure}
use linode_moq.Coding.Tuple.{
  Tuple, TupleFits, tuple_wire, tuple_encode, tuple_decode, tuple_encode-Writes,
  tuple_decode-Parses, tuple_decode-Ensures,
}
use linode_moq.Coding.Params.{Params, params_encode, params_decode}
use linode_moq.Coding.Params.Format.{ParamsFits, params_wire}
use linode_moq.Coding.Params.Laws.{
  params_encode-Writes, params_decode-Parses, params_decode-Ensures,
}

pub record SubscribeNamespace : Type 0 where
  pub namespace_prefix : Tuple
  pub params : Params

pub record SubscribeNamespaceFits (m : SubscribeNamespace) : Type 0 where
  pub namespace_prefix : TupleFits m.namespace_prefix
  pub params : ParamsFits m.params

unfoldable pub subscribe_namespace_wire : SubscribeNamespace → List ℕ
subscribe_namespace_wire m = tuple_wire m.namespace_prefix ++ (params_wire m.params ++ [])

module _ {W : Type 0} ⦃c : BufMut W⦄ where
  unfoldable pub subscribe_namespace_encode : SubscribeNamespace → Encoder W
  subscribe_namespace_encode m = do tuple_encode m.namespace_prefix; params_encode m.params; done

  pub subscribe_namespace_encode-Writes :
      (m : SubscribeNamespace)
      → SubscribeNamespaceFits m
      → Writes c (subscribe_namespace_encode m) (subscribe_namespace_wire m)
  unfolding subscribe_namespace_wire subscribe_namespace_encode
  subscribe_namespace_encode-Writes m h =
      Writes-then (tuple_encode-Writes m.namespace_prefix h.namespace_prefix)
        (Writes-then (params_encode-Writes m.params h.params) (Writes-done))

module _ {R : Type 0} ⦃b : Buf R⦄ where
  unfoldable pub subscribe_namespace_decode : Decoder R SubscribeNamespace
  subscribe_namespace_decode = do
    namespace_prefix ← tuple_decode
    params ← params_decode
    pure (record { namespace_prefix = namespace_prefix; params = params })

  pub subscribe_namespace_decode-Parses :
      (m : SubscribeNamespace)
      → SubscribeNamespaceFits m
      → Parses b subscribe_namespace_decode (subscribe_namespace_wire m) m
  unfolding subscribe_namespace_wire subscribe_namespace_decode
  subscribe_namespace_decode-Parses m h =
      Parses-bind _ (tuple_decode-Parses m.namespace_prefix h.namespace_prefix)
        (Parses-bind _ (params_decode-Parses m.params h.params) (Parses-pure m))

  pub subscribe_namespace_decode-Ensures :
      Ensures b SubscribeNamespaceFits subscribe_namespace_decode
  unfolding subscribe_namespace_decode
  subscribe_namespace_decode-Ensures =
      Ensures-bind _ tuple_decode-Ensures λ namespace_prefix namespace_prefix'.
        Ensures-bind _ params_decode-Ensures λ params params'.
          Ensures-pure _ (record { namespace_prefix = namespace_prefix'; params = params' })

module _ {R W : Type 0} ⦃b : Buf R⦄ ⦃c : BufMut W⦄ where
  pub subscribe_namespace-IsCodec :
      IsCodec b c SubscribeNamespaceFits subscribe_namespace_wire subscribe_namespace_encode
        subscribe_namespace_decode
  subscribe_namespace-IsCodec = record {
    writes = subscribe_namespace_encode-Writes;
    parses = subscribe_namespace_decode-Parses;
    ensures = subscribe_namespace_decode-Ensures;
  }
