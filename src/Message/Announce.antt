-- ===== src/Message/Announce.antt =====
-- moq-transport/src/message/announce.rs: a publisher offers a namespace.
use linode_moq.Prelude.{ℕ, List, [], ◌++◌}
use linode_moq.Coding.Buffer.{Buf, BufMut}
use linode_moq.Coding.Decoder.{Decoder, pure, ◌>>=◌}
use linode_moq.Coding.Encoder.{Encoder, done, ◌>>◌}
use linode_moq.Coding.Codec.{IsCodec}
use linode_moq.Coding.Rules.Writes.{Writes, Writes-then, Writes-done}
use linode_moq.Coding.Rules.Parses.{Parses, Parses-bind, Parses-pure}
use linode_moq.Coding.Rules.Ensures.{Ensures, Ensures-bind, Ensures-pure}
use linode_moq.Coding.Tuple.{
  Tuple, TupleFits, tuple_wire, tuple_encode, tuple_decode, tuple_encode-Writes,
  tuple_decode-Parses, tuple_decode-Ensures,
}
use linode_moq.Coding.Params.{Params, params_encode, params_decode}
use linode_moq.Coding.Params.Format.{ParamsFits, params_wire}
use linode_moq.Coding.Params.Laws.{
  params_encode-Writes, params_decode-Parses, params_decode-Ensures,
}

pub record Announce : Type 0 where
  pub namespace : Tuple
  pub params : Params

pub record AnnounceFits (m : Announce) : Type 0 where
  pub namespace : TupleFits m.namespace
  pub params : ParamsFits m.params

unfoldable pub announce_wire : Announce → List ℕ
announce_wire m = tuple_wire m.namespace ++ (params_wire m.params ++ [])

module _ {W : Type 0} ⦃c : BufMut W⦄ where
  unfoldable pub announce_encode : Announce → Encoder W
  announce_encode m = do tuple_encode m.namespace; params_encode m.params; done

  pub announce_encode-Writes :
      (m : Announce) → AnnounceFits m → Writes c (announce_encode m) (announce_wire m)
  unfolding announce_wire announce_encode
  announce_encode-Writes m h =
      Writes-then (tuple_encode-Writes m.namespace h.namespace)
        (Writes-then (params_encode-Writes m.params h.params) (Writes-done))

module _ {R : Type 0} ⦃b : Buf R⦄ where
  unfoldable pub announce_decode : Decoder R Announce
  announce_decode = do
    namespace ← tuple_decode
    params ← params_decode
    pure (record { namespace = namespace; params = params })

  pub announce_decode-Parses :
      (m : Announce) → AnnounceFits m → Parses b announce_decode (announce_wire m) m
  unfolding announce_wire announce_decode
  announce_decode-Parses m h =
      Parses-bind _ (tuple_decode-Parses m.namespace h.namespace)
        (Parses-bind _ (params_decode-Parses m.params h.params) (Parses-pure m))

  pub announce_decode-Ensures : Ensures b AnnounceFits announce_decode
  unfolding announce_decode
  announce_decode-Ensures = Ensures-bind _ tuple_decode-Ensures λ namespace namespace'.
      Ensures-bind _ params_decode-Ensures
        λ params params'. Ensures-pure _ (record { namespace = namespace'; params = params' })

module _ {R W : Type 0} ⦃b : Buf R⦄ ⦃c : BufMut W⦄ where
  pub announce-IsCodec : IsCodec b c AnnounceFits announce_wire announce_encode announce_decode
  announce-IsCodec = record {
    writes = announce_encode-Writes;
    parses = announce_decode-Parses;
    ensures = announce_decode-Ensures;
  }
