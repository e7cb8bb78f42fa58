-- ===== src/Message/Unannounce.antt =====
-- moq-transport/src/message/unannounce.rs: a publisher ends an announce.
use linode_moq.Prelude.{ℕ, List, [], ◌++◌}
use linode_moq.Coding.Buffer.{Buf, BufMut}
use linode_moq.Coding.Decoder.{Decoder, pure, ◌>>=◌}
use linode_moq.Coding.Encoder.{Encoder, done, ◌>>◌}
use linode_moq.Coding.Codec.{IsCodec}
use linode_moq.Coding.Rules.Writes.{Writes, Writes-then, Writes-done}
use linode_moq.Coding.Rules.Parses.{Parses, Parses-bind, Parses-pure}
use linode_moq.Coding.Rules.Ensures.{Ensures, Ensures-bind, Ensures-pure}
use linode_moq.Coding.Tuple.{
  Tuple, TupleFits, tuple_wire, tuple_encode, tuple_decode, tuple_encode-Writes,
  tuple_decode-Parses, tuple_decode-Ensures,
}

pub record Unannounce : Type 0 where
  pub namespace : Tuple

pub record UnannounceFits (m : Unannounce) : Type 0 where
  pub namespace : TupleFits m.namespace

unfoldable pub unannounce_wire : Unannounce → List ℕ
unannounce_wire m = tuple_wire m.namespace ++ []

module _ {W : Type 0} ⦃c : BufMut W⦄ where
  unfoldable pub unannounce_encode : Unannounce → Encoder W
  unannounce_encode m = do tuple_encode m.namespace; done

  pub unannounce_encode-Writes :
      (m : Unannounce) → UnannounceFits m → Writes c (unannounce_encode m) (unannounce_wire m)
  unfolding unannounce_wire unannounce_encode
  unannounce_encode-Writes m h =
      Writes-then (tuple_encode-Writes m.namespace h.namespace) (Writes-done)

module _ {R : Type 0} ⦃b : Buf R⦄ where
  unfoldable pub unannounce_decode : Decoder R Unannounce
  unannounce_decode = do namespace ← tuple_decode; pure (record { namespace = namespace })

  pub unannounce_decode-Parses :
      (m : Unannounce) → UnannounceFits m → Parses b unannounce_decode (unannounce_wire m) m
  unfolding unannounce_wire unannounce_decode
  unannounce_decode-Parses m h =
      Parses-bind _ (tuple_decode-Parses m.namespace h.namespace) (Parses-pure m)

  pub unannounce_decode-Ensures : Ensures b UnannounceFits unannounce_decode
  unfolding unannounce_decode
  unannounce_decode-Ensures =
      Ensures-bind _ tuple_decode-Ensures
        λ namespace namespace'. Ensures-pure _ (record { namespace = namespace' })

module _ {R W : Type 0} ⦃b : Buf R⦄ ⦃c : BufMut W⦄ where
  pub unannounce-IsCodec :
      IsCodec b c UnannounceFits unannounce_wire unannounce_encode unannounce_decode
  unannounce-IsCodec = record {
    writes = unannounce_encode-Writes;
    parses = unannounce_decode-Parses;
    ensures = unannounce_decode-Ensures;
  }
