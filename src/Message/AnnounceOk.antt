-- ===== src/Message/AnnounceOk.antt =====
-- moq-transport/src/message/announce_ok.rs: a subscriber accepts an announce.
use linode_moq.Prelude.{ℕ, List, [], ◌++◌}
use linode_moq.Coding.Buffer.{Buf, BufMut}
use linode_moq.Coding.Decoder.{Decoder, pure, ◌>>=◌}
use linode_moq.Coding.Encoder.{Encoder, done, ◌>>◌}
use linode_moq.Coding.Codec.{IsCodec}
use linode_moq.Coding.Rules.Writes.{Writes, Writes-then, Writes-done}
use linode_moq.Coding.Rules.Parses.{Parses, Parses-bind, Parses-pure}
use linode_moq.Coding.Rules.Ensures.{Ensures, Ensures-bind, Ensures-pure}
use linode_moq.Coding.Tuple.{
  Tuple, TupleFits, tuple_wire, tuple_encode, tuple_decode, tuple_encode-Writes,
  tuple_decode-Parses, tuple_decode-Ensures,
}

pub record AnnounceOk : Type 0 where
  pub namespace : Tuple

pub record AnnounceOkFits (m : AnnounceOk) : Type 0 where
  pub namespace : TupleFits m.namespace

unfoldable pub announce_ok_wire : AnnounceOk → List ℕ
announce_ok_wire m = tuple_wire m.namespace ++ []

module _ {W : Type 0} ⦃c : BufMut W⦄ where
  unfoldable pub announce_ok_encode : AnnounceOk → Encoder W
  announce_ok_encode m = do tuple_encode m.namespace; done

  pub announce_ok_encode-Writes :
      (m : AnnounceOk) → AnnounceOkFits m → Writes c (announce_ok_encode m) (announce_ok_wire m)
  unfolding announce_ok_wire announce_ok_encode
  announce_ok_encode-Writes m h =
      Writes-then (tuple_encode-Writes m.namespace h.namespace) (Writes-done)

module _ {R : Type 0} ⦃b : Buf R⦄ where
  unfoldable pub announce_ok_decode : Decoder R AnnounceOk
  announce_ok_decode = do namespace ← tuple_decode; pure (record { namespace = namespace })

  pub announce_ok_decode-Parses :
      (m : AnnounceOk) → AnnounceOkFits m → Parses b announce_ok_decode (announce_ok_wire m) m
  unfolding announce_ok_wire announce_ok_decode
  announce_ok_decode-Parses m h =
      Parses-bind _ (tuple_decode-Parses m.namespace h.namespace) (Parses-pure m)

  pub announce_ok_decode-Ensures : Ensures b AnnounceOkFits announce_ok_decode
  unfolding announce_ok_decode
  announce_ok_decode-Ensures =
      Ensures-bind _ tuple_decode-Ensures
        λ namespace namespace'. Ensures-pure _ (record { namespace = namespace' })

module _ {R W : Type 0} ⦃b : Buf R⦄ ⦃c : BufMut W⦄ where
  pub announce_ok-IsCodec :
      IsCodec b c AnnounceOkFits announce_ok_wire announce_ok_encode announce_ok_decode
  announce_ok-IsCodec = record {
    writes = announce_ok_encode-Writes;
    parses = announce_ok_decode-Parses;
    ensures = announce_ok_decode-Ensures;
  }
