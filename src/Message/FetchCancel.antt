-- ===== src/Message/FetchCancel.antt =====
-- moq-transport/src/message/fetch_cancel.rs: a subscriber ends a fetch.
use linode_moq.Prelude.{ℕ, List, [], ◌++◌}
use linode_moq.Coding.Buffer.{Buf, BufMut}
use linode_moq.Coding.Decoder.{Decoder, pure, ◌>>=◌}
use linode_moq.Coding.Encoder.{Encoder, done, ◌>>◌}
use linode_moq.Coding.Codec.{IsCodec}
use linode_moq.Coding.Rules.Writes.{Writes, Writes-then, Writes-done}
use linode_moq.Coding.Rules.Parses.{Parses, Parses-bind, Parses-pure}
use linode_moq.Coding.Rules.Ensures.{Ensures, Ensures-bind, Ensures-pure}
use linode_moq.Coding.Varint.{u64_encode, u64_decode}
use linode_moq.Coding.Varint.Format.{IsVarint, varint_wire}
use linode_moq.Coding.Varint.Encoding.{u64_encode-Writes}
use linode_moq.Coding.Varint.Integers.{u64_decode-Parses, u64_decode-Ensures}

pub record FetchCancel : Type 0 where
  pub id : ℕ

pub record FetchCancelFits (m : FetchCancel) : Type 0 where
  pub id : IsVarint m.id

unfoldable pub fetch_cancel_wire : FetchCancel → List ℕ
fetch_cancel_wire m = varint_wire m.id ++ []

module _ {W : Type 0} ⦃c : BufMut W⦄ where
  unfoldable pub fetch_cancel_encode : FetchCancel → Encoder W
  fetch_cancel_encode m = do u64_encode m.id; done

  pub fetch_cancel_encode-Writes :
      (m : FetchCancel) → FetchCancelFits m → Writes c (fetch_cancel_encode m) (fetch_cancel_wire m)
  unfolding fetch_cancel_wire fetch_cancel_encode
  fetch_cancel_encode-Writes m h = Writes-then (u64_encode-Writes m.id h.id) (Writes-done)

module _ {R : Type 0} ⦃b : Buf R⦄ where
  unfoldable pub fetch_cancel_decode : Decoder R FetchCancel
  fetch_cancel_decode = do id ← u64_decode; pure (record { id = id })

  pub fetch_cancel_decode-Parses :
      (m : FetchCancel) → FetchCancelFits m → Parses b fetch_cancel_decode (fetch_cancel_wire m) m
  unfolding fetch_cancel_wire fetch_cancel_decode
  fetch_cancel_decode-Parses m h = Parses-bind _ (u64_decode-Parses m.id h.id) (Parses-pure m)

  pub fetch_cancel_decode-Ensures : Ensures b FetchCancelFits fetch_cancel_decode
  unfolding fetch_cancel_decode
  fetch_cancel_decode-Ensures =
      Ensures-bind _ u64_decode-Ensures λ id id'. Ensures-pure _ (record { id = id' })

module _ {R W : Type 0} ⦃b : Buf R⦄ ⦃c : BufMut W⦄ where
  pub fetch_cancel-IsCodec :
      IsCodec b c FetchCancelFits fetch_cancel_wire fetch_cancel_encode fetch_cancel_decode
  fetch_cancel-IsCodec = record {
    writes = fetch_cancel_encode-Writes;
    parses = fetch_cancel_decode-Parses;
    ensures = fetch_cancel_decode-Ensures;
  }
