-- ===== src/Message/SubscribeDone.antt =====
-- moq-transport/src/message/subscribe_done.rs: a publisher ends a subscription.
use linode_moq.Prelude.{ℕ, List, [], ◌++◌, Option}
use linode_moq.Coding.Buffer.{Buf, BufMut}
use linode_moq.Coding.Decoder.{Decoder, pure, ◌>>=◌}
use linode_moq.Coding.Encoder.{Encoder, done, ◌>>◌}
use linode_moq.Coding.Codec.{IsCodec}
use linode_moq.Coding.Rules.Writes.{Writes, Writes-then, Writes-done}
use linode_moq.Coding.Rules.Parses.{Parses, Parses-bind, Parses-pure}
use linode_moq.Coding.Rules.Ensures.{Ensures, Ensures-bind, Ensures-pure}
use linode_moq.Coding.Varint.{u64_encode, u64_decode}
use linode_moq.Coding.Varint.Format.{IsVarint, varint_wire}
use linode_moq.Coding.Varint.Encoding.{u64_encode-Writes}
use linode_moq.Coding.Varint.Integers.{u64_decode-Parses, u64_decode-Ensures}
use linode_moq.Coding.Text.{
  IsText, string_wire, string_encode, string_decode, string_encode-Writes, string_decode-Parses,
  string_decode-Ensures,
}
use linode_moq.Message.Last.{
  LastFits, last_wire, last_encode, last_decode, last_encode-Writes, last_decode-Parses,
  last_decode-Ensures,
}

pub record SubscribeDone : Type 0 where
  pub id : ℕ
  pub code : ℕ
  pub reason : List ℕ
  pub last : Option (ℕ × ℕ)

pub record SubscribeDoneFits (m : SubscribeDone) : Type 0 where
  pub id : IsVarint m.id
  pub code : IsVarint m.code
  pub reason : IsText m.reason
  pub last : LastFits m.last

unfoldable pub subscribe_done_wire : SubscribeDone → List ℕ
subscribe_done_wire m =
    varint_wire m.id ++ (varint_wire m.code ++ (string_wire m.reason ++ (last_wire m.last ++ [])))

module _ {W : Type 0} ⦃c : BufMut W⦄ where
  unfoldable pub subscribe_done_encode : SubscribeDone → Encoder W
  subscribe_done_encode m = do
    u64_encode m.id
    u64_encode m.code
    string_encode m.reason
    last_encode m.last
    done

  pub subscribe_done_encode-Writes :
      (m : SubscribeDone)
      → SubscribeDoneFits m
      → Writes c (subscribe_done_encode m) (subscribe_done_wire m)
  unfolding subscribe_done_wire subscribe_done_encode
  subscribe_done_encode-Writes m h = Writes-then (u64_encode-Writes m.id h.id) (
      Writes-then (u64_encode-Writes m.code h.code) (
        Writes-then (string_encode-Writes m.reason h.reason)
          (Writes-then (last_encode-Writes m.last h.last) (Writes-done))))

module _ {R : Type 0} ⦃b : Buf R⦄ where
  unfoldable pub subscribe_done_decode : Decoder R SubscribeDone
  subscribe_done_decode = do
    id ← u64_decode
    code ← u64_decode
    reason ← string_decode
    last ← last_decode
    pure (record { id = id; code = code; reason = reason; last = last })

  pub subscribe_done_decode-Parses :
      (m : SubscribeDone)
      → SubscribeDoneFits m
      → Parses b subscribe_done_decode (subscribe_done_wire m) m
  unfolding subscribe_done_wire subscribe_done_decode
  subscribe_done_decode-Parses m h = Parses-bind _ (u64_decode-Parses m.id h.id) (
      Parses-bind _ (u64_decode-Parses m.code h.code) (
        Parses-bind _ (string_decode-Parses m.reason h.reason)
          (Parses-bind _ (last_decode-Parses m.last h.last) (Parses-pure m))))

  pub subscribe_done_decode-Ensures : Ensures b SubscribeDoneFits subscribe_done_decode
  unfolding subscribe_done_decode
  subscribe_done_decode-Ensures = Ensures-bind _ u64_decode-Ensures λ id id'.
      Ensures-bind _ u64_decode-Ensures λ code code'.
        Ensures-bind _ string_decode-Ensures λ reason reason'.
          Ensures-bind _ last_decode-Ensures λ last last'.
            Ensures-pure _ (record { id = id'; code = code'; reason = reason'; last = last' })

module _ {R W : Type 0} ⦃b : Buf R⦄ ⦃c : BufMut W⦄ where
  pub subscribe_done-IsCodec :
      IsCodec b c SubscribeDoneFits subscribe_done_wire subscribe_done_encode subscribe_done_decode
  subscribe_done-IsCodec = record {
    writes = subscribe_done_encode-Writes;
    parses = subscribe_done_decode-Parses;
    ensures = subscribe_done_decode-Ensures;
  }
