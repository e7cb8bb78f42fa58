-- ===== src/Message/SubscribeError.antt =====
-- moq-transport/src/message/subscribe_error.rs: a publisher rejects a subscription.
use linode_moq.Prelude.{ℕ, List, [], ◌++◌}
use linode_moq.Coding.Buffer.{Buf, BufMut}
use linode_moq.Coding.Decoder.{Decoder, pure, ◌>>=◌}
use linode_moq.Coding.Encoder.{Encoder, done, ◌>>◌}
use linode_moq.Coding.Codec.{IsCodec}
use linode_moq.Coding.Rules.Writes.{Writes, Writes-then, Writes-done}
use linode_moq.Coding.Rules.Parses.{Parses, Parses-bind, Parses-pure}
use linode_moq.Coding.Rules.Ensures.{Ensures, Ensures-bind, Ensures-pure}
use linode_moq.Coding.Varint.{u64_encode, u64_decode}
use linode_moq.Coding.Varint.Format.{IsVarint, varint_wire}
use linode_moq.Coding.Varint.Encoding.{u64_encode-Writes}
use linode_moq.Coding.Varint.Integers.{u64_decode-Parses, u64_decode-Ensures}
use linode_moq.Coding.Text.{
  IsText, string_wire, string_encode, string_decode, string_encode-Writes, string_decode-Parses,
  string_decode-Ensures,
}

pub record SubscribeError : Type 0 where
  pub id : ℕ
  pub code : ℕ
  pub reason : List ℕ
  pub alias : ℕ

pub record SubscribeErrorFits (m : SubscribeError) : Type 0 where
  pub id : IsVarint m.id
  pub code : IsVarint m.code
  pub reason : IsText m.reason
  pub alias : IsVarint m.alias

unfoldable pub subscribe_error_wire : SubscribeError → List ℕ
subscribe_error_wire m =
    varint_wire m.id
    ++ (varint_wire m.code ++ (string_wire m.reason ++ (varint_wire m.alias ++ [])))

module _ {W : Type 0} ⦃c : BufMut W⦄ where
  unfoldable pub subscribe_error_encode : SubscribeError → Encoder W
  subscribe_error_encode m = do
    u64_encode m.id
    u64_encode m.code
    string_encode m.reason
    u64_encode m.alias
    done

  pub subscribe_error_encode-Writes :
      (m : SubscribeError)
      → SubscribeErrorFits m
      → Writes c (subscribe_error_encode m) (subscribe_error_wire m)
  unfolding subscribe_error_wire subscribe_error_encode
  subscribe_error_encode-Writes m h = Writes-then (u64_encode-Writes m.id h.id) (
      Writes-then (u64_encode-Writes m.code h.code) (
        Writes-then (string_encode-Writes m.reason h.reason)
          (Writes-then (u64_encode-Writes m.alias h.alias) (Writes-done))))

module _ {R : Type 0} ⦃b : Buf R⦄ where
  unfoldable pub subscribe_error_decode : Decoder R SubscribeError
  subscribe_error_decode = do
    id ← u64_decode
    code ← u64_decode
    reason ← string_decode
    alias ← u64_decode
    pure (record { id = id; code = code; reason = reason; alias = alias })

  pub subscribe_error_decode-Parses :
      (m : SubscribeError)
      → SubscribeErrorFits m
      → Parses b subscribe_error_decode (subscribe_error_wire m) m
  unfolding subscribe_error_wire subscribe_error_decode
  subscribe_error_decode-Parses m h = Parses-bind _ (u64_decode-Parses m.id h.id) (
      Parses-bind _ (u64_decode-Parses m.code h.code) (
        Parses-bind _ (string_decode-Parses m.reason h.reason)
          (Parses-bind _ (u64_decode-Parses m.alias h.alias) (Parses-pure m))))

  pub subscribe_error_decode-Ensures : Ensures b SubscribeErrorFits subscribe_error_decode
  unfolding subscribe_error_decode
  subscribe_error_decode-Ensures = Ensures-bind _ u64_decode-Ensures λ id id'.
      Ensures-bind _ u64_decode-Ensures λ code code'.
        Ensures-bind _ string_decode-Ensures λ reason reason'.
          Ensures-bind _ u64_decode-Ensures λ alias alias'.
            Ensures-pure _ (record { id = id'; code = code'; reason = reason'; alias = alias' })

module _ {R W : Type 0} ⦃b : Buf R⦄ ⦃c : BufMut W⦄ where
  pub subscribe_error-IsCodec :
      IsCodec b c SubscribeErrorFits subscribe_error_wire subscribe_error_encode
        subscribe_error_decode
  subscribe_error-IsCodec = record {
    writes = subscribe_error_encode-Writes;
    parses = subscribe_error_decode-Parses;
    ensures = subscribe_error_decode-Ensures;
  }
