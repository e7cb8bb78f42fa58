-- ===== src/Message/FetchError.antt =====
-- moq-transport/src/message/fetch_error.rs: a publisher rejects a fetch.
use linode_moq.Prelude.{ℕ, List, [], ◌++◌}
use linode_moq.Coding.Buffer.{Buf, BufMut}
use linode_moq.Coding.Decoder.{Decoder, pure, ◌>>=◌}
use linode_moq.Coding.Encoder.{Encoder, done, ◌>>◌}
use linode_moq.Coding.Codec.{IsCodec}
use linode_moq.Coding.Rules.Writes.{Writes, Writes-then, Writes-done}
use linode_moq.Coding.Rules.Parses.{Parses, Parses-bind, Parses-pure}
use linode_moq.Coding.Rules.Ensures.{Ensures, Ensures-bind, Ensures-pure}
use linode_moq.Coding.Varint.{u64_encode, u64_decode}
use linode_moq.Coding.Varint.Format.{IsVarint, varint_wire}
use linode_moq.Coding.Varint.Encoding.{u64_encode-Writes}
use linode_moq.Coding.Varint.Integers.{u64_decode-Parses, u64_decode-Ensures}
use linode_moq.Coding.Text.{
  IsText, string_wire, string_encode, string_decode, string_encode-Writes, string_decode-Parses,
  string_decode-Ensures,
}

pub record FetchError : Type 0 where
  pub id : ℕ
  pub code : ℕ
  pub reason : List ℕ

pub record FetchErrorFits (m : FetchError) : Type 0 where
  pub id : IsVarint m.id
  pub code : IsVarint m.code
  pub reason : IsText m.reason

unfoldable pub fetch_error_wire : FetchError → List ℕ
fetch_error_wire m = varint_wire m.id ++ (varint_wire m.code ++ (string_wire m.reason ++ []))

module _ {W : Type 0} ⦃c : BufMut W⦄ where
  unfoldable pub fetch_error_encode : FetchError → Encoder W
  fetch_error_encode m = do u64_encode m.id; u64_encode m.code; string_encode m.reason; done

  pub fetch_error_encode-Writes :
      (m : FetchError) → FetchErrorFits m → Writes c (fetch_error_encode m) (fetch_error_wire m)
  unfolding fetch_error_wire fetch_error_encode
  fetch_error_encode-Writes m h = Writes-then (u64_encode-Writes m.id h.id) (
      Writes-then (u64_encode-Writes m.code h.code)
        (Writes-then (string_encode-Writes m.reason h.reason) (Writes-done)))

module _ {R : Type 0} ⦃b : Buf R⦄ where
  unfoldable pub fetch_error_decode : Decoder R FetchError
  fetch_error_decode = do
    id ← u64_decode
    code ← u64_decode
    reason ← string_decode
    pure (record { id = id; code = code; reason = reason })

  pub fetch_error_decode-Parses :
      (m : FetchError) → FetchErrorFits m → Parses b fetch_error_decode (fetch_error_wire m) m
  unfolding fetch_error_wire fetch_error_decode
  fetch_error_decode-Parses m h = Parses-bind _ (u64_decode-Parses m.id h.id) (
      Parses-bind _ (u64_decode-Parses m.code h.code)
        (Parses-bind _ (string_decode-Parses m.reason h.reason) (Parses-pure m)))

  pub fetch_error_decode-Ensures : Ensures b FetchErrorFits fetch_error_decode
  unfolding fetch_error_decode
  fetch_error_decode-Ensures = Ensures-bind _ u64_decode-Ensures λ id id'.
      Ensures-bind _ u64_decode-Ensures λ code code'.
        Ensures-bind _ string_decode-Ensures
          λ reason reason'. Ensures-pure _ (record { id = id'; code = code'; reason = reason' })

module _ {R W : Type 0} ⦃b : Buf R⦄ ⦃c : BufMut W⦄ where
  pub fetch_error-IsCodec :
      IsCodec b c FetchErrorFits fetch_error_wire fetch_error_encode fetch_error_decode
  fetch_error-IsCodec = record {
    writes = fetch_error_encode-Writes;
    parses = fetch_error_decode-Parses;
    ensures = fetch_error_decode-Ensures;
  }
