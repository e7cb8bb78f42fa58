-- ===== src/Message/GoAway.antt =====
-- moq-transport/src/message/go_away.rs: a server sends its client elsewhere.
use linode_moq.Prelude.{ℕ, List, [], ◌++◌}
use linode_moq.Coding.Buffer.{Buf, BufMut}
use linode_moq.Coding.Decoder.{Decoder, pure, ◌>>=◌}
use linode_moq.Coding.Encoder.{Encoder, done, ◌>>◌}
use linode_moq.Coding.Codec.{IsCodec}
use linode_moq.Coding.Rules.Writes.{Writes, Writes-then, Writes-done}
use linode_moq.Coding.Rules.Parses.{Parses, Parses-bind, Parses-pure}
use linode_moq.Coding.Rules.Ensures.{Ensures, Ensures-bind, Ensures-pure}
use linode_moq.Coding.Text.{
  IsText, string_wire, string_encode, string_decode, string_encode-Writes, string_decode-Parses,
  string_decode-Ensures,
}

pub record GoAway : Type 0 where
  pub url : List ℕ

pub record GoAwayFits (m : GoAway) : Type 0 where
  pub url : IsText m.url

unfoldable pub go_away_wire : GoAway → List ℕ
go_away_wire m = string_wire m.url ++ []

module _ {W : Type 0} ⦃c : BufMut W⦄ where
  unfoldable pub go_away_encode : GoAway → Encoder W
  go_away_encode m = do string_encode m.url; done

  pub go_away_encode-Writes :
      (m : GoAway) → GoAwayFits m → Writes c (go_away_encode m) (go_away_wire m)
  unfolding go_away_wire go_away_encode
  go_away_encode-Writes m h = Writes-then (string_encode-Writes m.url h.url) (Writes-done)

module _ {R : Type 0} ⦃b : Buf R⦄ where
  unfoldable pub go_away_decode : Decoder R GoAway
  go_away_decode = do url ← string_decode; pure (record { url = url })

  pub go_away_decode-Parses :
      (m : GoAway) → GoAwayFits m → Parses b go_away_decode (go_away_wire m) m
  unfolding go_away_wire go_away_decode
  go_away_decode-Parses m h = Parses-bind _ (string_decode-Parses m.url h.url) (Parses-pure m)

  pub go_away_decode-Ensures : Ensures b GoAwayFits go_away_decode
  unfolding go_away_decode
  go_away_decode-Ensures =
      Ensures-bind _ string_decode-Ensures λ url url'. Ensures-pure _ (record { url = url' })

module _ {R W : Type 0} ⦃b : Buf R⦄ ⦃c : BufMut W⦄ where
  pub go_away-IsCodec : IsCodec b c GoAwayFits go_away_wire go_away_encode go_away_decode
  go_away-IsCodec = record {
    writes = go_away_encode-Writes;
    parses = go_away_decode-Parses;
    ensures = go_away_decode-Ensures;
  }
