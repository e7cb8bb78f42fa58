-- ===== src/Message/TrackStatusRequest.antt =====
-- moq-transport/src/message/track_status_request.rs: a question for the status of a track.
use linode_moq.Prelude.{ℕ, List, [], ◌++◌}
use linode_moq.Coding.Buffer.{Buf, BufMut}
use linode_moq.Coding.Decoder.{Decoder, pure, ◌>>=◌}
use linode_moq.Coding.Encoder.{Encoder, done, ◌>>◌}
use linode_moq.Coding.Codec.{IsCodec}
use linode_moq.Coding.Rules.Writes.{Writes, Writes-then, Writes-done}
use linode_moq.Coding.Rules.Parses.{Parses, Parses-bind, Parses-pure}
use linode_moq.Coding.Rules.Ensures.{Ensures, Ensures-bind, Ensures-pure}
use linode_moq.Coding.Tuple.{
  Tuple, TupleFits, tuple_wire, tuple_encode, tuple_decode, tuple_encode-Writes,
  tuple_decode-Parses, tuple_decode-Ensures,
}
use linode_moq.Coding.Text.{
  IsText, string_wire, string_encode, string_decode, string_encode-Writes, string_decode-Parses,
  string_decode-Ensures,
}

pub record TrackStatusRequest : Type 0 where
  pub track_namespace : Tuple
  pub track_name : List ℕ

pub record TrackStatusRequestFits (m : TrackStatusRequest) : Type 0 where
  pub track_namespace : TupleFits m.track_namespace
  pub track_name : IsText m.track_name

unfoldable pub track_status_request_wire : TrackStatusRequest → List ℕ
track_status_request_wire m = tuple_wire m.track_namespace ++ (string_wire m.track_name ++ [])

module _ {W : Type 0} ⦃c : BufMut W⦄ where
  unfoldable pub track_status_request_encode : TrackStatusRequest → Encoder W
  track_status_request_encode m = do
    tuple_encode m.track_namespace
    string_encode m.track_name
    done

  pub track_status_request_encode-Writes :
      (m : TrackStatusRequest)
      → TrackStatusRequestFits m
      → Writes c (track_status_request_encode m) (track_status_request_wire m)
  unfolding track_status_request_wire track_status_request_encode
  track_status_request_encode-Writes m h =
      Writes-then (tuple_encode-Writes m.track_namespace h.track_namespace)
        (Writes-then (string_encode-Writes m.track_name h.track_name) (Writes-done))

module _ {R : Type 0} ⦃b : Buf R⦄ where
  unfoldable pub track_status_request_decode : Decoder R TrackStatusRequest
  track_status_request_decode = do
    track_namespace ← tuple_decode
    track_name ← string_decode
    pure (record { track_namespace = track_namespace; track_name = track_name })

  pub track_status_request_decode-Parses :
      (m : TrackStatusRequest)
      → TrackStatusRequestFits m
      → Parses b track_status_request_decode (track_status_request_wire m) m
  unfolding track_status_request_wire track_status_request_decode
  track_status_request_decode-Parses m h =
      Parses-bind _ (tuple_decode-Parses m.track_namespace h.track_namespace)
        (Parses-bind _ (string_decode-Parses m.track_name h.track_name) (Parses-pure m))

  pub track_status_request_decode-Ensures :
      Ensures b TrackStatusRequestFits track_status_request_decode
  unfolding track_status_request_decode
  track_status_request_decode-Ensures =
      Ensures-bind _ tuple_decode-Ensures λ track_namespace track_namespace'.
        Ensures-bind _ string_decode-Ensures λ track_name track_name'.
          Ensures-pure _ (record { track_namespace = track_namespace'; track_name = track_name' })

module _ {R W : Type 0} ⦃b : Buf R⦄ ⦃c : BufMut W⦄ where
  pub track_status_request-IsCodec :
      IsCodec b c TrackStatusRequestFits track_status_request_wire track_status_request_encode
        track_status_request_decode
  track_status_request-IsCodec = record {
    writes = track_status_request_encode-Writes;
    parses = track_status_request_decode-Parses;
    ensures = track_status_request_decode-Ensures;
  }
