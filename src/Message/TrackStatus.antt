-- ===== src/Message/TrackStatus.antt =====
-- moq-transport/src/message/track_status.rs: how far a track has come.
use linode_moq.Prelude.{ℕ, List, [], ◌++◌}
use linode_moq.Coding.Buffer.{Buf, BufMut}
use linode_moq.Coding.Decoder.{Decoder, pure, ◌>>=◌}
use linode_moq.Coding.Encoder.{Encoder, done, ◌>>◌}
use linode_moq.Coding.Codec.{IsCodec, Any}
use linode_moq.Coding.Rules.Writes.{Writes, Writes-then, Writes-done}
use linode_moq.Coding.Rules.Parses.{Parses, Parses-bind, Parses-pure}
use linode_moq.Coding.Rules.Ensures.{Ensures, Ensures-bind, Ensures-pure}
use linode_moq.Coding.Tuple.{
  Tuple, TupleFits, tuple_wire, tuple_encode, tuple_decode, tuple_encode-Writes,
  tuple_decode-Parses, tuple_decode-Ensures,
}
use linode_moq.Coding.Text.{
  IsText, string_wire, string_encode, string_decode, string_encode-Writes, string_decode-Parses,
  string_decode-Ensures,
}
use linode_moq.Message.TrackStatusCode.{
  TrackStatusCode, track_status_code_wire, track_status_code_encode, track_status_code_decode,
  track_status_code_encode-Writes, track_status_code_decode-Parses,
  track_status_code_decode-Ensures,
}
use linode_moq.Coding.Varint.{u64_encode, u64_decode}
use linode_moq.Coding.Varint.Format.{IsVarint, varint_wire}
use linode_moq.Coding.Varint.Encoding.{u64_encode-Writes}
use linode_moq.Coding.Varint.Integers.{u64_decode-Parses, u64_decode-Ensures}

pub record TrackStatus : Type 0 where
  pub track_namespace : Tuple
  pub track_name : List ℕ
  pub status_code : TrackStatusCode
  pub last_group_id : ℕ
  pub last_object_id : ℕ

pub record TrackStatusFits (m : TrackStatus) : Type 0 where
  pub track_namespace : TupleFits m.track_namespace
  pub track_name : IsText m.track_name
  pub status_code : Any m.status_code
  pub last_group_id : IsVarint m.last_group_id
  pub last_object_id : IsVarint m.last_object_id

unfoldable pub track_status_wire : TrackStatus → List ℕ
track_status_wire m =
    tuple_wire m.track_namespace
    ++ (string_wire m.track_name
        ++ (track_status_code_wire m.status_code
            ++ (varint_wire m.last_group_id ++ (varint_wire m.last_object_id ++ []))))

module _ {W : Type 0} ⦃c : BufMut W⦄ where
  unfoldable pub track_status_encode : TrackStatus → Encoder W
  track_status_encode m = do
    tuple_encode m.track_namespace
    string_encode m.track_name
    track_status_code_encode m.status_code
    u64_encode m.last_group_id
    u64_encode m.last_object_id
    done

  pub track_status_encode-Writes :
      (m : TrackStatus) → TrackStatusFits m → Writes c (track_status_encode m) (track_status_wire m)
  unfolding track_status_wire track_status_encode
  track_status_encode-Writes m h =
      Writes-then (tuple_encode-Writes m.track_namespace h.track_namespace) (
        Writes-then (string_encode-Writes m.track_name h.track_name) (
          Writes-then (track_status_code_encode-Writes m.status_code h.status_code) (
            Writes-then (u64_encode-Writes m.last_group_id h.last_group_id)
              (Writes-then (u64_encode-Writes m.last_object_id h.last_object_id) (Writes-done)))))

module _ {R : Type 0} ⦃b : Buf R⦄ where
  unfoldable pub track_status_decode : Decoder R TrackStatus
  track_status_decode = do
    track_namespace ← tuple_decode
    track_name ← string_decode
    status_code ← track_status_code_decode
    last_group_id ← u64_decode
    last_object_id ← u64_decode
    pure (record {
      track_namespace = track_namespace;
      track_name = track_name;
      status_code = status_code;
      last_group_id = last_group_id;
      last_object_id = last_object_id;
    })

  pub track_status_decode-Parses :
      (m : TrackStatus) → TrackStatusFits m → Parses b track_status_decode (track_status_wire m) m
  unfolding track_status_wire track_status_decode
  track_status_decode-Parses m h =
      Parses-bind _ (tuple_decode-Parses m.track_namespace h.track_namespace) (
        Parses-bind _ (string_decode-Parses m.track_name h.track_name) (
          Parses-bind _ (track_status_code_decode-Parses m.status_code h.status_code) (
            Parses-bind _ (u64_decode-Parses m.last_group_id h.last_group_id) (
              Parses-bind _ (u64_decode-Parses m.last_object_id h.last_object_id)
                (Parses-pure m)))))

  pub track_status_decode-Ensures : Ensures b TrackStatusFits track_status_decode
  unfolding track_status_decode
  track_status_decode-Ensures =
      Ensures-bind _ tuple_decode-Ensures λ track_namespace track_namespace'.
        Ensures-bind _ string_decode-Ensures λ track_name track_name'.
          Ensures-bind _ track_status_code_decode-Ensures λ status_code status_code'.
            Ensures-bind _ u64_decode-Ensures λ last_group_id last_group_id'.
              Ensures-bind _ u64_decode-Ensures λ last_object_id last_object_id'.
                Ensures-pure _ (record {
                  track_namespace = track_namespace';
                  track_name = track_name';
                  status_code = status_code';
                  last_group_id = last_group_id';
                  last_object_id = last_object_id';
                })

module _ {R W : Type 0} ⦃b : Buf R⦄ ⦃c : BufMut W⦄ where
  pub track_status-IsCodec :
      IsCodec b c TrackStatusFits track_status_wire track_status_encode track_status_decode
  track_status-IsCodec = record {
    writes = track_status_encode-Writes;
    parses = track_status_decode-Parses;
    ensures = track_status_decode-Ensures;
  }
