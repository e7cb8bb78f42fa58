-- ===== src/Message/FetchOk.antt =====
-- moq-transport/src/message/fetch_ok.rs: a publisher accepts a fetch.
use linode_moq.Prelude.{ℕ, List, [], ◌++◌}
use linode_moq.Coding.Buffer.{Buf, BufMut}
use linode_moq.Coding.Decoder.{Decoder, pure, ◌>>=◌}
use linode_moq.Coding.Encoder.{Encoder, done, ◌>>◌}
use linode_moq.Coding.Codec.{IsCodec}
use linode_moq.Coding.Rules.Writes.{Writes, Writes-then, Writes-done}
use linode_moq.Coding.Rules.Parses.{Parses, Parses-bind, Parses-pure}
use linode_moq.Coding.Rules.Ensures.{Ensures, Ensures-bind, Ensures-pure}
use linode_moq.Coding.Varint.{u64_encode, u64_decode, u8_encode, u8_decode}
use linode_moq.Coding.Varint.Format.{IsVarint, varint_wire, u8_wire}
use linode_moq.Coding.Varint.Encoding.{u64_encode-Writes, u8_encode-Writes}
use linode_moq.Coding.Varint.Integers.{u64_decode-Parses, u64_decode-Ensures}
use linode_moq.Prelude.BigEndian.{IsByte}
use linode_moq.Coding.Varint.Decoding.{u8_decode-Parses, u8_decode-Ensures}
use linode_moq.Coding.Params.{Params, params_encode, params_decode}
use linode_moq.Coding.Params.Format.{ParamsFits, params_wire}
use linode_moq.Coding.Params.Laws.{
  params_encode-Writes, params_decode-Parses, params_decode-Ensures,
}

pub record FetchOk : Type 0 where
  pub id : ℕ
  pub group_order : ℕ
  pub end_of_track : ℕ
  pub largest_group_id : ℕ
  pub largest_object_id : ℕ
  pub params : Params

pub record FetchOkFits (m : FetchOk) : Type 0 where
  pub id : IsVarint m.id
  pub group_order : IsByte m.group_order
  pub end_of_track : IsByte m.end_of_track
  pub largest_group_id : IsVarint m.largest_group_id
  pub largest_object_id : IsVarint m.largest_object_id
  pub params : ParamsFits m.params

unfoldable pub fetch_ok_wire : FetchOk → List ℕ
fetch_ok_wire m =
    varint_wire m.id
    ++ (u8_wire m.group_order
        ++ (u8_wire m.end_of_track
            ++ (varint_wire m.largest_group_id
                ++ (varint_wire m.largest_object_id ++ (params_wire m.params ++ [])))))

module _ {W : Type 0} ⦃c : BufMut W⦄ where
  unfoldable pub fetch_ok_encode : FetchOk → Encoder W
  fetch_ok_encode m = do
    u64_encode m.id
    u8_encode m.group_order
    u8_encode m.end_of_track
    u64_encode m.largest_group_id
    u64_encode m.largest_object_id
    params_encode m.params
    done

  pub fetch_ok_encode-Writes :
      (m : FetchOk) → FetchOkFits m → Writes c (fetch_ok_encode m) (fetch_ok_wire m)
  unfolding fetch_ok_wire fetch_ok_encode
  fetch_ok_encode-Writes m h = Writes-then (u64_encode-Writes m.id h.id) (
      Writes-then (u8_encode-Writes m.group_order h.group_order) (
        Writes-then (u8_encode-Writes m.end_of_track h.end_of_track) (
          Writes-then (u64_encode-Writes m.largest_group_id h.largest_group_id) (
            Writes-then (u64_encode-Writes m.largest_object_id h.largest_object_id)
              (Writes-then (params_encode-Writes m.params h.params) (Writes-done))))))

module _ {R : Type 0} ⦃b : Buf R⦄ where
  unfoldable pub fetch_ok_decode : Decoder R FetchOk
  fetch_ok_decode = do
    id ← u64_decode
    group_order ← u8_decode
    end_of_track ← u8_decode
    largest_group_id ← u64_decode
    largest_object_id ← u64_decode
    params ← params_decode
    pure (record {
      id = id;
      group_order = group_order;
      end_of_track = end_of_track;
      largest_group_id = largest_group_id;
      largest_object_id = largest_object_id;
      params = params;
    })

  pub fetch_ok_decode-Parses :
      (m : FetchOk) → FetchOkFits m → Parses b fetch_ok_decode (fetch_ok_wire m) m
  unfolding fetch_ok_wire fetch_ok_decode
  fetch_ok_decode-Parses m h = Parses-bind _ (u64_decode-Parses m.id h.id) (
      Parses-bind _ (u8_decode-Parses m.group_order h.group_order) (
        Parses-bind _ (u8_decode-Parses m.end_of_track h.end_of_track) (
          Parses-bind _ (u64_decode-Parses m.largest_group_id h.largest_group_id) (
            Parses-bind _ (u64_decode-Parses m.largest_object_id h.largest_object_id)
              (Parses-bind _ (params_decode-Parses m.params h.params) (Parses-pure m))))))

  pub fetch_ok_decode-Ensures : Ensures b FetchOkFits fetch_ok_decode
  unfolding fetch_ok_decode
  fetch_ok_decode-Ensures = Ensures-bind _ u64_decode-Ensures λ id id'.
      Ensures-bind _ u8_decode-Ensures λ group_order group_order'.
        Ensures-bind _ u8_decode-Ensures λ end_of_track end_of_track'.
          Ensures-bind _ u64_decode-Ensures λ largest_group_id largest_group_id'.
            Ensures-bind _ u64_decode-Ensures λ largest_object_id largest_object_id'.
              Ensures-bind _ params_decode-Ensures λ params params'. Ensures-pure _ (record {
                id = id';
                group_order = group_order';
                end_of_track = end_of_track';
                largest_group_id = largest_group_id';
                largest_object_id = largest_object_id';
                params = params';
              })

module _ {R W : Type 0} ⦃b : Buf R⦄ ⦃c : BufMut W⦄ where
  pub fetch_ok-IsCodec : IsCodec b c FetchOkFits fetch_ok_wire fetch_ok_encode fetch_ok_decode
  fetch_ok-IsCodec = record {
    writes = fetch_ok_encode-Writes;
    parses = fetch_ok_decode-Parses;
    ensures = fetch_ok_decode-Ensures;
  }
