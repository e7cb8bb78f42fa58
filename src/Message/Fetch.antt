-- ===== src/Message/Fetch.antt =====
-- moq-transport/src/message/fetch.rs: a subscriber asks for objects already published.
use linode_moq.Prelude.{ℕ, List, [], ◌++◌}
use linode_moq.Coding.Buffer.{Buf, BufMut}
use linode_moq.Coding.Decoder.{Decoder, pure, ◌>>=◌}
use linode_moq.Coding.Encoder.{Encoder, done, ◌>>◌}
use linode_moq.Coding.Codec.{IsCodec, Any}
use linode_moq.Coding.Rules.Writes.{Writes, Writes-then, Writes-done}
use linode_moq.Coding.Rules.Parses.{Parses, Parses-bind, Parses-pure}
use linode_moq.Coding.Rules.Ensures.{Ensures, Ensures-bind, Ensures-pure}
use linode_moq.Coding.Varint.{u64_encode, u64_decode, u8_encode, u8_decode}
use linode_moq.Coding.Varint.Format.{IsVarint, varint_wire, u8_wire}
use linode_moq.Coding.Varint.Encoding.{u64_encode-Writes, u8_encode-Writes}
use linode_moq.Coding.Varint.Integers.{u64_decode-Parses, u64_decode-Ensures}
use linode_moq.Coding.Tuple.{
  Tuple, TupleFits, tuple_wire, tuple_encode, tuple_decode, tuple_encode-Writes,
  tuple_decode-Parses, tuple_decode-Ensures,
}
use linode_moq.Coding.Text.{
  IsText, string_wire, string_encode, string_decode, string_encode-Writes, string_decode-Parses,
  string_decode-Ensures,
}
use linode_moq.Prelude.BigEndian.{IsByte}
use linode_moq.Coding.Varint.Decoding.{u8_decode-Parses, u8_decode-Ensures}
use linode_moq.Message.GroupOrder.{
  GroupOrder, group_order_wire, group_order_encode, group_order_decode, group_order_encode-Writes,
  group_order_decode-Parses, group_order_decode-Ensures,
}
use linode_moq.Coding.Params.{Params, params_encode, params_decode}
use linode_moq.Coding.Params.Format.{ParamsFits, params_wire}
use linode_moq.Coding.Params.Laws.{
  params_encode-Writes, params_decode-Parses, params_decode-Ensures,
}

pub record Fetch : Type 0 where
  pub id : ℕ
  pub track_namespace : Tuple
  pub track_name : List ℕ
  pub subscriber_priority : ℕ
  pub group_order : GroupOrder
  pub start_group : ℕ
  pub start_object : ℕ
  pub end_group : ℕ
  pub end_object : ℕ
  pub params : Params

pub record FetchFits (m : Fetch) : Type 0 where
  pub id : IsVarint m.id
  pub track_namespace : TupleFits m.track_namespace
  pub track_name : IsText m.track_name
  pub subscriber_priority : IsByte m.subscriber_priority
  pub group_order : Any m.group_order
  pub start_group : IsVarint m.start_group
  pub start_object : IsVarint m.start_object
  pub end_group : IsVarint m.end_group
  pub end_object : IsVarint m.end_object
  pub params : ParamsFits m.params

unfoldable pub fetch_wire : Fetch → List ℕ
fetch_wire m =
    varint_wire m.id
    ++ (tuple_wire m.track_namespace
        ++ (string_wire m.track_name
            ++ (u8_wire m.subscriber_priority
                ++ (group_order_wire m.group_order
                    ++ (varint_wire m.start_group
                        ++ (varint_wire m.start_object
                            ++ (varint_wire m.end_group
                                ++ (varint_wire m.end_object ++ (params_wire m.params ++ [])))))))))

module _ {W : Type 0} ⦃c : BufMut W⦄ where
  unfoldable pub fetch_encode : Fetch → Encoder W
  fetch_encode m = do
    u64_encode m.id
    tuple_encode m.track_namespace
    string_encode m.track_name
    u8_encode m.subscriber_priority
    group_order_encode m.group_order
    u64_encode m.start_group
    u64_encode m.start_object
    u64_encode m.end_group
    u64_encode m.end_object
    params_encode m.params
    done

  pub fetch_encode-Writes : (m : Fetch) → FetchFits m → Writes c (fetch_encode m) (fetch_wire m)
  unfolding fetch_wire fetch_encode
  fetch_encode-Writes m h = Writes-then (u64_encode-Writes m.id h.id) (
      Writes-then (tuple_encode-Writes m.track_namespace h.track_namespace) (
        Writes-then (string_encode-Writes m.track_name h.track_name) (
          Writes-then (u8_encode-Writes m.subscriber_priority h.subscriber_priority) (
            Writes-then (group_order_encode-Writes m.group_order h.group_order) (
              Writes-then (u64_encode-Writes m.start_group h.start_group) (
                Writes-then (u64_encode-Writes m.start_object h.start_object) (
                  Writes-then (u64_encode-Writes m.end_group h.end_group) (
                    Writes-then (u64_encode-Writes m.end_object h.end_object)
                      (Writes-then (params_encode-Writes m.params h.params) (Writes-done))))))))))

module _ {R : Type 0} ⦃b : Buf R⦄ where
  unfoldable pub fetch_decode : Decoder R Fetch
  fetch_decode = do
    id ← u64_decode
    track_namespace ← tuple_decode
    track_name ← string_decode
    subscriber_priority ← u8_decode
    group_order ← group_order_decode
    start_group ← u64_decode
    start_object ← u64_decode
    end_group ← u64_decode
    end_object ← u64_decode
    params ← params_decode
    pure (record {
      id = id;
      track_namespace = track_namespace;
      track_name = track_name;
      subscriber_priority = subscriber_priority;
      group_order = group_order;
      start_group = start_group;
      start_object = start_object;
      end_group = end_group;
      end_object = end_object;
      params = params;
    })

  pub fetch_decode-Parses : (m : Fetch) → FetchFits m → Parses b fetch_decode (fetch_wire m) m
  unfolding fetch_wire fetch_decode
  fetch_decode-Parses m h = Parses-bind _ (u64_decode-Parses m.id h.id) (
      Parses-bind _ (tuple_decode-Parses m.track_namespace h.track_namespace) (
        Parses-bind _ (string_decode-Parses m.track_name h.track_name) (
          Parses-bind _ (u8_decode-Parses m.subscriber_priority h.subscriber_priority) (
            Parses-bind _ (group_order_decode-Parses m.group_order h.group_order) (
              Parses-bind _ (u64_decode-Parses m.start_group h.start_group) (
                Parses-bind _ (u64_decode-Parses m.start_object h.start_object) (
                  Parses-bind _ (u64_decode-Parses m.end_group h.end_group) (
                    Parses-bind _ (u64_decode-Parses m.end_object h.end_object) (
                      Parses-bind _ (params_decode-Parses m.params h.params)
                        (Parses-pure m))))))))))

  pub fetch_decode-Ensures : Ensures b FetchFits fetch_decode
  unfolding fetch_decode
  fetch_decode-Ensures = Ensures-bind _ u64_decode-Ensures λ id id'.
      Ensures-bind _ tuple_decode-Ensures λ track_namespace track_namespace'.
        Ensures-bind _ string_decode-Ensures λ track_name track_name'.
          Ensures-bind _ u8_decode-Ensures λ subscriber_priority subscriber_priority'.
            Ensures-bind _ group_order_decode-Ensures λ group_order group_order'.
              Ensures-bind _ u64_decode-Ensures λ start_group start_group'.
                Ensures-bind _ u64_decode-Ensures λ start_object start_object'.
                  Ensures-bind _ u64_decode-Ensures λ end_group end_group'.
                    Ensures-bind _ u64_decode-Ensures λ end_object end_object'.
                      Ensures-bind _ params_decode-Ensures λ params params'.
                        Ensures-pure _ (record {
                          id = id';
                          track_namespace = track_namespace';
                          track_name = track_name';
                          subscriber_priority = subscriber_priority';
                          group_order = group_order';
                          start_group = start_group';
                          start_object = start_object';
                          end_group = end_group';
                          end_object = end_object';
                          params = params';
                        })

module _ {R W : Type 0} ⦃b : Buf R⦄ ⦃c : BufMut W⦄ where
  pub fetch-IsCodec : IsCodec b c FetchFits fetch_wire fetch_encode fetch_decode
  fetch-IsCodec = record {
    writes = fetch_encode-Writes;
    parses = fetch_decode-Parses;
    ensures = fetch_decode-Ensures;
  }
