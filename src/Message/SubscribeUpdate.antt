-- ===== src/Message/SubscribeUpdate.antt =====
-- moq-transport/src/message/subscribe_update.rs: a subscriber changes its subscription.
use linode_moq.Prelude.{ℕ, List, [], ◌++◌, ◌+◌, ◌≡◌, false, length, Option, none}
use linode_moq.Coding.Buffer.{Buf, BufMut}
use linode_moq.Coding.Decoder.{Decoder, pure, ◌>>=◌}
use linode_moq.Coding.Encoder.{Encoder, done, ◌>>◌}
use linode_moq.Coding.Codec.{Any}
use linode_moq.Coding.Rules.Writes.{
  Writes, Writes-then, Writes-done, Refuses, Refuses-then, Refuses-first,
}
use linode_moq.Coding.Rules.Parses.{Parses, Parses-bind, Parses-pure}
use linode_moq.Coding.Rules.Ensures.{Ensures, Ensures-bind, Ensures-pure}
use linode_moq.Coding.Varint.{u64_encode, u64_decode, u8_encode, u8_decode}
use linode_moq.Coding.Varint.Format.{IsVarint, varint_wire, u8_wire}
use linode_moq.Coding.Varint.Encoding.{u64_encode-Writes, u8_encode-Writes}
use linode_moq.Coding.Varint.Integers.{u64_decode-Parses, u64_decode-Ensures}
use linode_moq.Coding.Tuple.{
  Tuple, TupleFits, tuple_wire, tuple_encode, tuple_decode, tuple_encode-Writes,
  tuple_decode-Parses, tuple_decode-Ensures,
}
use linode_moq.Coding.Text.{
  IsText, string_wire, string_encode, string_decode, string_encode-Writes, string_decode-Parses,
  string_decode-Ensures,
}
use linode_moq.Prelude.BigEndian.{IsByte}
use linode_moq.Coding.Varint.Decoding.{u8_decode-Parses, u8_decode-Ensures}
use linode_moq.Message.GroupOrder.{
  GroupOrder, group_order_wire, group_order_encode, group_order_decode, group_order_encode-Writes,
  group_order_decode-Parses, group_order_decode-Ensures,
}
use linode_moq.Message.FilterType.{
  FilterType, filter_type_wire, filter_type_encode, filter_type_decode, filter_type_encode-Writes,
  filter_type_decode-Parses, filter_type_decode-Ensures, absolute_start,
}
use linode_moq.Coding.Params.{Params, params_encode, params_decode}
use linode_moq.Coding.Params.Format.{ParamsFits, params_wire}
use linode_moq.Coding.Params.Laws.{
  params_encode-Writes, params_decode-Parses, params_decode-Ensures,
}
use linode_moq.Coding.Outcome.{EncodeError}
use linode_moq.Coding.Rules.Reads.{Reads, Reads-bind, Reads-pure}
use linode_moq.Message.SubscribePair.{SubscribePair}
use linode_moq.Message.SubscribeRange.{
  RangeFits, RangeReceived, is_absolute, range_wire, range_encode, range_decode,
}
use linode_moq.Message.SubscribeRange.Laws.{
  range_encode-Writes, range_encode-Refuses, range_decode-Parses, range_decode-Reads,
  range_decode-Ensures,
}

pub record SubscribeUpdate : Type 0 where
  pub id : ℕ
  pub track_alias : ℕ
  pub track_namespace : Tuple
  pub track_name : List ℕ
  pub subscriber_priority : ℕ
  pub group_order : GroupOrder
  pub filter_type : FilterType
  pub start : Option SubscribePair
  pub end : Option SubscribePair
  pub params : Params

-- What every field but the range needs to have a wire form.
pub record SubscribeUpdateParts (m : SubscribeUpdate) : Type 0 where
  pub id : IsVarint m.id
  pub track_alias : IsVarint m.track_alias
  pub track_namespace : TupleFits m.track_namespace
  pub track_name : IsText m.track_name
  pub subscriber_priority : IsByte m.subscriber_priority
  pub group_order : Any m.group_order
  pub filter_type : Any m.filter_type
  pub params : ParamsFits m.params

pub record SubscribeUpdateFits (m : SubscribeUpdate) : Type 0 where
  pub parts : SubscribeUpdateParts m
  pub range : RangeFits m.filter_type m.start m.end

-- What the decoder returns; a range may lack its end there.
pub record SubscribeUpdateReceived (m : SubscribeUpdate) : Type 0 where
  pub parts : SubscribeUpdateParts m
  pub range : RangeReceived m.filter_type m.start m.end

unfoldable pub subscribe_update_wire : SubscribeUpdate → List ℕ
subscribe_update_wire m =
    varint_wire m.id
    ++ (varint_wire m.track_alias
        ++ (tuple_wire m.track_namespace
            ++ (string_wire m.track_name
                ++ (u8_wire m.subscriber_priority
                    ++ (group_order_wire m.group_order
                        ++ (filter_type_wire m.filter_type
                            ++ (range_wire m.start m.end ++ (params_wire m.params ++ []))))))))

-- The bytes of the fields before the range.
unfoldable pub subscribe_update_front : SubscribeUpdate → ℕ
subscribe_update_front m =
    length (varint_wire m.id)
    + (length (varint_wire m.track_alias)
        + (length (tuple_wire m.track_namespace)
            + (length (string_wire m.track_name)
                + (length (u8_wire m.subscriber_priority)
                    + (length (group_order_wire m.group_order)
                        + (length (filter_type_wire m.filter_type) + 0))))))

module _ {W : Type 0} ⦃c : BufMut W⦄ where
  unfoldable pub subscribe_update_encode : SubscribeUpdate → Encoder W
  subscribe_update_encode m = do
    u64_encode m.id
    u64_encode m.track_alias
    tuple_encode m.track_namespace
    string_encode m.track_name
    u8_encode m.subscriber_priority
    group_order_encode m.group_order
    filter_type_encode m.filter_type
    range_encode m.filter_type m.start m.end
    params_encode m.params
    done

  pub subscribe_update_encode-Writes :
      (m : SubscribeUpdate)
      → SubscribeUpdateFits m
      → Writes c (subscribe_update_encode m) (subscribe_update_wire m)
  unfolding subscribe_update_wire subscribe_update_encode
  subscribe_update_encode-Writes m h = Writes-then (u64_encode-Writes m.id h.parts.id) (
      Writes-then (u64_encode-Writes m.track_alias h.parts.track_alias) (
        Writes-then (tuple_encode-Writes m.track_namespace h.parts.track_namespace) (
          Writes-then (string_encode-Writes m.track_name h.parts.track_name) (
            Writes-then (u8_encode-Writes m.subscriber_priority h.parts.subscriber_priority) (
              Writes-then (group_order_encode-Writes m.group_order h.parts.group_order) (
                Writes-then (filter_type_encode-Writes m.filter_type h.parts.filter_type) (
                  Writes-then (range_encode-Writes m.filter_type m.start m.end h.range) (
                    Writes-then (params_encode-Writes m.params h.parts.params) (Writes-done)))))))))

  -- With an open end under the filter AbsoluteStart it is refused, behind the fields before the range.
  pub subscribe_update_encode-Refuses :
      (m : SubscribeUpdate)
      → SubscribeUpdateParts m
      → m.filter_type ≡ absolute_start
      → m.end ≡ none
      → Refuses c (subscribe_update_encode m) EncodeError.missing_field (subscribe_update_front m)
  unfolding subscribe_update_encode subscribe_update_front
  subscribe_update_encode-Refuses m h filter open_ended =
      Refuses-then (u64_encode-Writes m.id h.id) (
        Refuses-then (u64_encode-Writes m.track_alias h.track_alias) (
          Refuses-then (tuple_encode-Writes m.track_namespace h.track_namespace) (
            Refuses-then (string_encode-Writes m.track_name h.track_name) (
              Refuses-then (u8_encode-Writes m.subscriber_priority h.subscriber_priority) (
                Refuses-then (group_order_encode-Writes m.group_order h.group_order) (
                  Refuses-then (filter_type_encode-Writes m.filter_type h.filter_type) (
                    Refuses-first _
                      (range_encode-Refuses m.filter_type m.start m.end filter open_ended))))))))

module _ {R : Type 0} ⦃b : Buf R⦄ where
  unfoldable pub subscribe_update_decode : Decoder R SubscribeUpdate
  subscribe_update_decode = do
    id ← u64_decode
    track_alias ← u64_decode
    track_namespace ← tuple_decode
    track_name ← string_decode
    subscriber_priority ← u8_decode
    group_order ← group_order_decode
    filter_type ← filter_type_decode
    (start, end) ← range_decode filter_type
    params ← params_decode
    pure (record {
      id = id;
      track_alias = track_alias;
      track_namespace = track_namespace;
      track_name = track_name;
      subscriber_priority = subscriber_priority;
      group_order = group_order;
      filter_type = filter_type;
      start = start;
      end = end;
      params = params;
    })

  pub subscribe_update_decode-Reads :
      (m : SubscribeUpdate)
      → SubscribeUpdateFits m
      → Reads b subscribe_update_decode (subscribe_update_wire m) m
  unfolding subscribe_update_wire subscribe_update_decode
  subscribe_update_decode-Reads m h = Reads-bind _ (u64_decode-Parses m.id h.parts.id).reads (
      Reads-bind _ (u64_decode-Parses m.track_alias h.parts.track_alias).reads (
        Reads-bind _ (tuple_decode-Parses m.track_namespace h.parts.track_namespace).reads (
          Reads-bind _ (string_decode-Parses m.track_name h.parts.track_name).reads (
            Reads-bind _ (u8_decode-Parses m.subscriber_priority h.parts.subscriber_priority).reads
              (Reads-bind _ (group_order_decode-Parses m.group_order h.parts.group_order).reads (
                Reads-bind _ (filter_type_decode-Parses m.filter_type h.parts.filter_type).reads (
                  Reads-bind _ (range_decode-Reads m.filter_type m.start m.end h.range) (
                    Reads-bind _ (params_decode-Parses m.params h.parts.params).reads
                      (Reads-pure m)))))))))

  pub subscribe_update_decode-Parses :
      (m : SubscribeUpdate)
      → SubscribeUpdateFits m
      → is_absolute m.filter_type ≡ false
      → Parses b subscribe_update_decode (subscribe_update_wire m) m
  unfolding subscribe_update_wire subscribe_update_decode
  subscribe_update_decode-Parses m h live = Parses-bind _ (u64_decode-Parses m.id h.parts.id) (
      Parses-bind _ (u64_decode-Parses m.track_alias h.parts.track_alias) (
        Parses-bind _ (tuple_decode-Parses m.track_namespace h.parts.track_namespace) (
          Parses-bind _ (string_decode-Parses m.track_name h.parts.track_name) (
            Parses-bind _ (u8_decode-Parses m.subscriber_priority h.parts.subscriber_priority) (
              Parses-bind _ (group_order_decode-Parses m.group_order h.parts.group_order) (
                Parses-bind _ (filter_type_decode-Parses m.filter_type h.parts.filter_type) (
                  Parses-bind _ (range_decode-Parses m.filter_type m.start m.end h.range live) (
                    Parses-bind _ (params_decode-Parses m.params h.parts.params)
                      (Parses-pure m)))))))))

  pub subscribe_update_decode-Ensures : Ensures b SubscribeUpdateReceived subscribe_update_decode
  unfolding subscribe_update_decode
  subscribe_update_decode-Ensures = Ensures-bind _ u64_decode-Ensures λ id id'.
      Ensures-bind _ u64_decode-Ensures λ track_alias track_alias'.
        Ensures-bind _ tuple_decode-Ensures λ track_namespace track_namespace'.
          Ensures-bind _ string_decode-Ensures λ track_name track_name'.
            Ensures-bind _ u8_decode-Ensures λ subscriber_priority subscriber_priority'.
              Ensures-bind _ group_order_decode-Ensures λ group_order group_order'.
                Ensures-bind _ filter_type_decode-Ensures λ filter_type filter_type'.
                  Ensures-bind _ (range_decode-Ensures filter_type) λ (start, end) range'.
                    Ensures-bind _ params_decode-Ensures λ params params'. Ensures-pure _ (record {
                      parts = record {
                        id = id';
                        track_alias = track_alias';
                        track_namespace = track_namespace';
                        track_name = track_name';
                        subscriber_priority = subscriber_priority';
                        group_order = group_order';
                        filter_type = filter_type';
                        params = params';
                      };
                      range = range';
                    })
