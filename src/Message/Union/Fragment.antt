-- ===== src/Message/Union/Fragment.antt =====
-- A SUBSCRIBE with an absolute filter, of which the bytes up to the range have come.
use linode_moq.Prelude.{ℕ, ◌≡◌, refl, List, [], ◌++◌, true, arith}
use linode_moq.Coding.Outcome.{DecodeError}
use linode_moq.Coding.Buffer.{Buf}
use linode_moq.Coding.Decoder.{◌>>=◌, remaining, fail}
use linode_moq.Coding.Rules.Stops.{Stops, Stops-bind, Stops-first}
use linode_moq.Coding.Varint.Format.{IsVarint, varint_wire, u8_wire}
use linode_moq.Coding.Varint.Integers.{u64_decode-Parses}
use linode_moq.Coding.Varint.Decoding.{u8_decode-Parses}
use linode_moq.Coding.Tuple.{tuple_wire, tuple_decode-Parses}
use linode_moq.Coding.Text.{string_wire, string_decode-Parses}
use linode_moq.Message.GroupOrder.{group_order_wire, group_order_decode-Parses}
use linode_moq.Message.FilterType.{
  FilterType, latest_group, latest_object, absolute_start, absolute_range, filter_type_wire,
  filter_type_decode-Parses,
}
use linode_moq.Message.SubscribeRange.{is_absolute, match_filter, start_of, bounds_of, range_decode}
use linode_moq.Message.Subscribe.{Subscribe, SubscribeParts, subscribe_decode}
use linode_moq.Message.Union.{body_decode, message_decode}

-- The fields before the range.
unfoldable pub subscribe_front_wire : Subscribe → List ℕ
subscribe_front_wire m =
    varint_wire m.id
    ++ (varint_wire m.track_alias
        ++ (tuple_wire m.track_namespace
            ++ (string_wire m.track_name
                ++ (u8_wire m.subscriber_priority
                    ++ (group_order_wire m.group_order
                        ++ (filter_type_wire m.filter_type ++ []))))))

-- They stand behind the type of the message and the length of the whole.
unfoldable pub fragment_wire : Subscribe → ℕ → List ℕ
fragment_wire m size = varint_wire 3 ++ (varint_wire size ++ subscribe_front_wire m)

module _ {R : Type 0} ⦃b : Buf R⦄ where
  match_filter-Stops :
      (f : FilterType)
      → is_absolute f ≡ true
      → Stops b (match_filter f) [] DecodeError.missing_field
  unfolding match_filter start_of bounds_of ◌>>=◌ remaining fail
  match_filter-Stops latest_group h = cc
  match_filter-Stops latest_object h = cc
  match_filter-Stops absolute_start h = record { at = λ r e. rw (b.remaining_lem r, e) refl }
  match_filter-Stops absolute_range h = record { at = λ r e. rw (b.remaining_lem r, e) refl }

  range_decode-Stops :
      (f : FilterType)
      → is_absolute f ≡ true
      → Stops b (range_decode f) [] DecodeError.missing_field
  unfolding range_decode
  range_decode-Stops f h = Stops-first _ (match_filter-Stops f h)

  subscribe_decode-Stops :
      (m : Subscribe)
      → SubscribeParts m
      → is_absolute m.filter_type ≡ true
      → Stops b subscribe_decode (subscribe_front_wire m) DecodeError.missing_field
  unfolding subscribe_decode subscribe_front_wire
  subscribe_decode-Stops m h absolute = Stops-bind _ (u64_decode-Parses m.id h.id).reads (
      Stops-bind _ (u64_decode-Parses m.track_alias h.track_alias).reads (
        Stops-bind _ (tuple_decode-Parses m.track_namespace h.track_namespace).reads (
          Stops-bind _ (string_decode-Parses m.track_name h.track_name).reads (
            Stops-bind _ (u8_decode-Parses m.subscriber_priority h.subscriber_priority).reads (
              Stops-bind _ (group_order_decode-Parses m.group_order h.group_order).reads (
                Stops-bind _ (filter_type_decode-Parses m.filter_type h.filter_type).reads
                  (Stops-first _ (range_decode-Stops m.filter_type absolute))))))))

  pub message_decode-Stops :
      (m : Subscribe) (size : ℕ)
      → SubscribeParts m
      → IsVarint size
      → is_absolute m.filter_type ≡ true
      → Stops b message_decode (fragment_wire m size) DecodeError.missing_field
  unfolding message_decode fragment_wire body_decode
  message_decode-Stops m size h fits absolute =
      Stops-bind _ (u64_decode-Parses 3 (omega arith)).reads (
        Stops-bind _ (u64_decode-Parses size fits).reads
          (Stops-first _ (subscribe_decode-Stops m h absolute)))
