-- ===== src/Message/SubscribeRange.antt =====
-- The filter-dependent part of SUBSCRIBE and SUBSCRIBE_UPDATE, which
-- moq-transport/src/message/subscribe.rs and subscribe_update.rs hold in the same words.
pub mod Laws
use linode_moq.Prelude.{
  List, [], ◌++◌, ℕ, ltb, if◌then◌else◌, Bool, true, false, ◌&&◌, ◌||◌, not, Option, none, some,
  ◌≡◌,
}
use linode_moq.Coding.Outcome.{DecodeError, EncodeError}
use linode_moq.Coding.Buffer.{Buf, BufMut}
use linode_moq.Coding.Decoder.{Decoder, pure, fail, ◌>>=◌, remaining}
use linode_moq.Coding.Encoder.{Encoder, done, ◌>>◌, fail as refuse}
use linode_moq.Message.FilterType.{
  FilterType, latest_group, latest_object, absolute_start, absolute_range,
}
use linode_moq.Message.SubscribePair.{
  SubscribeLocation, SubscribePair, nowhere, absolute, latest, future, SubscribePairFits,
  subscribe_pair_wire, subscribe_pair_encode, subscribe_pair_decode,
}

abbrev pub is_nowhere : SubscribeLocation → Bool
is_nowhere nowhere = true
is_nowhere _ = false

-- No object without a group.
unfoldable pub pair_ok : Option SubscribePair → Bool
pair_ok none = true
pair_ok (some p) = not (is_nowhere p.group && not (is_nowhere p.object))

abbrev pub is_none : Option SubscribePair → Bool
is_none none = true
is_none (some p) = false

abbrev pub is_absolute : FilterType → Bool
is_absolute latest_group = false
is_absolute latest_object = false
is_absolute absolute_start = true
is_absolute absolute_range = true

abbrev pub Range : Type 0
Range = Option SubscribePair × Option SubscribePair

-- The ranges that go out and come back.
abbrev pub RangeFits : FilterType → Option SubscribePair → Option SubscribePair → Type 0
RangeFits latest_group none none = Unit
RangeFits latest_object none none = Unit
RangeFits absolute_range (some s) (some e) =
    SubscribePairFits s
    × SubscribePairFits e
    × (pair_ok (some s) ≡ true)
    × (pair_ok (some e) ≡ true)
RangeFits _ _ _ = ⊥

-- The ranges that the decoder returns.
abbrev pub RangeReceived : FilterType → Option SubscribePair → Option SubscribePair → Type 0
RangeReceived absolute_start (some s) none = SubscribePairFits s × (pair_ok (some s) ≡ true)
RangeReceived f s e = RangeFits f s e

unfoldable pub range_wire : Option SubscribePair → Option SubscribePair → List ℕ
range_wire (some s) (some e) = subscribe_pair_wire s ++ (subscribe_pair_wire e ++ [])
range_wire _ _ = []

module _ {W : Type 0} ⦃c : BufMut W⦄ where
  encode_option : Option SubscribePair → Encoder W
  encode_option none = done
  encode_option (some p) = subscribe_pair_encode p

  encode_bounds : Option SubscribePair → Option SubscribePair → Encoder W
  encode_bounds s e =
      if is_none s || is_none e
      then refuse EncodeError.missing_field
      else do encode_option s; encode_option e; done

  unfoldable pub range_encode : FilterType → Option SubscribePair → Option SubscribePair → Encoder W
  unfolding encode_option encode_bounds
  range_encode f s e = if is_absolute f then encode_bounds s e else done

module _ {R : Type 0} ⦃b : Buf R⦄ where
  -- The match on the filter type.
  unfoldable pub start_of : ℕ → Decoder R Range
  start_of left =
      if ltb left 2
      then fail DecodeError.missing_field
      else do start ← subscribe_pair_decode; pure (some start, none)

  unfoldable pub both_pairs : Decoder R Range
  both_pairs = do
    start ← subscribe_pair_decode
    end ← subscribe_pair_decode
    pure (some start, some end)

  unfoldable pub bounds_of : ℕ → Decoder R Range
  bounds_of left = if ltb left 4 then fail DecodeError.missing_field else both_pairs

  unfoldable pub match_filter : FilterType → Decoder R Range
  match_filter latest_group = pure (none, none)
  match_filter latest_object = pure (none, none)
  match_filter absolute_start = do left ← remaining; start_of left
  match_filter absolute_range = do left ← remaining; bounds_of left

  -- The two checks that follow.
  unfoldable pub check_range : Range → Decoder R Range
  check_range (start, end) =
      if pair_ok start
      then if pair_ok end then pure (start, end) else fail DecodeError.invalid_subscribe_location
      else fail DecodeError.invalid_subscribe_location

  unfoldable pub range_decode : FilterType → Decoder R Range
  range_decode f = do range ← match_filter f; check_range range
