-- ===== src/Message/SubscribeRange/Laws.antt =====
-- What the filter-dependent part writes, reads and accepts.
use linode_moq.Prelude.{
  ℕ, ◌≤◌, [], ◌++◌, length, length-append, ltb, le→ltb, true, false, Option, none, some, ◌≡◌, refl,
  arith,
}
use linode_moq.Coding.Outcome.{EncodeError}
use linode_moq.Coding.Buffer.{Buf, BufMut}
use linode_moq.Coding.Decoder.{◌>>=◌, remaining}
use linode_moq.Coding.Rules.Writes.{Refuses, Refuses-fail, Writes, Writes-then, Writes-done}
use linode_moq.Coding.Rules.Reads.{Reads, Reads-bind, Reads-pure, Reads-last, Reads-remaining}
use linode_moq.Coding.Rules.Parses.{Parses, Parses-bind, Parses-pure}
use linode_moq.Coding.Rules.Ensures.{
  Ensures, Ensures-bind, Ensures-pure, Ensures-fail, Ensures-if, Ensures-remaining,
}
use linode_moq.Message.FilterType.{
  FilterType, latest_group, latest_object, absolute_start, absolute_range,
}
use linode_moq.Message.SubscribePair.{
  SubscribePair, SubscribePairFits, subscribe_pair_wire, subscribe_pair_encode-Writes,
  subscribe_pair_decode-Parses, subscribe_pair_decode-Ensures, length-subscribe_pair_wire,
}
use linode_moq.Message.SubscribeRange.{
  RangeFits, RangeReceived, is_absolute, pair_ok, range_wire, range_encode, range_decode,
  match_filter, both_pairs, bounds_of, start_of, check_range,
}

-- What the match on the filter returns, before the checks.
abbrev Matched : FilterType → Option SubscribePair → Option SubscribePair → Type 0
Matched latest_group none none = Unit
Matched latest_object none none = Unit
Matched absolute_start (some s) none = SubscribePairFits s
Matched absolute_range (some s) (some e) = SubscribePairFits s × SubscribePairFits e
Matched _ _ _ = ⊥

received :
    (f : FilterType) (s e : Option SubscribePair)
    → Matched f s e
    → pair_ok s ≡ true
    → pair_ok e ≡ true
    → RangeReceived f s e
received latest_group none none h os oe = tt
received latest_object none none h os oe = tt
received absolute_start (some s) none h os oe = (h, os)
received absolute_range (some s) (some e) (hs, he) os oe = (hs, he, os, oe)
received _ _ _ h os oe = absurd h

module _ {W : Type 0} ⦃c : BufMut W⦄ where
  pub range_encode-Writes :
      (f : FilterType) (s e : Option SubscribePair)
      → RangeFits f s e
      → Writes c (range_encode f s e) (range_wire s e)
  unfolding range_encode range_wire
  range_encode-Writes latest_group none none h = Writes-done
  range_encode-Writes latest_object none none h = Writes-done
  range_encode-Writes absolute_range (some s) (some e) (hs, he, _, _) =
      Writes-then (subscribe_pair_encode-Writes s hs)
        (Writes-then (subscribe_pair_encode-Writes e he) Writes-done)
  range_encode-Writes _ _ _ h = absurd h

  -- A range from a start on with no end is refused.
  pub range_encode-Refuses :
      (f : FilterType) (s e : Option SubscribePair)
      → f ≡ absolute_start
      → e ≡ none
      → Refuses c (range_encode f s e) EncodeError.missing_field 0
  unfolding range_encode
  range_encode-Refuses absolute_start none none p q = Refuses-fail EncodeError.missing_field
  range_encode-Refuses absolute_start (some s) none p q = Refuses-fail EncodeError.missing_field
  range_encode-Refuses _ _ _ p q = cc

module _ {R : Type 0} ⦃b : Buf R⦄ where
  both_pairs-Reads :
      (s e : SubscribePair)
      → SubscribePairFits s
      → SubscribePairFits e
      → Reads b both_pairs (range_wire (some s) (some e)) (some s, some e)
  unfolding both_pairs range_wire
  both_pairs-Reads s e hs he =
      Reads-bind _ (subscribe_pair_decode-Parses s hs).reads
        (Reads-bind _ (subscribe_pair_decode-Parses e he).reads (Reads-pure _))

  bounds_of-Reads :
      (s e : SubscribePair)
      → SubscribePairFits s
      → SubscribePairFits e
      → Reads b (remaining >>= bounds_of) (range_wire (some s) (some e)) (some s, some e)
  unfolding bounds_of range_wire
  bounds_of-Reads s e hs he =
      Reads-remaining bounds_of both_pairs 4 room enough (both_pairs-Reads s e hs he)
    where
      room : 4 ≤ length (subscribe_pair_wire s ++ (subscribe_pair_wire e ++ []))
      room = omega (
        arith,
        length-subscribe_pair_wire s,
        length-subscribe_pair_wire e,
        length-append (subscribe_pair_wire s) (subscribe_pair_wire e ++ []),
        length-append (subscribe_pair_wire e) [],
      )

      enough : (k : ℕ) → 4 ≤ k → bounds_of {R = R} k ≡ both_pairs
      enough k h = rw (le→ltb k 4 h)

  check_range-Parses :
      (s e : Option SubscribePair)
      → pair_ok s ≡ true
      → pair_ok e ≡ true
      → Parses b (check_range (s, e)) [] (s, e)
  unfolding check_range
  check_range-Parses s e os oe = rw (os, oe) (Parses-pure (s, e))

  -- The ranges that end with the live edge take no bytes.
  pub range_decode-Parses :
      (f : FilterType) (s e : Option SubscribePair)
      → RangeFits f s e
      → is_absolute f ≡ false
      → Parses b (range_decode f) (range_wire s e) (s, e)
  unfolding range_decode match_filter range_wire pair_ok
  range_decode-Parses latest_group none none h a =
      Parses-bind check_range (Parses-pure (none, none)) (check_range-Parses none none refl refl)
  range_decode-Parses latest_object none none h a =
      Parses-bind check_range (Parses-pure (none, none)) (check_range-Parses none none refl refl)
  range_decode-Parses absolute_range (some s) (some e) h a = cc
  range_decode-Parses _ _ _ h a = absurd h

  pub range_decode-Reads :
      (f : FilterType) (s e : Option SubscribePair)
      → RangeFits f s e
      → Reads b (range_decode f) (range_wire s e) (s, e)
  unfolding range_decode match_filter
  range_decode-Reads latest_group none none h =
      (range_decode-Parses latest_group none none tt refl).reads
  range_decode-Reads latest_object none none h =
      (range_decode-Parses latest_object none none tt refl).reads
  range_decode-Reads absolute_range (some s) (some e) (hs, he, os, oe) =
      Reads-last check_range (bounds_of-Reads s e hs he)
        (check_range-Parses (some s) (some e) os oe).reads
  range_decode-Reads _ _ _ h = absurd h

  match_filter-Ensures : (f : FilterType) → Ensures b (λ r. Matched f r.0 r.1) (match_filter f)
  unfolding match_filter start_of bounds_of both_pairs
  match_filter-Ensures latest_group = Ensures-pure (none, none) tt
  match_filter-Ensures latest_object = Ensures-pure (none, none) tt
  match_filter-Ensures absolute_start = Ensures-bind _ Ensures-remaining λ left _.
      Ensures-if (ltb left 2) (λ _. Ensures-fail _)
        λ _. Ensures-bind _ subscribe_pair_decode-Ensures λ s hs. Ensures-pure (some s, none) hs
  match_filter-Ensures absolute_range = Ensures-bind _ Ensures-remaining λ left _.
      Ensures-if (ltb left 4) (λ _. Ensures-fail _)
        λ _. Ensures-bind _ subscribe_pair_decode-Ensures λ s hs.
          Ensures-bind _ subscribe_pair_decode-Ensures
            λ e he. Ensures-pure (some s, some e) (hs, he)

  pub range_decode-Ensures :
      (f : FilterType) → Ensures b (λ r. RangeReceived f r.0 r.1) (range_decode f)
  unfolding range_decode check_range
  range_decode-Ensures f = Ensures-bind check_range (match_filter-Ensures f) λ (s, e) h.
      Ensures-if (pair_ok s)
        (λ os.
          Ensures-if (pair_ok e) (λ oe. Ensures-pure (s, e) (received f s e h os oe))
            (λ _. Ensures-fail _))
        (λ _. Ensures-fail _)
