-- ===== src/Coding/Text.antt =====
-- moq-transport/src/coding/string.rs. A `String` is the list of its bytes, which are UTF-8.
use linode_moq.Prelude.{
  ℕ, List, [], ◌∷◌, Bool, true, false, ◌&&◌, ltb, leb, ◌==◌, if◌then◌else◌, ◌≡◌, Option, none, some,
}
use linode_moq.Coding.Outcome.{DecodeError}
use linode_moq.Coding.Buffer.{Buf, BufMut}
use linode_moq.Coding.Decoder.{Decoder, pure, fail, ◌>>=◌}
use linode_moq.Coding.Encoder.{Encoder}
use linode_moq.Coding.Codec.{IsCodec}
use linode_moq.Coding.Rules.Writes.{Writes}
use linode_moq.Coding.Rules.Parses.{Parses, Parses-last, Parses-pure}
use linode_moq.Coding.Rules.Ensures.{Ensures, Ensures-bind, Ensures-if, Ensures-pure, Ensures-fail}
use linode_moq.Coding.Prefixed.{
  IsSized, prefixed_wire, prefixed_encode, prefixed_decode, prefixed_encode-Writes,
  prefixed_decode-Parses, prefixed_decode-Ensures,
}

-- The standard library's UTF-8 test, by what the next byte may be: the start of a character, a
-- last, last but one or last but two continuation byte, or the second byte behind 0xE0, 0xED, 0xF0
-- or 0xF4.
pub data Expect : Type 0 where
  start last two three after_e0 after_ed after_f0 after_f4 : Expect

abbrev between : ℕ → ℕ → ℕ → Bool
between lo hi x = leb lo x && leb x hi

next : Expect → ℕ → Option Expect
next start x =
    if ltb x 0x80
    then some start
    else if between 0xc2 0xdf x
    then some last
    else if x == 0xe0
    then some after_e0
    else if x == 0xed
    then some after_ed
    else if between 0xe1 0xef x
    then some two
    else if x == 0xf0
    then some after_f0
    else if between 0xf1 0xf3 x
    then some three
    else if x == 0xf4
    then some after_f4
    else none
next last x = if between 0x80 0xbf x then some start else none
next two x = if between 0x80 0xbf x then some last else none
next three x = if between 0x80 0xbf x then some two else none
next after_e0 x = if between 0xa0 0xbf x then some last else none
next after_ed x = if between 0x80 0x9f x then some last else none
next after_f0 x = if between 0x90 0xbf x then some two else none
next after_f4 x = if between 0x80 0x8f x then some two else none

utf8_from : Expect → List ℕ → Bool
utf8_from start [] = true
utf8_from _ [] = false
utf8_from s (x ∷ xs) = elim (next s x) [ none ↦ false | some s' ↦ utf8_from s' xs ]

-- `String::from_utf8(buf).is_ok()`
unfoldable pub from_utf8 : List ℕ → Bool
unfolding utf8_from next
from_utf8 bs = utf8_from start bs

-- A Rust `String` whose length can be sent.
pub record IsText (s : List ℕ) : Type 0 where
  pub sized : IsSized s
  pub utf8 : from_utf8 s ≡ true

unfoldable pub string_wire : List ℕ → List ℕ
string_wire s = prefixed_wire s

module _ {W : Type 0} ⦃c : BufMut W⦄ where
  unfoldable pub string_encode : List ℕ → Encoder W
  string_encode s = prefixed_encode s

module _ {R : Type 0} ⦃b : Buf R⦄ where
  -- `String::from_utf8(buf)?`
  tested : List ℕ → Decoder R (List ℕ)
  tested buf = if from_utf8 buf then pure buf else fail DecodeError.invalid_string

  unfoldable pub string_decode : Decoder R (List ℕ)
  unfolding tested
  string_decode = do buf ← prefixed_decode; tested buf

module _ {W : Type 0} ⦃c : BufMut W⦄ where
  pub string_encode-Writes : (s : List ℕ) → IsText s → Writes c (string_encode s) (string_wire s)
  unfolding string_wire string_encode
  string_encode-Writes s h = prefixed_encode-Writes s h.sized

module _ {R : Type 0} ⦃b : Buf R⦄ where
  pub string_decode-Parses : (s : List ℕ) → IsText s → Parses b string_decode (string_wire s) s
  unfolding string_wire string_decode
  string_decode-Parses s h =
      Parses-last tested (prefixed_decode-Parses s h.sized)
        (unfold tested in rw h.utf8 (Parses-pure s))

  pub string_decode-Ensures : Ensures b IsText string_decode
  unfolding string_decode
  string_decode-Ensures = Ensures-bind _ prefixed_decode-Ensures λ buf h.
      Ensures-if (from_utf8 buf) (λ e. Ensures-pure buf (record { sized = h; utf8 = e }))
        (λ _. Ensures-fail _)

module _ {R W : Type 0} ⦃b : Buf R⦄ ⦃c : BufMut W⦄ where
  pub string-IsCodec : IsCodec b c IsText string_wire string_encode string_decode
  string-IsCodec = record {
    writes = string_encode-Writes;
    parses = string_decode-Parses;
    ensures = string_decode-Ensures;
  }
