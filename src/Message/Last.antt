-- ===== src/Message/Last.antt =====
-- The last group and object in moq-transport/src/message/subscribe_ok.rs and subscribe_done.rs:
-- a byte that says whether there is one, and the pair.
use linode_moq.Prelude.{
  ℕ, ◌≤◌, List, [], ◌++◌, length, ◌==◌, if◌then◌else◌, Option, none, some, arith,
}
use linode_moq.Prelude.BigEndian.{to_be_bytes}
use linode_moq.Coding.Outcome.{DecodeError}
use linode_moq.Coding.Buffer.{Buf, BufMut}
use linode_moq.Coding.Decoder.{Decoder, pure, fail, ◌>>=◌}
use linode_moq.Coding.Encoder.{Encoder, done, ◌>>◌, put_uint, encode_remaining}
use linode_moq.Coding.Rules.Writes.{
  Writes, Writes-then, Writes-done, Writes-checked, Writes-put_uint,
}
use linode_moq.Coding.Rules.Parses.{Parses, Parses-bind, Parses-pure}
use linode_moq.Coding.Rules.Ensures.{Ensures, Ensures-bind, Ensures-pure, Ensures-fail, Ensures-if}
use linode_moq.Coding.Varint.{u8_decode, u64_encode, u64_decode}
use linode_moq.Coding.Varint.Format.{IsVarint, varint_wire, u8_wire}
use linode_moq.Coding.Varint.Encoding.{u64_encode-Writes}
use linode_moq.Coding.Varint.Decoding.{u8_decode-Parses, u8_decode-Ensures}
use linode_moq.Coding.Varint.Integers.{u64_decode-Parses, u64_decode-Ensures}

abbrev pub LastFits : Option (ℕ × ℕ) → Type 0
LastFits none = Unit
LastFits (some (group, object)) = IsVarint group × IsVarint object

unfoldable pub last_wire : Option (ℕ × ℕ) → List ℕ
last_wire none = u8_wire 0 ++ []
last_wire (some (group, object)) = u8_wire 1 ++ (varint_wire group ++ (varint_wire object ++ []))

module _ {W : Type 0} ⦃c : BufMut W⦄ where
  put_last : Option (ℕ × ℕ) → Encoder W
  put_last none = do put_uint 1 0; done
  put_last (some (group, object)) = do put_uint 1 1; u64_encode group; u64_encode object; done

  unfoldable pub last_encode : Option (ℕ × ℕ) → Encoder W
  unfolding put_last
  last_encode last = do encode_remaining 1; put_last last

module _ {R : Type 0} ⦃b : Buf R⦄ where
  -- The match on the byte, which `u8::decode` reads as the code does: `decode_remaining(r, 1)?` and
  -- `get_u8()`.
  last_of : ℕ → Decoder R (Option (ℕ × ℕ))
  last_of flag =
      if flag == 0
      then pure none
      else if flag == 1
      then (do group ← u64_decode; object ← u64_decode; pure (some (group, object)))
      else fail DecodeError.invalid_value

  unfoldable pub last_decode : Decoder R (Option (ℕ × ℕ))
  unfolding last_of
  last_decode = do flag ← u8_decode; last_of flag

last_wire_nonempty : (last : Option (ℕ × ℕ)) → 1 ≤ length (last_wire last)
unfolding last_wire u8_wire to_be_bytes
last_wire_nonempty none = omega arith
last_wire_nonempty (some (group, object)) = omega arith

module _ {W : Type 0} ⦃c : BufMut W⦄ where
  put_last-Writes :
      (last : Option (ℕ × ℕ)) → LastFits last → Writes c (put_last last) (last_wire last)
  unfolding put_last last_wire u8_wire
  put_last-Writes none h = Writes-then (Writes-put_uint 1 0) Writes-done
  put_last-Writes (some (group, object)) (hg, ho) = Writes-then (Writes-put_uint 1 1) (
      Writes-then (u64_encode-Writes group hg)
        (Writes-then (u64_encode-Writes object ho) Writes-done))

module _ {R : Type 0} ⦃b : Buf R⦄ where
  pub last_decode-Parses :
      (last : Option (ℕ × ℕ)) → LastFits last → Parses b last_decode (last_wire last) last
  unfolding last_decode last_wire
  last_decode-Parses none h =
      Parses-bind last_of (u8_decode-Parses 0 (omega arith)) (Parses-pure none)
  last_decode-Parses (some (group, object)) (hg, ho) =
      Parses-bind last_of (u8_decode-Parses 1 (omega arith)) (
        Parses-bind _ (u64_decode-Parses group hg)
          (Parses-bind _ (u64_decode-Parses object ho) (Parses-pure (some (group, object)))))

  last_of-Ensures : (flag : ℕ) → Ensures b LastFits (last_of flag)
  unfolding last_of
  last_of-Ensures flag =
      Ensures-if (flag == 0) (λ _. Ensures-pure none tt)
        λ _.
          Ensures-if (flag == 1)
            (λ _.
              Ensures-bind _ u64_decode-Ensures
                λ group hg. Ensures-bind _ u64_decode-Ensures λ object ho. Ensures-pure _ (hg, ho))
            (λ _. Ensures-fail _)

module _ {W : Type 0} ⦃c : BufMut W⦄ where
  pub last_encode-Writes :
      (last : Option (ℕ × ℕ)) → LastFits last → Writes c (last_encode last) (last_wire last)
  unfolding last_encode
  last_encode-Writes last h = Writes-checked (last_wire_nonempty last) (put_last-Writes last h)

module _ {R : Type 0} ⦃b : Buf R⦄ where
  pub last_decode-Ensures : Ensures b LastFits last_decode
  unfolding last_decode
  last_decode-Ensures = Ensures-bind last_of u8_decode-Ensures λ flag _. last_of-Ensures flag
