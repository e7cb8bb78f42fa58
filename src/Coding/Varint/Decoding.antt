-- ===== src/Coding/Varint/Decoding.antt =====
-- The steps of the decoders of varint.rs: one byte, a run of bytes, and the arms of the tag.
use linode_moq.Prelude.{
  ℕ, suc, ◌+◌, ◌*◌, ◌/◌, ◌^◌, ◌<◌, bit_and, List, [], ◌∷◌, length, All, ◌≡◌, ap, subst, arith,
}
use linode_moq.Prelude.Bits.{bit_and_mask}
use linode_moq.Prelude.BigEndian.{IsByte, be_value, to_be_bytes, tagged_bytes, top_six}
use linode_moq.Coding.Buffer.{Buf}
use linode_moq.Coding.Decoder.{pure, get_u8, copy_to_slice}
use linode_moq.Coding.Rules.Reads.{Reads-checked, Reads-get_u8, Reads-copy_to_slice}
use linode_moq.Coding.Rules.Hungry.{Hungry-checked}
use linode_moq.Coding.Rules.Parses.{Parses, Parses-pure, Parses-bind, Parses-last}
use linode_moq.Coding.Rules.Ensures.{Ensures, Ensures-take, Ensures-IsByte}
use linode_moq.Coding.Varint.{u8_decode, read_bytes, varint_rest, varint_match, varint_decode}
use linode_moq.Coding.Varint.Format.{u8_wire}

pub be_value_first : (first : ℕ) (low : List ℕ) → be_value 0 (first ∷ low) ≡ be_value first low
unfolding be_value
be_value_first first low = ap (λ (n : ℕ). be_value n low) (omega arith)

pub u8_wire_byte : (x : ℕ) → x < 256 → u8_wire x ≡ x ∷ []
unfolding u8_wire to_be_bytes
u8_wire_byte x h = ground arith

module _ {R : Type 0} ⦃b : Buf R⦄ where
  byte-Parses : (x : ℕ) → Parses b u8_decode (x ∷ []) x
  unfolding u8_decode
  byte-Parses x = record {
    reads = Reads-checked (λ _. get_u8) (omega arith) (Reads-get_u8 x);
    hungry = Hungry-checked (λ _. get_u8) (x ∷ []);
  }

  pub u8_decode-Parses : (x : ℕ) → x < 256 → Parses b u8_decode (u8_wire x) x
  u8_decode-Parses x h = rw (u8_wire_byte x h) (byte-Parses x)

  pub u8_decode-Ensures : Ensures b IsByte u8_decode
  unfolding u8_decode
  u8_decode-Ensures = Ensures-IsByte

  pub read_bytes-Parses : (bs : List ℕ) → Parses b (read_bytes (length bs)) bs bs
  unfolding read_bytes
  read_bytes-Parses bs = record {
    reads = Reads-checked (λ _. copy_to_slice (length bs)) (omega arith) (Reads-copy_to_slice bs);
    hungry = Hungry-checked (λ _. copy_to_slice (length bs)) bs;
  }

  pub read_bytes-Ensures :
      (n : ℕ) → Ensures b (λ bs. All IsByte bs × (length bs ≡ n)) (read_bytes n)
  unfolding read_bytes
  read_bytes-Ensures n = Ensures-take n

  varint_rest-Parses :
      (first k x : ℕ) (low : List ℕ)
      → length low ≡ k
      → be_value first low ≡ x
      → Parses b (varint_rest first k) low x
  unfolding varint_rest
  varint_rest-Parses first k x low l v =
      subst (λ n. Parses b (varint_rest first n) low x) l
        (rw (be_value_first, v) at
          (Parses-last (λ rest. pure (be_value 0 (first ∷ rest))) (read_bytes-Parses low)
            (Parses-pure _)))

  -- A first byte with the tag `t`, and the bytes that its arm of the match reads.
  module _ (k t x : ℕ) (ht : t < 4) (hx : x < 64 * 256 ^ k)
      (arm : (first : ℕ) → varint_match t first ≡ varint_rest {R = R} first k) where
    first_byte :
        varint_match {R = R} ((t * 64 + x / 256 ^ k) / 2 ^ 6) (bit_and (t * 64 + x / 256 ^ k) 0x3f)
        ≡ varint_rest (x / 256 ^ k) k
    first_byte =
        let six : x / 256 ^ k < 64 = top_six k t x ht hx in
        let tag : (t * 64 + x / 256 ^ k) / 2 ^ 6 ≡ t = omega arith in
        let low : bit_and (t * 64 + x / 256 ^ k) 0x3f ≡ x / 256 ^ k =
          omega (arith, bit_and_mask 6 (t * 64 + x / 256 ^ k)) in
        rw (tag, low) (arm (x / 256 ^ k))

    pub tagged-Parses : Parses b varint_decode (to_be_bytes (suc k) (t * (64 * 256 ^ k) + x)) x
    unfolding varint_decode
    tagged-Parses =
        let (low, e, l, v) = tagged_bytes k t x ht hx in
        rw e (
          Parses-bind (λ y. varint_match (y / 2 ^ 6) (bit_and y 0x3f)) (byte-Parses _)
            (rw first_byte (varint_rest-Parses (x / 256 ^ k) k x low l v)))

  -- One byte, whose tag is 0.
  pub short-Parses : (x : ℕ) → x < 64 → Parses b varint_decode (to_be_bytes 1 x) x
  unfolding varint_decode varint_match u8_wire
  short-Parses x h =
      let tag : x / 2 ^ 6 ≡ 0 = omega arith in
      let low : bit_and x 0x3f ≡ x = omega (arith, bit_and_mask 6 x) in
      rw (u8_wire_byte x (omega arith)) (
        Parses-bind (λ y. varint_match (y / 2 ^ 6) (bit_and y 0x3f)) (byte-Parses x)
          (rw (tag, low) (Parses-pure x)))
