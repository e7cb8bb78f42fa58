-- ===== src/Coding/Varint/Integers.antt =====
-- `u64::decode` on the wire format, on a part of it, and on any bytes.
use linode_moq.Prelude.{
  ℕ, ◌*◌, ◌/◌, ◌^◌, ◌<◌, ◌≤◌, bit_and, ltb, ◌==◌, Bool-cases, ltb→lt, inl, inr, refl, arith,
}
use linode_moq.Prelude.Bits.{bit_and_mask}
use linode_moq.Prelude.BigEndian.{be_value-lt}
use linode_moq.Coding.Buffer.{Buf}
use linode_moq.Coding.Decoder.{pure}
use linode_moq.Coding.Rules.Parses.{Parses, Parses-pure, Parses-last}
use linode_moq.Coding.Rules.Ensures.{Ensures, Ensures-pure, Ensures-bind, Ensures-if}
use linode_moq.Coding.Varint.{varint_rest, varint_match, varint_decode, u64_decode}
use linode_moq.Coding.Varint.Format.{IsVarint, varint_wire}
use linode_moq.Coding.Varint.Decoding.{
  short-Parses, tagged-Parses, u8_decode-Ensures, read_bytes-Ensures, be_value_first,
}

module _ {R : Type 0} ⦃b : Buf R⦄ where
  varint_decode-Parses : (x : ℕ) → IsVarint x → Parses b varint_decode (varint_wire x) x
  unfolding varint_wire varint_match
  varint_decode-Parses x h = elim (Bool-cases (ltb x (2 ^ 6))) [
    | inl one ↦ rw one (short-Parses x (ltb→lt x _ one))
    | inr not_one ↦ rw not_one (elim (Bool-cases (ltb x (2 ^ 14))) [
      | inl two ↦ rw two (tagged-Parses 1 1 x (omega arith) (ltb→lt x _ two) (λ _. refl))
      | inr not_two ↦ rw not_two (elim (Bool-cases (ltb x (2 ^ 30))) [
        | inl four ↦ rw four (tagged-Parses 3 2 x (omega arith) (ltb→lt x _ four) (λ _. refl))
        | inr not_four ↦ rw not_four (tagged-Parses 7 3 x (omega arith) h (λ _. refl))
      ])
    ])
  ]

  pub u64_decode-Parses : (x : ℕ) → IsVarint x → Parses b u64_decode (varint_wire x) x
  unfolding u64_decode
  u64_decode-Parses x h = Parses-last (λ v. pure v) (varint_decode-Parses x h) (Parses-pure x)

  varint_rest-Ensures :
      (first k : ℕ) → first < 64 → 64 * 256 ^ k ≤ 2 ^ 62 → Ensures b IsVarint (varint_rest first k)
  unfolding varint_rest
  varint_rest-Ensures first k h hk = Ensures-bind _ (read_bytes-Ensures k) λ rest (bytes, size).
      Ensures-pure _
        (rw be_value_first (omega (arith, hk, rw size at (be_value-lt first 64 rest h bytes))))

  varint_match-Ensures :
      (tag first : ℕ) → tag < 4 → first < 64 → Ensures b IsVarint (varint_match tag first)
  unfolding varint_match
  varint_match-Ensures tag first ht hf =
      Ensures-if (tag == 0) (λ _. Ensures-pure first (omega arith))
        λ n0.
          Ensures-if (tag == 1) (λ _. varint_rest-Ensures first 1 hf (omega arith))
            λ n1.
              Ensures-if (tag == 2) (λ _. varint_rest-Ensures first 3 hf (omega arith))
                λ n2.
                  Ensures-if (tag == 3) (λ _. varint_rest-Ensures first 7 hf (omega arith))
                    λ n3. absurd (ground arith)

  pub u64_decode-Ensures : Ensures b IsVarint u64_decode
  unfolding u64_decode varint_decode
  u64_decode-Ensures =
      Ensures-bind _
        (Ensures-bind _ u8_decode-Ensures λ y hy.
          varint_match-Ensures (y / 2 ^ 6) (bit_and y 0x3f) (omega arith)
            (omega (arith, bit_and_mask 6 y)))
        λ v hv. Ensures-pure v hv
