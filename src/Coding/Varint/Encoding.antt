-- ===== src/Coding/Varint/Encoding.antt =====
-- The integer encoders of varint.rs against the wire format, and the values that they refuse.
use linode_moq.Prelude.{
  true, ℕ, ◌+◌, ◌<◌, ◌⊎◌, ◌++◌, refl, ◌*◌, ◌%◌, ◌^◌, ◌-◌, ◌≤◌, ltb, leb, Bool-cases, ltb→lt, inl,
  inr, ◌≡◌, arith,
}
use linode_moq.Prelude.Bits.{bit_or_fields}
use linode_moq.Prelude.BigEndian.{IsByte, to_be_bytes, length-to_be_bytes}
use linode_moq.Coding.Outcome.{EncodeError, ok, err}
use linode_moq.Coding.Buffer.{BufMut}
use linode_moq.Coding.Encoder.{◌>>◌, put_uint, encode_remaining, fail}
use linode_moq.Coding.Rules.Writes.{Writes, Writes-checked, Writes-put_uint}
use linode_moq.Coding.Varint.{varint_encode, u64_encode, u8_encode, try_from, max_varint}
use linode_moq.Coding.Varint.Format.{IsVarint, varint_wire, u8_wire, length-varint_wire_le}

module _ {W : Type 0} ⦃b : BufMut W⦄ where
  pub u8_encode-Writes : (x : ℕ) → IsByte x → Writes b (u8_encode x) (u8_wire x)
  unfolding u8_encode u8_wire
  u8_encode-Writes x h = Writes-put_uint 1 x

  checked : (k x y : ℕ) → x ≡ y → Writes b (encode_remaining k >> put_uint k x) (to_be_bytes k y)
  checked k x y e =
      rw e (Writes-checked (omega (arith, length-to_be_bytes k y)) (Writes-put_uint k y))

  varint_encode-Writes : (x : ℕ) → IsVarint x → Writes b (varint_encode x) (varint_wire x)
  unfolding varint_encode varint_wire
  varint_encode-Writes x h = elim (Bool-cases (ltb x (2 ^ 6))) [
    | inl one ↦ let lt = ltb→lt x _ one in rw one (checked 1 _ x (omega arith))
    | inr not_one ↦ rw not_one (elim (Bool-cases (ltb x (2 ^ 14))) [
      | inl two ↦
          let lt = ltb→lt x _ two in
          rw two (
            checked 2 _ (2 ^ 14 + x) (omega (arith, bit_or_fields 14 1 (x % 2 ^ 16) (omega arith))))
      | inr not_two ↦ rw not_two (elim (Bool-cases (ltb x (2 ^ 30))) [
        | inl four ↦
            let lt = ltb→lt x _ four in
            rw four (
              checked 4 _ (2 * 2 ^ 30 + x)
                (omega (arith, bit_or_fields 30 2 (x % 2 ^ 32) (omega arith))))
        | inr not_four ↦ rw not_four (
            let in_range : ltb x (2 ^ 62) ≡ true = ground arith in
            rw in_range (checked 8 _ (3 * 2 ^ 62 + x) (omega (arith, bit_or_fields 62 3 x h))))
      ])
    ])
  ]

  pub u64_encode-Writes : (x : ℕ) → IsVarint x → Writes b (u64_encode x) (varint_wire x)
  unfolding u64_encode
  u64_encode-Writes x h =
      let in_range : leb x (2 ^ 62 - 1) ≡ true = ground arith in
      rw in_range (varint_encode-Writes x h)

  -- Where there is room for 8 bytes: `VarInt::try_from` takes a number below 2^62, and the encoder then
  -- appends its wire form; it refuses a greater one, and the encoder then answers `BoundsExceeded`.
  pub u64_encode_bounds :
      (x : ℕ) (w : W)
      → 8 ≤ b.remaining_mut w
      → ((x < 2 ^ 62)
          × (try_from x ≡ ok x)
          × ((w' : W) × (u64_encode x w ≡ ok w') × (b.written w' ≡ b.written w ++ varint_wire x)))
        ⊎ ((2 ^ 62 ≤ x)
            × (try_from x ≡ err EncodeError.bounds_exceeded)
            × (u64_encode x w ≡ err EncodeError.bounds_exceeded))
  unfolding u64_encode fail try_from max_varint
  u64_encode_bounds x w room = elim (Bool-cases (leb x (2 ^ 62 - 1))) [
    | inl fits ↦
        let small : x < 2 ^ 62 = ground arith in
        let (w', p, q, _) =
          (u64_encode-Writes x small).at w (omega (arith, room, length-varint_wire_le x)) in
        inl (small, rw (try_from, fits) refl, (w', p, q))
    | inr large ↦ let big : 2 ^ 62 ≤ x = ground arith in inr (big, ground arith, ground arith)
  ]
