-- ===== src/Coding/Varint/Format.antt =====
-- The wire format of integers, independently of the code.
use linode_moq.Prelude.{ℕ, ◌≤◌, length, arith, ◌+◌, ◌*◌, ◌^◌, ◌<◌, List, ltb, if◌then◌else◌}
use linode_moq.Prelude.BigEndian.{to_be_bytes}

-- What fits 62 bits can be sent.
abbrev pub IsVarint : ℕ → Type 0
IsVarint x = x < 2 ^ 62

-- The two highest bits hold the logarithm of the length.
unfoldable pub varint_wire : ℕ → List ℕ
varint_wire x =
    if ltb x (2 ^ 6)
    then to_be_bytes 1 x
    else if ltb x (2 ^ 14)
    then to_be_bytes 2 (2 ^ 14 + x)
    else if ltb x (2 ^ 30)
    then to_be_bytes 4 (2 * 2 ^ 30 + x)
    else to_be_bytes 8 (3 * 2 ^ 62 + x)

unfoldable pub u8_wire : ℕ → List ℕ
u8_wire x = to_be_bytes 1 x

pub length-varint_wire : (x : ℕ) → 1 ≤ length (varint_wire x)
unfolding varint_wire to_be_bytes
length-varint_wire x = ground arith

pub length-varint_wire_le : (x : ℕ) → length (varint_wire x) ≤ 8
unfolding varint_wire to_be_bytes
length-varint_wire_le x = ground arith
