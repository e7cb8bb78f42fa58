-- ===== src/Coding/Buffer.antt =====
-- The traits `bytes::Buf` and `bytes::BufMut`, which the codecs are generic in, by the operations
-- that are used and the behaviour that the crate documents. `none` is a panic.
use linode_moq.Prelude.{ℕ, ◌+◌, ◌-◌, ◌^◌, [], ◌≤◌, ◌≡◌, Option, some, List, ◌∷◌, ◌++◌, length, All}
use linode_moq.Prelude.BigEndian.{IsByte, to_be_bytes}

pub record Buf (R : Type 0) : Type 0 where
  -- The bytes between the current position and the end.
  pub contents : R → List ℕ
  pub remaining : R → ℕ
  pub get_u8 : R → Option (ℕ × R)
  pub copy_to_slice : ℕ → R → Option (List ℕ × R)
  pub remaining_lem : (r : R) → remaining r ≡ length (contents r)
  pub contents-IsByte : (r : R) → All IsByte (contents r)
  pub get_u8_lem :
      (r : R) {b : ℕ} {bs : List ℕ}
      → contents r ≡ b ∷ bs
      → (r' : R) × (get_u8 r ≡ some (b, r')) × (contents r' ≡ bs)
  pub copy_to_slice_lem :
      (r : R) (bs cs : List ℕ)
      → contents r ≡ bs ++ cs
      → (r' : R) × (copy_to_slice (length bs) r ≡ some (bs, r')) × (contents r' ≡ cs)

pub record BufMut (W : Type 0) : Type 0 where
  -- The bytes before the current position.
  pub written : W → List ℕ
  pub remaining_mut : W → ℕ
  pub put_slice : List ℕ → W → Option W
  -- `put_u8`, `put_u16`, `put_u32` and `put_u64`, by the number of bytes.
  pub put_uint : ℕ → ℕ → W → Option W
  pub put_slice_lem :
      (w : W) (bs : List ℕ)
      → length bs ≤ remaining_mut w
      → (w' : W) × (put_slice bs w ≡ some w')
        × (written w' ≡ written w ++ bs)
        × (remaining_mut w' + length bs ≡ remaining_mut w)
  pub put_uint_lem : (k x : ℕ) (w : W) → put_uint k x w ≡ put_slice (to_be_bytes k x) w

-- `Vec<u8>` as a buffer to write to: `Vec::new()`, and the bytes of a vector.
pub record VecBuf (V : Type 0) : Type 0 where
  pub buf_mut : BufMut V
  pub new : V
  pub written_new : buf_mut.written new ≡ []
  -- `isize::MAX` less the length
  pub room_new : buf_mut.remaining_mut new ≡ 2 ^ 63 - 1

-- `std::io::Cursor<Vec<u8>>` and `bytes::Bytes` as buffers to read from.
pub record CursorBuf (C : Type 0) : Type 0 where
  pub buf : Buf C
  pub new : List ℕ → C
  pub contents_new : (bytes : List ℕ) → All IsByte bytes → buf.contents (new bytes) ≡ bytes
