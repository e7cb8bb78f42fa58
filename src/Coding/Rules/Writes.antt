-- ===== src/Coding/Rules/Writes.antt =====
-- Encoders that append given bytes whenever there is room for them.
use linode_moq.Prelude.{
  ℕ, ◌+◌, ◌≤◌, ◌≡◌, refl, sym, List, [], ◌++◌, length, length-append, append_assoc, append-nil,
  arith,
}
use linode_moq.Prelude.BigEndian.{to_be_bytes}
use linode_moq.Coding.Outcome.{EncodeError, ok, err}
use linode_moq.Coding.Buffer.{BufMut}
use linode_moq.Coding.Encoder.{Encoder, done, fail, ◌>>◌, put_slice, put_uint, encode_remaining}

module _ {W : Type 0} (b : BufMut W) where
  -- With room for `bs` the encoder returns, appends `bs`, and uses no other room.
  pub record Writes (e : Encoder W) (bs : List ℕ) : Type 0 where
    pub at :
        (w : W)
        → length bs ≤ b.remaining_mut w
        → (w' : W) × (e w ≡ ok w')
          × (b.written w' ≡ b.written w ++ bs)
          × (b.remaining_mut w' + length bs ≡ b.remaining_mut w)

  -- With room for `n` bytes the encoder answers the error.
  pub record Refuses (e : Encoder W) (x : EncodeError) (n : ℕ) : Type 0 where
    pub at : (w : W) → n ≤ b.remaining_mut w → e w ≡ err x

module _ {W : Type 0} ⦃b : BufMut W⦄ where
  pub Writes-done : Writes b done []
  unfolding done
  Writes-done = record { at = λ w h. (w, refl, sym (append-nil _), omega arith) }

  pub Writes-then :
      {d e : Encoder W} {bs cs : List ℕ}
      → Writes b d bs
      → Writes b e cs
      → Writes b (d >> e) (bs ++ cs)
  unfolding ◌>>◌
  Writes-then {bs = bs} {cs = cs} wd we = record {
    at = λ w h.
        let (w₁, p₁, q₁, r₁) = wd.at w (omega (arith, length-append bs cs)) in
        let (w₂, p₂, q₂, r₂) = we.at w₁ (omega (arith, length-append bs cs)) in
        (w₂, rw p₁ p₂, rw (q₂, q₁) (append_assoc _ bs cs), omega (arith, length-append bs cs));
  }

  pub Writes-put_slice : (bs : List ℕ) → Writes b (put_slice bs) bs
  unfolding put_slice
  Writes-put_slice bs = record {
    at = λ w h. let (w', p, q, r) = b.put_slice_lem w bs h in (w', rw p, q, r);
  }

  pub Writes-put_uint : (k x : ℕ) → Writes b (put_uint k x) (to_be_bytes k x)
  unfolding put_uint
  Writes-put_uint k x = record {
    at = λ w h.
        let (w', p, q, r) = b.put_slice_lem w (to_be_bytes k x) h in
        (w', rw (b.put_uint_lem k x w, p), q, r);
  }

  -- A test for room before a write that fits.
  pub Writes-checked :
      {n : ℕ} {e : Encoder W} {bs : List ℕ}
      → n ≤ length bs
      → Writes b e bs
      → Writes b (encode_remaining n >> e) bs
  unfolding ◌>>◌ encode_remaining
  Writes-checked {n = n} k we = record {
    at = λ w h. let (w', p, q, r) = we.at w h in (w', ground arith, q, r);
  }

module _ {W : Type 0} ⦃b : BufMut W⦄ where
  pub Refuses-fail : (x : EncodeError) → Refuses b (fail x) x 0
  unfolding fail
  Refuses-fail x = record { at = λ w _. refl }

  pub Refuses-then :
      {d e : Encoder W} {bs : List ℕ} {x : EncodeError} {n : ℕ}
      → Writes b d bs
      → Refuses b e x n
      → Refuses b (d >> e) x (length bs + n)
  unfolding ◌>>◌
  Refuses-then wd re = record {
    at = λ w h. let (w₁, p, _, r) = wd.at w (omega arith) in rw p (re.at w₁ (omega arith));
  }

  pub Refuses-first :
      {d : Encoder W} (e : Encoder W) {x : EncodeError} {n : ℕ}
      → Refuses b d x n
      → Refuses b (d >> e) x n
  unfolding ◌>>◌
  Refuses-first e rd = record { at = λ w h. rw (rd.at w h) }
