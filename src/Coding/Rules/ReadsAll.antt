-- ===== src/Coding/Rules/ReadsAll.antt =====
-- Decoders that read a buffer to its end, as a datagram's does.
use linode_moq.Prelude.{
  ℕ, ◌≡◌, ◌∙◌, refl, ap, List, [], ◌++◌, append-nil, length, true, false, inl, inr, ◌==◌,
  Bool-cases, if◌then◌else◌, All, arith,
}
use linode_moq.Prelude.BigEndian.{IsByte}
use linode_moq.Coding.Outcome.{DecodeError, ok, err}
use linode_moq.Coding.Buffer.{Buf}
use linode_moq.Coding.Decoder.{Decoder, pure, fail, ◌>>=◌, remaining, copy_to_slice}
use linode_moq.Coding.Rules.Reads.{Reads}
use linode_moq.Coding.Rules.Ensures.{Ensures, took, failed}

module _ {R : Type 0} (b : Buf R) where
  -- Where the buffer holds `bs` and no more, the decoder returns `a` and leaves nothing.
  pub record ReadsAll {A : Type 0} (d : Decoder R A) (bs : List ℕ) (a : A) : Type 0 where
    pub at : (r : R) → b.contents r ≡ bs → (r' : R) × (d r ≡ ok (a, r')) × (b.contents r' ≡ [])

module _ {R : Type 0} ⦃b : Buf R⦄ where
  module _ {A B : Type 0} where
    pub ReadsAll-bind :
        {d : Decoder R A} (f : A → Decoder R B) {bs cs : List ℕ} {a : A} {x : B}
        → Reads b d bs a
        → ReadsAll b (f a) cs x
        → ReadsAll b (d >>= f) (bs ++ cs) x
    unfolding ◌>>=◌
    ReadsAll-bind f {bs} {cs} rd rf = record {
      at = λ r e.
          let (r₁, p₁, q₁) = rd.at r cs e in let (r₂, p₂, q₂) = rf.at r₁ q₁ in (r₂, rw p₁ p₂, q₂);
    }

    -- A last step that reads nothing.
    pub ReadsAll-last :
        {d : Decoder R A} (f : A → B) {bs : List ℕ} {a : A}
        → ReadsAll b d bs a
        → ReadsAll b (d >>= λ x. pure (f x)) bs (f a)
    unfolding ◌>>=◌ pure
    ReadsAll-last f rd = record { at = λ r e. let (r', p, q) = rd.at r e in (r', rw p refl, q) }

  -- All that is left, which has to be of a given length.
  unfoldable pub take_rest : ℕ → Decoder R (List ℕ)
  take_rest size = do
    rest ← remaining
    if size == rest then copy_to_slice rest else fail (DecodeError.invalid_length size rest)

  pub ReadsAll-take_rest : (bs : List ℕ) → ReadsAll b (take_rest (length bs)) bs bs
  unfolding take_rest ◌>>=◌ remaining copy_to_slice
  ReadsAll-take_rest bs = record {
    at = λ r e.
        let (r', p, q) = b.copy_to_slice_lem r bs [] (rw append-nil e) in
        let left : b.remaining r ≡ length bs = b.remaining_lem r ∙ ap length e in
        let all_there : (length bs == length bs) ≡ true = ground arith in
        (r', rw (left, all_there, p) refl, q);
  }

  pub Ensures-take_rest : (n : ℕ) → Ensures b (λ bs. All IsByte bs × (n ≡ length bs)) (take_rest n)
  unfolding take_rest ◌>>=◌ remaining copy_to_slice fail
  Ensures-take_rest n = record {
    at = λ r. elim (Bool-cases (n == b.remaining r)) [
      | inl whole ↦
          let (r', p, q) = b.copy_to_slice_lem r (b.contents r) [] (rw append-nil refl) in
          let same : n ≡ b.remaining r = ground arith in
          rw (whole, b.remaining_lem r, p)
            (took (b.contents r) (rw (q, append-nil) refl)
              (b.contents-IsByte r, same ∙ b.remaining_lem r))
      | inr other ↦ rw other failed
    ];
  }

  pub take_rest_mismatch :
      (n : ℕ) (r : R)
      → (n == length (b.contents r)) ≡ false
      → take_rest n r ≡ err (DecodeError.invalid_length n (length (b.contents r)))
  unfolding take_rest ◌>>=◌ remaining fail
  take_rest_mismatch n r h = rw (b.remaining_lem r, h) refl
