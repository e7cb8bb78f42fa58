-- ===== src/Coding/Rules/Hungry.antt =====
-- Decoders that ask for more of an input that was cut short, and never for more than is missing.
use linode_moq.Prelude.{
  ℕ, suc, ◌+◌, ◌≤◌, ◌≡◌, ap, inl, inr, List, [], ◌∷◌, ◌++◌, length, length-append, split_cases,
  arith,
}
use linode_moq.Coding.Outcome.{DecodeError, err}
use linode_moq.Coding.Buffer.{Buf}
use linode_moq.Coding.Decoder.{Decoder, ◌>>=◌, decode_remaining}
use linode_moq.Coding.Rules.Reads.{Reads}

append-cons-ne-nil {ℓ} : {A : Type ℓ} (xs : List A) (x : A) (ys : List A) → [] ≡ xs ++ (x ∷ ys) → ⊥
append-cons-ne-nil [] x ys e = cc
append-cons-ne-nil (y ∷ xs) x ys e = cc

module _ {R : Type 0} (b : Buf R) where
  -- Where the buffer holds a proper front of `bs`, the decoder answers `More(n)`, with `n` at
  -- least 1 and at most the number of bytes that are missing.
  pub record Hungry {A : Type 0} (d : Decoder R A) (bs : List ℕ) : Type 0 where
    pub at :
        (r : R) (x : ℕ) (back : List ℕ)
        → bs ≡ b.contents r ++ (x ∷ back)
        → (n : ℕ) × (d r ≡ err (DecodeError.more (suc n))) × (n ≤ length back)

module _ {R : Type 0} ⦃b : Buf R⦄ where
  module _ {A : Type 0} where
    pub Hungry-nil : (d : Decoder R A) → Hungry b d []
    Hungry-nil d = record { at = λ r x back e. absurd (append-cons-ne-nil (b.contents r) x back e) }

  module _ {A B : Type 0} where
    pub Hungry-bind :
        {d : Decoder R A} (f : A → Decoder R B) {bs cs : List ℕ} {a : A}
        → Reads b d bs a
        → Hungry b d bs
        → Hungry b (f a) cs
        → Hungry b (d >>= f) (bs ++ cs)
    unfolding ◌>>=◌
    Hungry-bind f {bs} {cs} rd hd hf = record {
      at = λ r x back e. elim (split_cases bs cs (b.contents r) back x e) [
        | inl (short, p, q) ↦
            let (n, s, t) = hd.at r x short p in
            (n, rw s, rw q (omega (arith, length-append short cs)))
        | inr (rest, p, q) ↦
            let (r₁, s, t) = rd.at r rest p in
            let (n, u, v) = hf.at r₁ x back (rw t q) in (n, rw s u, v)
      ];
    }

  module _ {B : Type 0} where
    -- The test for the whole of what is to be read next.
    pub Hungry-checked :
        (f : Unit {0} → Decoder R B) (bs : List ℕ)
        → Hungry b (decode_remaining (length bs) >>= f) bs
    unfolding ◌>>=◌ decode_remaining
    Hungry-checked f bs = record {
      at = λ r x back e.
          let size : length bs ≡ b.remaining r + suc (length back) =
            omega
              (arith, b.remaining_lem r, ap length e, length-append (b.contents r) (x ∷ back)) in
          (length back, ground arith, omega arith);
    }
