-- ===== src/Coding/Rules/Reads.antt =====
-- Decoders that read a value off the front of the buffer and leave what follows.
use linode_moq.Prelude.{
  ℕ, append-nil, subst, ◌≤◌, ◌≡◌, refl, ap, List, [], ◌∷◌, ◌++◌, length, length-append,
  append_assoc, arith,
}
use linode_moq.Coding.Outcome.{ok}
use linode_moq.Coding.Buffer.{Buf}
use linode_moq.Coding.Decoder.{
  Decoder, pure, ◌>>=◌, get_u8, copy_to_slice, decode_remaining, remaining,
}

module _ {R : Type 0} (b : Buf R) where
  -- Where the buffer begins with `bs`, whatever follows, the decoder returns `a` and stands
  -- behind `bs`.
  pub record Reads {A : Type 0} (d : Decoder R A) (bs : List ℕ) (a : A) : Type 0 where
    pub at :
        (r : R) (rest : List ℕ)
        → b.contents r ≡ bs ++ rest
        → (r' : R) × (d r ≡ ok (a, r')) × (b.contents r' ≡ rest)

module _ {R : Type 0} ⦃b : Buf R⦄ where
  module _ {A : Type 0} where
    pub Reads-pure : (a : A) → Reads b (pure a) [] a
    unfolding pure
    Reads-pure a = record { at = λ r rest e. (r, refl, e) }

  module _ {A B : Type 0} where
    pub Reads-bind :
        {d : Decoder R A} (f : A → Decoder R B) {bs cs : List ℕ} {a : A} {x : B}
        → Reads b d bs a
        → Reads b (f a) cs x
        → Reads b (d >>= f) (bs ++ cs) x
    unfolding ◌>>=◌
    Reads-bind f {bs} {cs} rd rf = record {
      at = λ r rest e.
          let (r₁, p₁, q₁) = rd.at r (cs ++ rest) (rw e (append_assoc bs cs rest)) in
          let (r₂, p₂, q₂) = rf.at r₁ rest q₁ in (r₂, rw p₁ p₂, q₂);
    }

  module _ {B : Type 0} where
    -- A test that the bytes to be read next are there.
    pub Reads-checked :
        {n : ℕ} (f : Unit {0} → Decoder R B) {bs : List ℕ} {x : B}
        → n ≤ length bs
        → Reads b (f tt) bs x
        → Reads b (decode_remaining n >>= f) bs x
    unfolding ◌>>=◌ decode_remaining
    Reads-checked {n} f {bs} k rf = record {
      at = λ r rest e.
          let (r', p, q) = rf.at r rest e in
          let room : n ≤ b.remaining r =
            omega (arith, b.remaining_lem r, ap length e, length-append bs rest) in
          (r', ground arith, q);
    }

  pub Reads-get_u8 : (x : ℕ) → Reads b get_u8 (x ∷ []) x
  unfolding get_u8
  Reads-get_u8 x = record { at = λ r rest e. let (r', p, q) = b.get_u8_lem r e in (r', rw p, q) }

  pub Reads-copy_to_slice : (bs : List ℕ) → Reads b (copy_to_slice (length bs)) bs bs
  unfolding copy_to_slice
  Reads-copy_to_slice bs = record {
    at = λ r rest e. let (r', p, q) = b.copy_to_slice_lem r bs rest e in (r', rw p, q);
  }

  -- A look at the number of bytes left, by code that goes on alike from some number on.
  pub Reads-remaining :
      {B : Type 0} (f : ℕ → Decoder R B) (d : Decoder R B) (n : ℕ) {bs : List ℕ} {x : B}
      → n ≤ length bs
      → ((k : ℕ) → n ≤ k → f k ≡ d)
      → Reads b d bs x
      → Reads b (remaining >>= f) bs x
  unfolding ◌>>=◌ remaining
  Reads-remaining f d n {bs} room same rd = record {
    at = λ r rest e.
        let enough : n ≤ b.remaining r =
          omega (arith, b.remaining_lem r, ap length e, length-append bs rest) in
        rw (same (b.remaining r) enough) (rd.at r rest e);
  }

  -- A last step that reads nothing.
  pub Reads-last :
      {A B : Type 0} {d : Decoder R A} (f : A → Decoder R B) {bs : List ℕ} {a : A} {x : B}
      → Reads b d bs a
      → Reads b (f a) [] x
      → Reads b (d >>= f) bs x
  Reads-last {d = d} f {bs} {x = x} rd rf =
      subst (λ cs. Reads b (d >>= f) cs x) (append-nil bs) (Reads-bind f rd rf)
