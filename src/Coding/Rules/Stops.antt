-- ===== src/Coding/Rules/Stops.antt =====
-- Decoders that answer an error on a given buffer.
use linode_moq.Prelude.{ℕ, ◌≡◌, refl, List, ◌++◌}
use linode_moq.Coding.Outcome.{DecodeError, err}
use linode_moq.Coding.Buffer.{Buf}
use linode_moq.Coding.Decoder.{Decoder, ◌>>=◌}
use linode_moq.Coding.Rules.Reads.{Reads}

module _ {R : Type 0} (b : Buf R) where
  -- Where the buffer holds `bs` and no more, the decoder answers `e`.
  pub record Stops {A : Type 0} (d : Decoder R A) (bs : List ℕ) (e : DecodeError) : Type 0 where
    pub at : (r : R) → b.contents r ≡ bs → d r ≡ err e

module _ {R A B : Type 0} ⦃b : Buf R⦄ where
  pub Stops-bind :
      {d : Decoder R A} (f : A → Decoder R B) {bs cs : List ℕ} {a : A} {e : DecodeError}
      → Reads b d bs a
      → Stops b (f a) cs e
      → Stops b (d >>= f) (bs ++ cs) e
  unfolding ◌>>=◌
  Stops-bind f {bs} {cs} rd sf = record {
    at = λ r p. let (r₁, q, s) = rd.at r cs p in rw q (sf.at r₁ s);
  }

  pub Stops-first :
      {d : Decoder R A} (f : A → Decoder R B) {bs : List ℕ} {e : DecodeError}
      → Stops b d bs e
      → Stops b (d >>= f) bs e
  unfolding ◌>>=◌
  Stops-first f sd = record { at = λ r p. rw (sd.at r p) refl }
