-- ===== src/Coding/RoundTrip.antt =====
-- What it comes to that a value is sent and received.
use linode_moq.Prelude.{ℕ, suc, ◌≤◌, ◌≡◌, List, ◌∷◌, ◌++◌, length, arith}
use linode_moq.Coding.Outcome.{DecodeError, ok, err}
use linode_moq.Coding.Buffer.{Buf, BufMut}
use linode_moq.Coding.Decoder.{Decoder}
use linode_moq.Coding.Encoder.{Encoder}
use linode_moq.Coding.Codec.{IsCodec}

module _ {W : Type 0} (c : BufMut W) where
  -- The encoder returns, and has appended `bs` to `w`.
  abbrev pub Sends : Encoder W → List ℕ → W → Type 0
  Sends encode bs w = (w' : W) × (encode w ≡ ok w') × (c.written w' ≡ c.written w ++ bs)

module _ {R : Type 0} (b : Buf R) where
  -- The decoder returns `a`, and the buffer stands before `rest`.
  abbrev pub Receives : {A : Type 0} → Decoder R A → A → List ℕ → R → Type 0
  Receives decode a rest r = (r' : R) × (decode r ≡ ok (a, r')) × (b.contents r' ≡ rest)

  -- The decoder asks for more, and for no more than `missing` bytes.
  abbrev pub AsksForMore : {A : Type 0} → Decoder R A → ℕ → R → Type 0
  AsksForMore decode missing r =
      (n : ℕ) × (decode r ≡ err (DecodeError.more (suc n))) × (suc n ≤ missing)

module _ {R W A : Type 0} {b : Buf R} {c : BufMut W} {Fits : A → Type 0} {wire : A → List ℕ}
    {encode : A → Encoder W} {decode : Decoder R A}
    (codec : IsCodec b c Fits wire encode decode) where
  pub round_trip :
      (a : A) (w : W) (r : R) (rest : List ℕ)
      → Fits a
      → length (wire a) ≤ c.remaining_mut w
      → b.contents r ≡ wire a ++ rest
      → Sends c (encode a) (wire a) w × Receives b decode a rest r
  round_trip a w r rest h room e =
      let (w', p, q, _) = (codec.writes a h).at w room in
      ((w', p, q), (codec.parses a h).reads.at r rest e)

  pub cut_short :
      (a : A) (r : R) (x : ℕ) (back : List ℕ)
      → Fits a
      → wire a ≡ b.contents r ++ (x ∷ back)
      → AsksForMore b decode (length (x ∷ back)) r
  cut_short a r x back h e =
      let (n, p, q) = (codec.parses a h).hungry.at r x back e in (n, p, omega (arith, q))
