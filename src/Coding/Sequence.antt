-- ===== src/Coding/Sequence.antt =====
-- The loops over counted lists in coding/tuple.rs and setup/version.rs: `for x in xs { x.encode(w)?
-- }`, and `for _ in 0..count { xs.push(X::decode(r)?) }`.
use linode_moq.Prelude.{ℕ, zero, suc, List, [], ◌∷◌, ◌++◌, length, All, ◌≡◌, refl, arith}
use linode_moq.Coding.Buffer.{Buf, BufMut}
use linode_moq.Coding.Decoder.{Decoder, pure, ◌>>=◌}
use linode_moq.Coding.Encoder.{Encoder, done, ◌>>◌}
use linode_moq.Coding.Rules.Writes.{Writes, Writes-then, Writes-done}
use linode_moq.Coding.Rules.Parses.{Parses, Parses-bind, Parses-last, Parses-pure}
use linode_moq.Coding.Rules.Ensures.{Ensures, Ensures-bind, Ensures-pure}

unfoldable pub each_wire : {A : Type 0} → (A → List ℕ) → List A → List ℕ
each_wire wire [] = []
each_wire wire (x ∷ xs) = wire x ++ each_wire wire xs

unfoldable pub encode_each : {W A : Type 0} → (A → Encoder W) → List A → Encoder W
encode_each encode [] = done
encode_each encode (x ∷ xs) = do encode x; encode_each encode xs

unfoldable pub decode_each : {R A : Type 0} → ℕ → Decoder R A → Decoder R (List A)
decode_each zero decode = pure []
decode_each (suc n) decode = do x ← decode; xs ← decode_each n decode; pure (x ∷ xs)

module _ {W A : Type 0} ⦃c : BufMut W⦄ {Fits : A → Type 0} {wire : A → List ℕ}
    {encode : A → Encoder W} (writes : (a : A) → Fits a → Writes c (encode a) (wire a)) where
  pub encode_each-Writes :
      (xs : List A) → All Fits xs → Writes c (encode_each encode xs) (each_wire wire xs)
  unfolding encode_each each_wire
  encode_each-Writes [] h = Writes-done
  encode_each-Writes (x ∷ xs) (hx, hxs) = Writes-then (writes x hx) (encode_each-Writes xs hxs)

module _ {R A : Type 0} ⦃b : Buf R⦄ {Fits : A → Type 0} {wire : A → List ℕ} {decode : Decoder R A}
    (parses : (a : A) → Fits a → Parses b decode (wire a) a) where
  pub decode_each-Parses :
      (xs : List A) → All Fits xs → Parses b (decode_each (length xs) decode) (each_wire wire xs) xs
  unfolding decode_each each_wire
  decode_each-Parses [] h = Parses-pure []
  decode_each-Parses (x ∷ xs) (hx, hxs) =
      Parses-bind _ (parses x hx)
        (Parses-last (λ ys. pure (x ∷ ys)) (decode_each-Parses xs hxs) (Parses-pure (x ∷ xs)))

module _ {R A : Type 0} ⦃b : Buf R⦄ {Fits : A → Type 0} {decode : Decoder R A}
    (ensures : Ensures b Fits decode) where
  pub decode_each-Ensures :
      (n : ℕ) → Ensures b (λ xs. All Fits xs × (length xs ≡ n)) (decode_each n decode)
  unfolding decode_each
  decode_each-Ensures zero = Ensures-pure [] (tt, refl)
  decode_each-Ensures (suc n) = Ensures-bind _ ensures λ x hx.
      Ensures-bind _ (decode_each-Ensures n)
        λ xs (hxs, size). Ensures-pure (x ∷ xs) ((hx, hxs), omega arith)
