-- ===== src/Coding/Decoder.antt =====
-- The trait `Decode` of coding/decode.rs: a decoder moves a `&mut B` forward and returns a value.
-- Where a decode fails its caller drops the cursor, so no buffer comes back with an error.
use linode_moq.Prelude.{ℕ, ◌-◌, List, if◌then◌else◌, ltb}
use linode_moq.Coding.Outcome.{DecodeError, Outcome, ok, err, panic, or_panic}
use linode_moq.Coding.Buffer.{Buf}

abbrev pub Decoder {ℓ} : Type 0 → Type ℓ → Type ℓ
Decoder R A = R → Outcome DecodeError (A × R)

module _ {ℓ} {R : Type 0} {A : Type ℓ} where
  unfoldable pub pure : A → Decoder R A
  pure a r = ok (a, r)

  unfoldable pub fail : DecodeError → Decoder R A
  fail e r = err e

  -- `unreachable!()`, an index out of range or an `unwrap` of nothing.
  unfoldable pub abort : Decoder R A
  abort r = panic

module _ {ℓ κ} {R : Type 0} {A : Type ℓ} {B : Type κ} where
  abbrev pub continue :
      Outcome DecodeError (A × R) → (A → Decoder R B) → Outcome DecodeError (B × R)
  continue (ok (a, r)) f = f a r
  continue (err e) f = err e
  continue panic f = panic

  infixl 1 ◌>>=◌
  unfoldable pub ◌>>=◌ : Decoder R A → (A → Decoder R B) → Decoder R B
  ◌>>=◌ d f r = continue (d r) f

module _ {R : Type 0} ⦃b : Buf R⦄ where
  unfoldable pub remaining : Decoder R ℕ
  remaining r = ok (b.remaining r, r)

  unfoldable pub get_u8 : Decoder R ℕ
  get_u8 r = or_panic (b.get_u8 r)

  unfoldable pub copy_to_slice : ℕ → Decoder R (List ℕ)
  copy_to_slice n r = or_panic (b.copy_to_slice n r)

  unfoldable pub decode_remaining : ℕ → Decoder R (Unit {0})
  decode_remaining required r =
      let needed = required - b.remaining r in
      if ltb 0 needed then err (DecodeError.more needed) else ok (tt, r)
