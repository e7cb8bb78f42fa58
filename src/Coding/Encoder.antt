-- ===== src/Coding/Encoder.antt =====
-- The trait `Encode` of coding/encode.rs: an encoder appends to a `&mut W`.
-- Where an encode fails its caller drops or clears the buffer, so none comes back with an error.
use linode_moq.Prelude.{ℕ, ◌-◌, List, if◌then◌else◌, ltb}
use linode_moq.Coding.Outcome.{EncodeError, Outcome, ok, err, panic, or_panic}
use linode_moq.Coding.Buffer.{BufMut}

abbrev pub Encoder : Type 0 → Type 0
Encoder W = W → Outcome EncodeError W

module _ {W : Type 0} where
  -- `Ok(())`
  unfoldable pub done : Encoder W
  done w = ok w

  unfoldable pub fail : EncodeError → Encoder W
  fail e w = err e

  -- A panic.
  unfoldable pub abort : Encoder W
  abort w = panic

  abbrev continue : Outcome EncodeError W → Encoder W → Outcome EncodeError W
  continue (ok w) e = e w
  continue (err x) e = err x
  continue panic e = panic

  infixl 1 ◌>>◌
  unfoldable pub ◌>>◌ : Encoder W → Encoder W → Encoder W
  ◌>>◌ d e w = continue (d w) e

module _ {W : Type 0} ⦃b : BufMut W⦄ where
  unfoldable pub put_slice : List ℕ → Encoder W
  put_slice bs w = or_panic (b.put_slice bs w)

  unfoldable pub put_uint : ℕ → ℕ → Encoder W
  put_uint k x w = or_panic (b.put_uint k x w)

  unfoldable pub encode_remaining : ℕ → Encoder W
  encode_remaining required w =
      let needed = required - b.remaining_mut w in
      if ltb 0 needed then err (EncodeError.more needed) else ok w
