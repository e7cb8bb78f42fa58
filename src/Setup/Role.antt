-- ===== src/Setup/Role.antt =====
-- moq-transport/src/setup/role.rs: whether an endpoint publishes, subscribes, or both.
use linode_moq.Prelude.{
  ℕ, List, ◌≡◌, ◌==◌, if◌then◌else◌, refl, arith, Bool, true, false, not, ◌&&◌,
}
use linode_moq.Coding.Outcome.{DecodeError}
use linode_moq.Coding.Buffer.{Buf, BufMut}
use linode_moq.Coding.Decoder.{Decoder, pure, fail, ◌>>=◌}
use linode_moq.Coding.Encoder.{Encoder}
use linode_moq.Coding.Codec.{IsCodec, Any}
use linode_moq.Coding.Rules.Writes.{Writes}
use linode_moq.Coding.Rules.Parses.{Parses}
use linode_moq.Coding.Rules.Ensures.{Ensures, Ensures-bind, Ensures-if, Ensures-pure, Ensures-fail}
use linode_moq.Coding.Primitives.{coded-Parses}
use linode_moq.Coding.Varint.{u64_encode, u64_decode}
use linode_moq.Coding.Varint.Format.{IsVarint, varint_wire}
use linode_moq.Coding.Varint.Encoding.{u64_encode-Writes}
use linode_moq.Coding.Varint.Integers.{u64_decode-Parses, u64_decode-Ensures}

pub data Role : Type 0 where
  publisher subscriber both : Role

-- `Role::is_publisher`
unfoldable pub is_publisher : Role → Bool
is_publisher publisher = true
is_publisher both = true
is_publisher subscriber = false

-- `Role::is_subscriber`
unfoldable pub is_subscriber : Role → Bool
is_subscriber subscriber = true
is_subscriber both = true
is_subscriber publisher = false

-- `==` of `bool`
abbrev pub same : Bool → Bool → Bool
same true b = b
same false b = not b

-- `Role::is_compatible`
unfoldable pub is_compatible : Role → Role → Bool
is_compatible self other =
    same (is_publisher self) (is_subscriber other) && same (is_subscriber self) (is_publisher other)

-- `u64::from`
unfoldable pub role_code : Role → ℕ
role_code publisher = 1
role_code subscriber = 2
role_code both = 3

role_code-fits : (s : Role) → IsVarint (role_code s)
unfolding role_code
role_code-fits publisher = omega arith
role_code-fits subscriber = omega arith
role_code-fits both = omega arith

unfoldable pub role_wire : Role → List ℕ
role_wire s = varint_wire (role_code s)

module _ {W : Type 0} ⦃c : BufMut W⦄ where
  unfoldable pub role_encode : Role → Encoder W
  unfolding role_code
  role_encode s = u64_encode (role_code s)

  pub role_encode-Writes : (s : Role) → Any s → Writes c (role_encode s) (role_wire s)
  unfolding role_wire role_encode
  role_encode-Writes s _ = u64_encode-Writes (role_code s) (role_code-fits s)

module _ {R : Type 0} ⦃b : Buf R⦄ where
  role_of : ℕ → Decoder R Role
  role_of v =
      if v == 1
      then pure publisher
      else if v == 2
      then pure subscriber
      else if v == 3
      then pure both
      else fail (DecodeError.invalid_role v)

  unfoldable pub role_decode : Decoder R Role
  unfolding role_of
  role_decode = do v ← u64_decode; role_of v

  role_of-code : (s : Role) → role_of (role_code s) ≡ pure s
  unfolding role_of role_code
  role_of-code publisher = refl
  role_of-code subscriber = refl
  role_of-code both = refl

  pub role_decode-Parses : (s : Role) → Any s → Parses b role_decode (role_wire s) s
  unfolding role_wire role_decode
  role_decode-Parses s _ =
      coded-Parses role_code role_of u64_decode-Parses role_code-fits role_of-code s

  pub role_decode-Ensures : Ensures b Any role_decode
  unfolding role_decode
  role_decode-Ensures = Ensures-bind _ u64_decode-Ensures λ v _.
      Ensures-if (v == 1) (λ _. Ensures-pure publisher tt)
        λ _.
          Ensures-if (v == 2) (λ _. Ensures-pure subscriber tt)
            λ _. Ensures-if (v == 3) (λ _. Ensures-pure both tt) λ _. Ensures-fail _

module _ {R W : Type 0} ⦃b : Buf R⦄ ⦃c : BufMut W⦄ where
  pub role-IsCodec : IsCodec b c Any role_wire role_encode role_decode
  role-IsCodec = record {
    writes = role_encode-Writes;
    parses = role_decode-Parses;
    ensures = role_decode-Ensures;
  }
