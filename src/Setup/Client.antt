-- ===== src/Setup/Client.antt =====
-- moq-transport/src/setup/client.rs: the message that a client opens the session with.
use linode_moq.Prelude.{ℕ, List, ◌++◌, ◌==◌, if◌then◌else◌, length, append-nil, arith}
use linode_moq.Coding.Buffer.{Buf, BufMut, VecBuf, CursorBuf}
use linode_moq.Coding.Decoder.{Decoder, pure, ◌>>=◌, fail}
use linode_moq.Coding.Encoder.{Encoder, ◌>>◌}
use linode_moq.Coding.Rules.Writes.{Writes, Writes-then}
use linode_moq.Coding.Rules.Parses.{Parses, Parses-bind, Parses-pure, Parses-last}
use linode_moq.Coding.Rules.Ensures.{Ensures, Ensures-bind, Ensures-pure, Ensures-if, Ensures-fail}
use linode_moq.Coding.Varint.{u64_encode, u64_decode}
use linode_moq.Coding.Varint.Format.{IsVarint, varint_wire}
use linode_moq.Coding.Varint.Encoding.{u64_encode-Writes}
use linode_moq.Coding.Varint.Integers.{u64_decode-Parses, u64_decode-Ensures}
use linode_moq.Coding.Outcome.{DecodeError}
use linode_moq.Coding.Framed.{framed_wire}
use linode_moq.Coding.Params.{Params, params_decode}
use linode_moq.Coding.Params.Laws.{params_decode-Parses, params_decode-Ensures}
use linode_moq.Setup.Role.{Role}
use linode_moq.Setup.Version.{
  Versions, VersionsFits, versions_wire, versions_encode, versions_decode, versions_encode-Writes,
  versions_decode-Parses, versions_decode-Ensures,
}
use linode_moq.Setup.RoleParam.{take_role, lift}
use linode_moq.Setup.RoleParam.Laws.{
  RestFits, with_role_entry-Fits, take_role-Parses, take_role-Ensures,
}
use linode_moq.Setup.Body.{encode_body, put_body, body_wire, put_body-Writes}

pub record Client : Type 0 where
  pub versions : Versions
  pub role : Role
  pub params : Params

-- What the decoder returns.
pub record ClientParts (m : Client) : Type 0 where
  pub versions : VersionsFits m.versions
  pub params : RestFits m.params

unfoldable pub client_body : Client → List ℕ
client_body m = body_wire (versions_wire m.versions) m.role m.params

-- Its length can be sent, too.
pub record ClientFits (m : Client) : Type 0 where
  pub parts : ClientParts m
  pub size : IsVarint (length (client_body m))

unfoldable pub client_wire : Client → List ℕ
client_wire m = varint_wire 0x40 ++ framed_wire (client_body m)

module _ {V W : Type 0} ⦃c : BufMut W⦄ (v : VecBuf V) where
  unfoldable pub client_encode : Client → Encoder W
  client_encode m = do
    u64_encode 0x40
    put_body v (encode_body v (versions_encode ⦃c = v.buf_mut⦄ m.versions) m.role m.params)

  pub client_encode-Writes :
      (m : Client) → ClientFits m → Writes c (client_encode m) (client_wire m)
  unfolding client_encode client_wire client_body
  client_encode-Writes m h = Writes-then (u64_encode-Writes 0x40 (omega arith)) (
      put_body-Writes v m.role m.params
        (versions_encode-Writes ⦃c = v.buf_mut⦄ m.versions h.parts.versions) h.parts.params h.size)

module _ {R C : Type 0} ⦃b : Buf R⦄ (k : CursorBuf C) where
  -- What follows the type; the length is read and not looked at.
  client_rest : Decoder R Client
  client_rest = do
    _ ← u64_decode
    versions ← versions_decode
    params ← params_decode
    (role, params) ← lift (take_role k params)
    pure (record { versions = versions; role = role; params = params })

  unfoldable pub client_decode : Decoder R Client
  unfolding client_rest
  client_decode = do
    typ ← u64_decode
    if typ == 0x40 then client_rest else fail (DecodeError.invalid_message typ)

  client_rest-Parses :
      (m : Client) → ClientFits m → Parses b client_rest (framed_wire (client_body m)) m
  unfolding client_rest framed_wire client_body body_wire
  client_rest-Parses m h = Parses-bind _ (u64_decode-Parses _ h.size) (
      rw append-nil (
        Parses-bind _ (versions_decode-Parses m.versions h.parts.versions) (
          Parses-last
            (λ params. lift (take_role k params) >>= λ (role, params).
              pure (record { versions = m.versions; role = role; params = params }))
            (params_decode-Parses _ (with_role_entry-Fits m.role m.params h.parts.params))
            (Parses-bind _ (take_role-Parses k m.role m.params h.parts.params) (Parses-pure m)))))

  pub client_decode-Parses : (m : Client) → ClientFits m → Parses b client_decode (client_wire m) m
  unfolding client_decode client_wire
  client_decode-Parses m h =
      Parses-bind _ (u64_decode-Parses 0x40 (omega arith)) (client_rest-Parses m h)

  pub client_decode-Ensures : Ensures b ClientParts client_decode
  unfolding client_decode client_rest
  client_decode-Ensures = Ensures-bind _ u64_decode-Ensures λ typ _.
      Ensures-if (typ == 0x40)
        (λ _. Ensures-bind _ u64_decode-Ensures λ _ _.
          Ensures-bind _ versions_decode-Ensures λ versions versions'.
            Ensures-bind _ params_decode-Ensures λ params params'.
              Ensures-bind _ (take_role-Ensures k params params') λ (role, rest) rest'.
                Ensures-pure _ (record { versions = versions'; params = rest' }))
        (λ _. Ensures-fail _)
