-- ===== src/Setup/Server.antt =====
-- moq-transport/src/setup/server.rs: the answer of the server.
use linode_moq.Prelude.{ℕ, List, ◌++◌, ◌==◌, if◌then◌else◌, length, append-nil, arith}
use linode_moq.Coding.Buffer.{Buf, BufMut, VecBuf, CursorBuf}
use linode_moq.Coding.Decoder.{Decoder, pure, ◌>>=◌, fail}
use linode_moq.Coding.Encoder.{Encoder, ◌>>◌}
use linode_moq.Coding.Rules.Writes.{Writes, Writes-then}
use linode_moq.Coding.Rules.Parses.{Parses, Parses-bind, Parses-pure, Parses-last}
use linode_moq.Coding.Rules.Ensures.{Ensures, Ensures-bind, Ensures-pure, Ensures-if, Ensures-fail}
use linode_moq.Coding.Varint.{u64_encode, u64_decode}
use linode_moq.Coding.Varint.Format.{IsVarint, varint_wire}
use linode_moq.Coding.Varint.Encoding.{u64_encode-Writes}
use linode_moq.Coding.Varint.Integers.{u64_decode-Parses, u64_decode-Ensures}
use linode_moq.Coding.Outcome.{DecodeError}
use linode_moq.Coding.Framed.{framed_wire}
use linode_moq.Coding.Params.{Params, params_decode}
use linode_moq.Coding.Params.Laws.{params_decode-Parses, params_decode-Ensures}
use linode_moq.Setup.Role.{Role}
use linode_moq.Setup.Version.{
  Version, VersionFits, version_wire, version_encode, version_decode, version_encode-Writes,
  version_decode-Parses, version_decode-Ensures,
}
use linode_moq.Setup.RoleParam.{take_role, lift}
use linode_moq.Setup.RoleParam.Laws.{
  RestFits, with_role_entry-Fits, take_role-Parses, take_role-Ensures,
}
use linode_moq.Setup.Body.{encode_body, put_body, body_wire, put_body-Writes}

pub record Server : Type 0 where
  pub version : Version
  pub role : Role
  pub params : Params

-- What the decoder returns.
pub record ServerParts (m : Server) : Type 0 where
  pub version : VersionFits m.version
  pub params : RestFits m.params

unfoldable pub server_body : Server → List ℕ
server_body m = body_wire (version_wire m.version) m.role m.params

-- Its length can be sent, too.
pub record ServerFits (m : Server) : Type 0 where
  pub parts : ServerParts m
  pub size : IsVarint (length (server_body m))

unfoldable pub server_wire : Server → List ℕ
server_wire m = varint_wire 0x41 ++ framed_wire (server_body m)

module _ {V W : Type 0} ⦃c : BufMut W⦄ (v : VecBuf V) where
  unfoldable pub server_encode : Server → Encoder W
  server_encode m = do
    u64_encode 0x41
    put_body v (encode_body v (version_encode ⦃c = v.buf_mut⦄ m.version) m.role m.params)

  pub server_encode-Writes :
      (m : Server) → ServerFits m → Writes c (server_encode m) (server_wire m)
  unfolding server_encode server_wire server_body
  server_encode-Writes m h = Writes-then (u64_encode-Writes 0x41 (omega arith)) (
      put_body-Writes v m.role m.params
        (version_encode-Writes ⦃c = v.buf_mut⦄ m.version h.parts.version) h.parts.params h.size)

module _ {R C : Type 0} ⦃b : Buf R⦄ (k : CursorBuf C) where
  -- What follows the type; the length is read and not looked at.
  server_rest : Decoder R Server
  server_rest = do
    _ ← u64_decode
    version ← version_decode
    params ← params_decode
    (role, params) ← lift (take_role k params)
    pure (record { version = version; role = role; params = params })

  unfoldable pub server_decode : Decoder R Server
  unfolding server_rest
  server_decode = do
    typ ← u64_decode
    if typ == 0x41 then server_rest else fail (DecodeError.invalid_message typ)

  server_rest-Parses :
      (m : Server) → ServerFits m → Parses b server_rest (framed_wire (server_body m)) m
  unfolding server_rest framed_wire server_body body_wire
  server_rest-Parses m h = Parses-bind _ (u64_decode-Parses _ h.size) (
      rw append-nil (
        Parses-bind _ (version_decode-Parses m.version h.parts.version) (
          Parses-last
            (λ params. lift (take_role k params) >>= λ (role, params).
              pure (record { version = m.version; role = role; params = params }))
            (params_decode-Parses _ (with_role_entry-Fits m.role m.params h.parts.params))
            (Parses-bind _ (take_role-Parses k m.role m.params h.parts.params) (Parses-pure m)))))

  pub server_decode-Parses : (m : Server) → ServerFits m → Parses b server_decode (server_wire m) m
  unfolding server_decode server_wire
  server_decode-Parses m h =
      Parses-bind _ (u64_decode-Parses 0x41 (omega arith)) (server_rest-Parses m h)

  pub server_decode-Ensures : Ensures b ServerParts server_decode
  unfolding server_decode server_rest
  server_decode-Ensures = Ensures-bind _ u64_decode-Ensures λ typ _.
      Ensures-if (typ == 0x41)
        (λ _. Ensures-bind _ u64_decode-Ensures λ _ _.
          Ensures-bind _ version_decode-Ensures λ version version'.
            Ensures-bind _ params_decode-Ensures λ params params'.
              Ensures-bind _ (take_role-Ensures k params params') λ (role, rest) rest'.
                Ensures-pure _ (record { version = version'; params = rest' }))
        (λ _. Ensures-fail _)
