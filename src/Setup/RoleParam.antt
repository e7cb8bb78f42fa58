-- ===== src/Setup/RoleParam.antt =====
-- The parameters of a setup message, in setup/client.rs and setup/server.rs: the role is taken out
-- of parameter 0, and parameter 1, the path, may not be there.
pub mod Laws
use linode_moq.Prelude.{ℕ, List, [], ◌∷◌, ◌++◌, Option, none, some, true, false, if◌then◌else◌}
use linode_moq.Coding.Outcome.{DecodeError, EncodeError, Outcome, ok, err, panic}
use linode_moq.Coding.Buffer.{VecBuf, CursorBuf}
use linode_moq.Coding.Decoder
use linode_moq.Coding.Decoder.{Decoder, pure}
use linode_moq.Coding.Params.{Params, has, get, set}
use linode_moq.Setup.Role.{Role, role_encode, role_decode}

-- `ok_or(MissingParameter)?`, and the test for the path.
unfoldable pub with_role :
    Outcome DecodeError (Option Role × Params) → Outcome DecodeError (Role × Params)
with_role (ok (some role, params)) =
    if has params 1 then err DecodeError.invalid_parameter else ok (role, params)
with_role (ok (none, params)) = err DecodeError.missing_parameter
with_role (err e) = err e
with_role panic = panic

unfoldable pub take_role : {C : Type 0} → CursorBuf C → Params → Outcome DecodeError (Role × Params)
take_role k params = with_role (get k 0 (role_decode ⦃b = k.buf⦄) params)

-- An outcome that does not move the buffer, with `?`.
unfoldable pub lift : {R A : Type 0} → Outcome DecodeError A → Decoder R A
lift (ok a) = pure a
lift (err e) = Decoder.fail e
lift panic = Decoder.abort

-- `params.set(0, self.role)`
unfoldable pub put_role : {V : Type 0} → VecBuf V → Role → Params → Outcome EncodeError Params
put_role v role params = set v 0 (role_encode ⦃c = v.buf_mut⦄ role) params
