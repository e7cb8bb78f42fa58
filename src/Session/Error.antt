-- ===== src/Session/Error.antt =====
-- moq-transport/src/session/error.rs: the errors of the handshake, and of reading and writing a stream.
use linode_moq.Coding.Outcome.{DecodeError, EncodeError}
use linode_moq.Serve.Error.{ServeError}
use linode_moq.Setup.Role.{Role}
use linode_moq.Setup.Version.{Versions}

-- The arms that the modelled code builds; `transport` holds the text of the transport's error.
pub data SessionError (E : Type 0) : Type 0 where
  transport : E → SessionError E
  encode : EncodeError → SessionError E
  decode : DecodeError → SessionError E
  version : Versions → Versions → SessionError E
  role_incompatible : Role → Role → SessionError E
  serve : ServeError → SessionError E
