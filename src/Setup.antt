-- ===== src/Setup.antt =====
-- moq-transport/src/setup: the handshake at the start of a session.
pub mod Body
pub mod Client
pub mod Role
pub mod RoleParam
pub mod Server
pub mod Version
