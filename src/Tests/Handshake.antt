-- ===== src/Tests/Handshake.antt =====
-- Handshakes between concrete readers.
use linode_moq.Prelude.{ℕ, ◌≡◌, refl, List, [], ◌∷◌, true, arith}
use linode_moq.Prelude.BigEndian.{to_be_bytes}
use linode_moq.Coding.Outcome.{ok, err}
use linode_moq.Coding.Varint.Format.{varint_wire}
use linode_moq.Coding.Framed.{framed_wire}
use linode_moq.Coding.Sequence.{each_wire}
use linode_moq.Coding.Prefixed.{prefixed_wire}
use linode_moq.Coding.Params.Format.{params_wire, entries_wire}
use linode_moq.Setup.Role.{
  publisher, both, role_code, role_wire, is_publisher, is_subscriber, is_compatible,
}
use linode_moq.Setup.RoleParam.Laws.{with_role_entry}
use linode_moq.Setup.Version.{version_wire, versions_wire}
use linode_moq.Setup.Body.{body_wire}
use linode_moq.Setup.Client.{client_body, client_wire}
use linode_moq.Setup.Server.{server_body, server_wire}
use linode_moq.Session.Error.{role_incompatible}
use linode_moq.Session.Reader.{Reader, RecvStream, chunk}
use linode_moq.Session.Reader.Streaming.{received, pending}
use linode_moq.Session.Handshake.{
  client_setup, server_setup, Opened, returned, accept_role, connect_role,
}
use linode_moq.Session.Writer.{SendStream, takes, waits}
use linode_moq.Session.Writer.Delivery.{capacity}
use linode_moq.Session.Handshake.Roles.{meets, server_role}
use linode_moq.Session.Handshake.Agreement.{handshake_agrees, handshake_refused}
use linode_moq.Tests.Buffers.{list_cursor, vec_buf, as_bytes-IsByte}

-- A client that publishes has sent its setup and a byte of a first message, in two pieces.
abbrev publisher_tail : List ℕ
publisher_tail = 0x0d ∷ 1 ∷ 0xc0 ∷ 0 ∷ 0 ∷ 0 ∷ 0xff ∷ 0 ∷ 0 ∷ 7 ∷ 1 ∷ 0 ∷ 1 ∷ 1 ∷ 0x06 ∷ []

abbrev at_server : Reader ℕ
at_server = record {
  stream = chunk (0x40 ∷ []) (chunk publisher_tail RecvStream.ended);
  buffer = 0x40 ∷ [];
}

abbrev subscriber_bytes : List ℕ
subscriber_bytes = 0x40 ∷ 0x41 ∷ 0x0c ∷ 0xc0 ∷ 0 ∷ 0 ∷ 0 ∷ 0xff ∷ 0 ∷ 0 ∷ 7 ∷ 1 ∷ 0 ∷ 1 ∷ 2 ∷ []

abbrev at_client : Reader ℕ
at_client = record { stream = chunk subscriber_bytes RecvStream.ended; buffer = [] }

abbrev slow_sender : SendStream ℕ
slow_sender = takes 5 (takes 11 waits)

handshake_agrees_example :
    (client : Opened ℕ) × (server : Opened ℕ) × (connect_role list_cursor vec_buf publisher
        slow_sender at_client
      ≡ returned (ok client))
    × (accept_role list_cursor vec_buf both slow_sender at_server ≡ returned (ok server))
    × (client.sent ≡ client_wire (client_setup publisher))
    × (server.sent ≡ subscriber_bytes)
    × (is_compatible client.role server.role ≡ true)
    × (pending server.recver ≡ 0x06 ∷ [])
    × (pending client.recver ≡ [])
unfolding capacity received meets server_role is_publisher is_subscriber client_setup server_setup
    client_wire client_body server_wire server_body framed_wire body_wire with_role_entry
    params_wire entries_wire prefixed_wire role_wire role_code versions_wire version_wire each_wire
    varint_wire to_be_bytes
handshake_agrees_example =
    handshake_agrees list_cursor vec_buf publisher both slow_sender slow_sender at_server at_client
      (0x06 ∷ []) [] refl (omega arith) (omega arith) (as_bytes-IsByte (pending at_server))
      (as_bytes-IsByte (pending at_client)) refl refl

handshake_refused_example :
    accept_role list_cursor vec_buf publisher slow_sender at_server
    ≡ returned (err (role_incompatible publisher publisher))
unfolding received meets server_role is_publisher is_subscriber client_setup server_setup
    client_wire client_body server_wire server_body framed_wire body_wire with_role_entry
    params_wire entries_wire prefixed_wire role_wire role_code versions_wire version_wire each_wire
    varint_wire to_be_bytes
handshake_refused_example =
    handshake_refused list_cursor vec_buf publisher publisher slow_sender at_server (0x06 ∷ []) refl
      (as_bytes-IsByte (pending at_server)) refl
