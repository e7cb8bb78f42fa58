-- ===== src/Session/Handshake/Roles.antt =====
-- The setups of a handshake, and the roles that follow from them.
use linode_moq.Prelude.{◌≡◌, refl, Bool, true, false, ◌&&◌, ◌||◌, length, arith}
use linode_moq.Prelude.BigEndian.{to_be_bytes}
use linode_moq.Coding.Outcome.{ok, err}
use linode_moq.Coding.Varint.Format.{IsVarint, varint_wire}
use linode_moq.Coding.Framed.{framed_wire}
use linode_moq.Coding.Sequence.{each_wire}
use linode_moq.Coding.Prefixed.{prefixed_wire}
use linode_moq.Coding.Params.Format.{params_wire, entries_wire}
use linode_moq.Coding.Params.Map.{contains_key}
use linode_moq.Setup.Role.{
  Role, publisher, subscriber, both, role_code, role_wire, is_publisher, is_subscriber,
  is_compatible,
}
use linode_moq.Setup.RoleParam.Laws.{with_role_entry}
use linode_moq.Setup.Version.{version_wire, versions_wire}
use linode_moq.Setup.Body.{body_wire}
use linode_moq.Setup.Client.{ClientFits, client_body, client_wire}
use linode_moq.Setup.Server.{ServerFits, server_body, server_wire}
use linode_moq.Session.Error.{role_incompatible}
use linode_moq.Session.Handshake.{client_setup, server_setup, downgrade}

client_body-IsVarint : (role : Role) → IsVarint (length (client_body (client_setup role)))
unfolding client_setup client_body body_wire versions_wire version_wire each_wire with_role_entry
    params_wire entries_wire prefixed_wire role_wire role_code varint_wire to_be_bytes
client_body-IsVarint publisher = omega arith
client_body-IsVarint subscriber = omega arith
client_body-IsVarint both = omega arith

pub client_setup-Fits : (role : Role) → ClientFits (client_setup role)
unfolding client_setup contains_key
client_setup-Fits role = record {
  parts = record {
    versions = record { each = (omega arith, tt); count = omega arith };
    params = record {
      entries = tt;
      distinct = tt;
      no_role = refl;
      no_path = refl;
      count = omega arith;
    };
  };
  size = client_body-IsVarint role;
}

server_body-IsVarint : (role : Role) → IsVarint (length (server_body (server_setup role)))
unfolding server_setup server_body body_wire version_wire with_role_entry params_wire entries_wire
    prefixed_wire role_wire role_code varint_wire to_be_bytes
server_body-IsVarint publisher = omega arith
server_body-IsVarint subscriber = omega arith
server_body-IsVarint both = omega arith

pub server_setup-Fits : (role : Role) → ServerFits (server_setup role)
unfolding server_setup contains_key
server_setup-Fits role = record {
  parts = record {
    version = omega arith;
    params = record {
      entries = tt;
      distinct = tt;
      no_role = refl;
      no_path = refl;
      count = omega arith;
    };
  };
  size = server_body-IsVarint role;
}

pub length-client_wire : (role : Role) → length (client_wire (client_setup role)) ≡ 16
unfolding client_wire framed_wire client_setup client_body body_wire versions_wire version_wire
    each_wire with_role_entry params_wire entries_wire prefixed_wire role_wire role_code varint_wire
    to_be_bytes
length-client_wire publisher = refl
length-client_wire subscriber = refl
length-client_wire both = refl

pub length-server_wire : (role : Role) → length (server_wire (server_setup role)) ≡ 15
unfolding server_wire framed_wire server_setup server_body body_wire version_wire with_role_entry
    params_wire entries_wire prefixed_wire role_wire role_code varint_wire to_be_bytes
length-server_wire publisher = refl
length-server_wire subscriber = refl
length-server_wire both = refl

-- One side can publish what the other subscribes to.
unfoldable pub meets : Role → Role → Bool
meets r s = is_publisher r && is_subscriber s || is_subscriber r && is_publisher s

-- The role of a server in the session, from the client's role and its own.
unfoldable pub server_role : Role → Role → Role
server_role both role = role
server_role publisher role = subscriber
server_role subscriber role = publisher

module _ {E : Type 0} where
  pub server_side : (r s : Role) → meets r s ≡ true → downgrade {E = E} r s ≡ ok (server_role r s)
  unfolding downgrade server_role meets is_publisher is_subscriber
  server_side publisher publisher h = cc
  server_side publisher subscriber h = refl
  server_side publisher both h = refl
  server_side subscriber publisher h = refl
  server_side subscriber subscriber h = cc
  server_side subscriber both h = refl
  server_side both publisher h = refl
  server_side both subscriber h = refl
  server_side both both h = refl

  pub client_side :
      (r s : Role)
      → meets r s ≡ true
      → (c : Role) × (downgrade {E = E} (server_role r s) r ≡ ok c)
        × (is_compatible c (server_role r s) ≡ true)
  unfolding downgrade server_role meets is_publisher is_subscriber is_compatible
  client_side publisher publisher h = cc
  client_side publisher subscriber h = (publisher, refl, refl)
  client_side publisher both h = (publisher, refl, refl)
  client_side subscriber publisher h = (subscriber, refl, refl)
  client_side subscriber subscriber h = cc
  client_side subscriber both h = (subscriber, refl, refl)
  client_side both publisher h = (subscriber, refl, refl)
  client_side both subscriber h = (publisher, refl, refl)
  client_side both both h = (both, refl, refl)

  pub refused_side :
      (r s : Role) → meets r s ≡ false → downgrade {E = E} r s ≡ err (role_incompatible r s)
  unfolding downgrade meets is_publisher is_subscriber
  refused_side publisher publisher h = refl
  refused_side publisher subscriber h = cc
  refused_side publisher both h = cc
  refused_side subscriber publisher h = cc
  refused_side subscriber subscriber h = refl
  refused_side subscriber both h = cc
  refused_side both publisher h = cc
  refused_side both subscriber h = cc
  refused_side both both h = cc
