-- ===== src/Session/Handshake/Agreement.antt =====
-- What the two sides of a handshake come to.
use linode_moq.Prelude.{ℕ, ◌≤◌, ◌≡◌, refl, List, ◌++◌, All, true, false, arith}
use linode_moq.Prelude.BigEndian.{IsByte}
use linode_moq.Coding.Outcome.{ok, err}
use linode_moq.Coding.Buffer.{CursorBuf, VecBuf}
use linode_moq.Setup.Role.{Role, is_compatible}
use linode_moq.Setup.Client.{
  client_wire, client_encode, client_decode, client_encode-Writes, client_decode-Parses,
}
use linode_moq.Setup.Server.{
  server_wire, server_encode, server_decode, server_encode-Writes, server_decode-Parses,
}
use linode_moq.Session.Error.{role_incompatible}
use linode_moq.Session.Reader.{Reader, reader_decode}
use linode_moq.Session.Reader.Streaming.{pending, reader_decode-streams}
use linode_moq.Session.Writer.{SendStream, finished, writer_encode}
use linode_moq.Session.Writer.Delivery.{capacity, writer_encode_delivers}
use linode_moq.Session.Handshake.{
  client_setup, server_setup, contains, downgrade, next, answer_client, returned, Opened, deliver,
  settle, accept_role, connect_role,
}
use linode_moq.Session.Handshake.Roles.{
  client_setup-Fits, server_setup-Fits, length-client_wire, length-server_wire, meets, server_role,
  server_side, client_side, refused_side,
}

module _ {C V E : Type 0} (k : CursorBuf C) (v : VecBuf V) where
  server_receives :
      (r : Role) (at_server : Reader E) (rest : List ℕ)
      → All IsByte (pending at_server)
      → pending at_server ≡ client_wire (client_setup r) ++ rest
      → (self : Reader E) × (reader_decode k (client_decode ⦃b = k.buf⦄ k) at_server
          ≡ ok (client_setup r, self))
        × (pending self ≡ rest)
  server_receives r at_server rest bytes e =
      reader_decode-streams k (client_decode ⦃b = k.buf⦄ k)
        (client_decode-Parses ⦃b = k.buf⦄ k (client_setup r) (client_setup-Fits r)) at_server rest
        bytes e

  client_receives :
      (s : Role) (at_client : Reader E) (rest : List ℕ)
      → All IsByte (pending at_client)
      → pending at_client ≡ server_wire (server_setup s) ++ rest
      → (self : Reader E) × (reader_decode k (server_decode ⦃b = k.buf⦄ k) at_client
          ≡ ok (server_setup s, self))
        × (pending self ≡ rest)
  client_receives s at_client rest bytes e =
      reader_decode-streams k (server_decode ⦃b = k.buf⦄ k)
        (server_decode-Parses ⦃b = k.buf⦄ k (server_setup s) (server_setup-Fits s)) at_client rest
        bytes e

  server_sends :
      (s : Role) (out : SendStream E)
      → 15 ≤ capacity out
      → (out' : SendStream E) × (writer_encode v out
            (server_encode ⦃c = v.buf_mut⦄ v (server_setup s))
          ≡ finished (server_wire (server_setup s)) out')
  server_sends s out room =
      writer_encode_delivers v out
        (server_encode-Writes ⦃c = v.buf_mut⦄ v (server_setup s) (server_setup-Fits s))
        (omega (arith, length-server_wire s)) (omega (arith, length-server_wire s))

  client_sends :
      (r : Role) (out : SendStream E)
      → 16 ≤ capacity out
      → (out' : SendStream E) × (writer_encode v out
            (client_encode ⦃c = v.buf_mut⦄ v (client_setup r))
          ≡ finished (client_wire (client_setup r)) out')
  client_sends r out room =
      writer_encode_delivers v out
        (client_encode-Writes ⦃c = v.buf_mut⦄ v (client_setup r) (client_setup-Fits r))
        (omega (arith, length-client_wire r)) (omega (arith, length-client_wire r))

  answer_agrees :
      (r s : Role)
      → meets r s ≡ true
      → answer_client {E = E} s (client_setup r)
        ≡ ok (server_setup (server_role r s), server_role r s)
  unfolding answer_client client_setup contains next
  answer_agrees r s h = rw (server_side {E = E} r s h) refl

  answer_refuses :
      (r s : Role)
      → meets r s ≡ false
      → answer_client {E = E} s (client_setup r) ≡ err (role_incompatible r s)
  unfolding answer_client client_setup contains next
  answer_refuses r s h = rw (refused_side {E = E} r s h) refl

  accepts :
      (r s : Role) (out : SendStream E) (at_server : Reader E) {out' : SendStream E}
      {self : Reader E}
      → meets r s ≡ true
      → reader_decode k (client_decode ⦃b = k.buf⦄ k) at_server ≡ ok (client_setup r, self)
      → writer_encode v out (server_encode ⦃c = v.buf_mut⦄ v (server_setup (server_role r s)))
        ≡ finished (server_wire (server_setup (server_role r s))) out'
      → accept_role k v s out at_server
        ≡ returned (
            ok (record {
              role = server_role r s;
              sent = server_wire (server_setup (server_role r s));
              sender = out';
              recver = self;
            }))
  unfolding accept_role settle deliver
  accepts r s out at_server h p w = rw (p, answer_agrees r s h, w) refl

  connects :
      (r s : Role) (out : SendStream E) (at_client : Reader E) {out' : SendStream E}
      {self : Reader E} {c : Role}
      → writer_encode v out (client_encode ⦃c = v.buf_mut⦄ v (client_setup r))
        ≡ finished (client_wire (client_setup r)) out'
      → reader_decode k (server_decode ⦃b = k.buf⦄ k) at_client ≡ ok (server_setup s, self)
      → downgrade {E = E} s r ≡ ok c
      → connect_role k v r out at_client
        ≡ returned (
            ok (record {
              role = c;
              sent = client_wire (client_setup r);
              sender = out';
              recver = self;
            }))
  unfolding connect_role settle deliver server_setup
  connects r s out at_client w p d = rw (w, p, d) refl

  -- A client and a server of which one can publish and the other subscribe, each on a stream that
  -- takes the bytes of its setup and delivers the setup of the other, in any pieces: both sides
  -- return, each has sent its setup, their roles are compatible, and what follows the setups is left
  -- to both readers.
  pub handshake_agrees :
      (r s : Role) (from_client from_server : SendStream E) (at_server at_client : Reader E)
      (rest more : List ℕ)
      → meets r s ≡ true
      → 16 ≤ capacity from_client
      → 15 ≤ capacity from_server
      → All IsByte (pending at_server)
      → All IsByte (pending at_client)
      → pending at_server ≡ client_wire (client_setup r) ++ rest
      → pending at_client ≡ server_wire (server_setup (server_role r s)) ++ more
      → (client : Opened E) × (server : Opened E) × (connect_role k v r from_client at_client
          ≡ returned (ok client))
        × (accept_role k v s from_server at_server ≡ returned (ok server))
        × (client.sent ≡ client_wire (client_setup r))
        × (server.sent ≡ server_wire (server_setup (server_role r s)))
        × (is_compatible client.role server.role ≡ true)
        × (pending server.recver ≡ rest)
        × (pending client.recver ≡ more)
  handshake_agrees r s from_client from_server at_server at_client rest more h rc rs sb cb se ce =
      let (self, p, q) = server_receives r at_server rest sb se in
      let (other, u, w) = client_receives (server_role r s) at_client more cb ce in
      let (out, x) = client_sends r from_client rc in
      let (out', y) = server_sends (server_role r s) from_server rs in
      let (c, d, fit) = client_side {E = E} r s h in
      (
        _,
        _,
        connects r (server_role r s) from_client at_client x u d,
        accepts r s from_server at_server h p y,
        refl,
        refl,
        fit,
        q,
        w,
      )

  -- A client and a server that both only publish, or both only subscribe: a server whose stream
  -- delivers the client's setup, in any pieces, answers `RoleIncompatible`.
  pub handshake_refused :
      (r s : Role) (from_server : SendStream E) (at_server : Reader E) (rest : List ℕ)
      → meets r s ≡ false
      → All IsByte (pending at_server)
      → pending at_server ≡ client_wire (client_setup r) ++ rest
      → accept_role k v s from_server at_server ≡ returned (err (role_incompatible r s))
  unfolding accept_role settle
  handshake_refused r s from_server at_server rest h bytes e =
      let (_, p, _) = server_receives r at_server rest bytes e in rw (p, answer_refuses r s h) refl
