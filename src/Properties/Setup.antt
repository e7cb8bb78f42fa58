-- ===== src/Properties/Setup.antt =====
-- What the codecs in moq-transport/src/setup: the handshake promise.
use linode_moq.Prelude.{ℕ, List, ◌++◌, ◌≤◌, ◌≡◌, length}
use linode_moq.Coding.Buffer.{Buf, BufMut, VecBuf, CursorBuf}
use linode_moq.Coding.RoundTrip.{Sends, Receives, round_trip}
use linode_moq.Coding.Rules.Ensures.{Tame}
use linode_moq.Setup.Client.{
  Client, ClientParts, ClientFits, client_wire, client_encode, client_decode, client_encode-Writes,
  client_decode-Parses, client_decode-Ensures,
}
use linode_moq.Setup.Server.{
  Server, ServerParts, ServerFits, server_wire, server_encode, server_decode, server_encode-Writes,
  server_decode-Parses, server_decode-Ensures,
}
use linode_moq.Setup.Version.{
  Versions, VersionsFits, versions_wire, versions_encode, versions_decode, versions-IsCodec,
}

module _ {R W : Type 0} ⦃b : Buf R⦄ ⦃c : BufMut W⦄ where
  -- A list of versions that each fit 62 bits: where there is room the encoder returns and appends
  -- their number and each of them; and the decoder, on a buffer that begins with those bytes,
  -- returns the value and leaves what follows.
  pub versions_round_trip :
      (m : Versions) (w : W) (r : R) (rest : List ℕ)
      → VersionsFits m
      → length (versions_wire m) ≤ c.remaining_mut w
      → b.contents r ≡ versions_wire m ++ rest
      → Sends c (versions_encode m) (versions_wire m) w × Receives b versions_decode m rest r
  versions_round_trip m w r rest h room e = round_trip versions-IsCodec m w r rest h room e

module _ {V W : Type 0} ⦃c : BufMut W⦄ (v : VecBuf V) where
  -- A client setup whose versions, parameters and length fit the format, with neither a role nor a
  -- path among the parameters: where there is room, encoding does not fail or panic, and it appends
  -- the type, the length, the versions, and the parameters with the role last.
  pub client_encode_lem :
      (m : Client) (w : W)
      → ClientFits m
      → length (client_wire m) ≤ c.remaining_mut w
      → Sends c (client_encode v m) (client_wire m) w
  client_encode_lem m w h room =
      let (w', p, q, _) = (client_encode-Writes v m h).at w room in (w', p, q)

module _ {R C : Type 0} ⦃b : Buf R⦄ (k : CursorBuf C) where
  -- A client setup that fits the format: the decoder, on a buffer that begins with its wire form,
  -- returns the versions, the role and the other parameters, and leaves what follows.
  pub client_decode_lem :
      (m : Client) (r : R) (rest : List ℕ)
      → ClientFits m
      → b.contents r ≡ client_wire m ++ rest
      → Receives b (client_decode k) m rest r
  client_decode_lem m r rest h e = (client_decode-Parses k m h).reads.at r rest e

  -- On any buffer the decoder of a client setup does not panic: it answers an error, or returns a
  -- client setup whose fields fit the format, without a role or a path among its parameters, and
  -- leaves a tail of the buffer.
  pub client_decode-Tame : (r : R) → Tame b ClientParts r (client_decode k r)
  client_decode-Tame r = (client_decode-Ensures k).at r

module _ {V W : Type 0} ⦃c : BufMut W⦄ (v : VecBuf V) where
  -- A server setup whose versions, parameters and length fit the format, with neither a role nor a
  -- path among the parameters: where there is room, encoding does not fail or panic, and it appends
  -- the type, the length, the versions, and the parameters with the role last.
  pub server_encode_lem :
      (m : Server) (w : W)
      → ServerFits m
      → length (server_wire m) ≤ c.remaining_mut w
      → Sends c (server_encode v m) (server_wire m) w
  server_encode_lem m w h room =
      let (w', p, q, _) = (server_encode-Writes v m h).at w room in (w', p, q)

module _ {R C : Type 0} ⦃b : Buf R⦄ (k : CursorBuf C) where
  -- A server setup that fits the format: the decoder, on a buffer that begins with its wire form,
  -- returns the versions, the role and the other parameters, and leaves what follows.
  pub server_decode_lem :
      (m : Server) (r : R) (rest : List ℕ)
      → ServerFits m
      → b.contents r ≡ server_wire m ++ rest
      → Receives b (server_decode k) m rest r
  server_decode_lem m r rest h e = (server_decode-Parses k m h).reads.at r rest e

  -- On any buffer the decoder of a server setup does not panic: it answers an error, or returns a
  -- server setup whose fields fit the format, without a role or a path among its parameters, and
  -- leaves a tail of the buffer.
  pub server_decode-Tame : (r : R) → Tame b ServerParts r (server_decode k r)
  server_decode-Tame r = (server_decode-Ensures k).at r
