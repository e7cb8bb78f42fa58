-- ===== src/Properties/Data.antt =====
-- What the codecs in moq-transport/src/data: headers of data streams, objects and datagrams promise.
use linode_moq.Prelude.{ℕ, List, ◌++◌, ◌≤◌, ◌≡◌, length, []}
use linode_moq.Coding.Buffer.{Buf, BufMut}
use linode_moq.Coding.RoundTrip.{Sends, Receives, round_trip}
use linode_moq.Coding.Rules.Ensures.{Tame}
use linode_moq.Data.Datagram.{
  Datagram, DatagramFits, datagram_wire, datagram_encode, datagram_decode, datagram_encode-Writes,
  datagram_decode-ReadsAll, datagram_decode-Ensures,
}
use linode_moq.Data.Header.{
  Header, HeaderFits, header_wire, header_encode, header_decode, header-IsCodec,
}
use linode_moq.Data.SubgroupObject.{
  SubgroupObject, SubgroupObjectFits, subgroup_object_wire, subgroup_object_encode,
  subgroup_object_decode, subgroup_object-IsCodec,
}
use linode_moq.Data.TrackObject.{
  TrackObject, TrackObjectFits, track_object_wire, track_object_encode, track_object_decode,
  track_object-IsCodec,
}

module _ {R W : Type 0} ⦃b : Buf R⦄ ⦃c : BufMut W⦄ where
  -- A stream header whose fields fit the format: where there is room the encoder returns and
  -- appends its type and its fields; and the decoder, on a buffer that begins with those bytes,
  -- returns the value and leaves what follows.
  pub header_round_trip :
      (m : Header) (w : W) (r : R) (rest : List ℕ)
      → HeaderFits m
      → length (header_wire m) ≤ c.remaining_mut w
      → b.contents r ≡ header_wire m ++ rest
      → Sends c (header_encode m) (header_wire m) w × Receives b header_decode m rest r
  header_round_trip m w r rest h room e = round_trip header-IsCodec m w r rest h room e

  -- An object of a subgroup whose numbers fit the format, and whose status is Object unless it is
  -- empty: where there is room the encoder returns and appends its number and size, and its status
  -- where it is empty; and the decoder, on a buffer that begins with those bytes, returns the value
  -- and leaves what follows.
  pub subgroup_object_round_trip :
      (m : SubgroupObject) (w : W) (r : R) (rest : List ℕ)
      → SubgroupObjectFits m
      → length (subgroup_object_wire m) ≤ c.remaining_mut w
      → b.contents r ≡ subgroup_object_wire m ++ rest
      → Sends c (subgroup_object_encode m) (subgroup_object_wire m) w
        × Receives b subgroup_object_decode m rest r
  subgroup_object_round_trip m w r rest h room e =
      round_trip subgroup_object-IsCodec m w r rest h room e

  -- An object of a track whose numbers fit the format, and whose status is Object unless it is
  -- empty: where there is room the encoder returns and appends its numbers and size, and its status
  -- where it is empty; and the decoder, on a buffer that begins with those bytes, returns the value
  -- and leaves what follows.
  pub track_object_round_trip :
      (m : TrackObject) (w : W) (r : R) (rest : List ℕ)
      → TrackObjectFits m
      → length (track_object_wire m) ≤ c.remaining_mut w
      → b.contents r ≡ track_object_wire m ++ rest
      → Sends c (track_object_encode m) (track_object_wire m) w
        × Receives b track_object_decode m rest r
  track_object_round_trip m w r rest h room e = round_trip track_object-IsCodec m w r rest h room e

module _ {R W : Type 0} ⦃b : Buf R⦄ ⦃c : BufMut W⦄ where
  -- A datagram whose fields fit the format and whose payload has the length it says: where there is
  -- room the encoder returns and appends its wire form; and the decoder, on those bytes and no
  -- others, returns the datagram and leaves nothing.
  pub datagram_round_trip :
      (m : Datagram) (w : W) (r : R)
      → DatagramFits m
      → length (datagram_wire m) ≤ c.remaining_mut w
      → b.contents r ≡ datagram_wire m
      → Sends c (datagram_encode m) (datagram_wire m) w × Receives b datagram_decode m [] r
  datagram_round_trip m w r h room e =
      let (w', p, q, _) = (datagram_encode-Writes m h).at w room in
      ((w', p, q), (datagram_decode-ReadsAll m h).at r e)

module _ {R : Type 0} ⦃b : Buf R⦄ where
  -- On any buffer the decoder of datagrams does not panic: it answers an error, or returns a
  -- datagram that fits the format, whose payload has the length it says, and leaves a tail of the
  -- buffer.
  pub datagram_decode-Tame : (r : R) → Tame b DatagramFits r (datagram_decode r)
  datagram_decode-Tame r = datagram_decode-Ensures.at r
