-- ===== src/Properties/Messages.antt =====
-- What the codecs in moq-transport/src/message: control messages promise.
use linode_moq.Prelude.{ℕ, List, ◌++◌, ◌∷◌, ◌≤◌, ◌≡◌, length, arith}
use linode_moq.Coding.Buffer.{Buf, BufMut, VecBuf}
use linode_moq.Coding.RoundTrip.{Sends, Receives, round_trip, AsksForMore}
use linode_moq.Coding.Rules.Ensures.{Tame}
use linode_moq.Message.Union.{Message, message_encode, message_decode}
use linode_moq.Message.Union.Format.{MessageFits, MessageReceived, IsStreamable, message_wire}
use linode_moq.Message.Union.Encoding.{message_encode-Writes}
use linode_moq.Message.Union.Decoding.{message_decode-Reads, message_decode-Parses}
use linode_moq.Message.Union.Safety.{message_decode-Ensures}
use linode_moq.Message.SubscribeOk.{
  SubscribeOk, SubscribeOkFits, subscribe_ok_wire, subscribe_ok_encode, subscribe_ok_decode,
  subscribe_ok-IsCodec,
}
use linode_moq.Message.SubscribeDone.{
  SubscribeDone, SubscribeDoneFits, subscribe_done_wire, subscribe_done_encode,
  subscribe_done_decode, subscribe_done-IsCodec,
}
use linode_moq.Message.SubscribeError.{
  SubscribeError, SubscribeErrorFits, subscribe_error_wire, subscribe_error_encode,
  subscribe_error_decode, subscribe_error-IsCodec,
}
use linode_moq.Message.Fetch.{
  Fetch, FetchFits, fetch_wire, fetch_encode, fetch_decode, fetch-IsCodec,
}
use linode_moq.Message.Announce.{
  Announce, AnnounceFits, announce_wire, announce_encode, announce_decode, announce-IsCodec,
}
use linode_moq.Message.TrackStatus.{
  TrackStatus, TrackStatusFits, track_status_wire, track_status_encode, track_status_decode,
  track_status-IsCodec,
}

module _ {R W : Type 0} ⦃b : Buf R⦄ ⦃c : BufMut W⦄ where
  -- A SUBSCRIBE_OK whose fields fit the format, and whose expiry is not zero milliseconds: where
  -- there is room the encoder returns and appends its fields in order; and the decoder, on a buffer
  -- that begins with those bytes, returns the value and leaves what follows.
  pub subscribe_ok_round_trip :
      (m : SubscribeOk) (w : W) (r : R) (rest : List ℕ)
      → SubscribeOkFits m
      → length (subscribe_ok_wire m) ≤ c.remaining_mut w
      → b.contents r ≡ subscribe_ok_wire m ++ rest
      → Sends c (subscribe_ok_encode m) (subscribe_ok_wire m) w
        × Receives b subscribe_ok_decode m rest r
  subscribe_ok_round_trip m w r rest h room e = round_trip subscribe_ok-IsCodec m w r rest h room e

  -- A SUBSCRIBE_DONE whose fields fit the format, with or without a last object: where there is
  -- room the encoder returns and appends its fields in order; and the decoder, on a buffer that
  -- begins with those bytes, returns the value and leaves what follows.
  pub subscribe_done_round_trip :
      (m : SubscribeDone) (w : W) (r : R) (rest : List ℕ)
      → SubscribeDoneFits m
      → length (subscribe_done_wire m) ≤ c.remaining_mut w
      → b.contents r ≡ subscribe_done_wire m ++ rest
      → Sends c (subscribe_done_encode m) (subscribe_done_wire m) w
        × Receives b subscribe_done_decode m rest r
  subscribe_done_round_trip m w r rest h room e =
      round_trip subscribe_done-IsCodec m w r rest h room e

  -- A SUBSCRIBE_ERROR whose fields fit the format: where there is room the encoder returns and
  -- appends its fields in order; and the decoder, on a buffer that begins with those bytes, returns
  -- the value and leaves what follows.
  pub subscribe_error_round_trip :
      (m : SubscribeError) (w : W) (r : R) (rest : List ℕ)
      → SubscribeErrorFits m
      → length (subscribe_error_wire m) ≤ c.remaining_mut w
      → b.contents r ≡ subscribe_error_wire m ++ rest
      → Sends c (subscribe_error_encode m) (subscribe_error_wire m) w
        × Receives b subscribe_error_decode m rest r
  subscribe_error_round_trip m w r rest h room e =
      round_trip subscribe_error-IsCodec m w r rest h room e

  -- A FETCH whose fields fit the format: where there is room the encoder returns and appends its
  -- fields in order; and the decoder, on a buffer that begins with those bytes, returns the value
  -- and leaves what follows.
  pub fetch_round_trip :
      (m : Fetch) (w : W) (r : R) (rest : List ℕ)
      → FetchFits m
      → length (fetch_wire m) ≤ c.remaining_mut w
      → b.contents r ≡ fetch_wire m ++ rest
      → Sends c (fetch_encode m) (fetch_wire m) w × Receives b fetch_decode m rest r
  fetch_round_trip m w r rest h room e = round_trip fetch-IsCodec m w r rest h room e

  -- An ANNOUNCE whose fields fit the format: where there is room the encoder returns and appends
  -- its fields in order; and the decoder, on a buffer that begins with those bytes, returns the
  -- value and leaves what follows.
  pub announce_round_trip :
      (m : Announce) (w : W) (r : R) (rest : List ℕ)
      → AnnounceFits m
      → length (announce_wire m) ≤ c.remaining_mut w
      → b.contents r ≡ announce_wire m ++ rest
      → Sends c (announce_encode m) (announce_wire m) w × Receives b announce_decode m rest r
  announce_round_trip m w r rest h room e = round_trip announce-IsCodec m w r rest h room e

  -- A TRACK_STATUS whose fields fit the format: where there is room the encoder returns and appends
  -- its fields in order; and the decoder, on a buffer that begins with those bytes, returns the
  -- value and leaves what follows.
  pub track_status_round_trip :
      (m : TrackStatus) (w : W) (r : R) (rest : List ℕ)
      → TrackStatusFits m
      → length (track_status_wire m) ≤ c.remaining_mut w
      → b.contents r ≡ track_status_wire m ++ rest
      → Sends c (track_status_encode m) (track_status_wire m) w
        × Receives b track_status_decode m rest r
  track_status_round_trip m w r rest h room e = round_trip track_status-IsCodec m w r rest h room e

module _ {V W : Type 0} ⦃c : BufMut W⦄ (v : VecBuf V) where
  -- A control message whose fields and length fit the format: where there is room, encoding does
  -- not fail or panic, and it appends the type, the length of the body, and the body.
  pub message_encode_lem :
      (m : Message) (w : W)
      → MessageFits m
      → length (message_wire m) ≤ c.remaining_mut w
      → Sends c (message_encode v m) (message_wire m) w
  message_encode_lem m w h room =
      let (w', p, q, _) = (message_encode-Writes v m h).at w room in (w', p, q)

module _ {R : Type 0} ⦃b : Buf R⦄ where
  -- A control message whose fields and length fit the format: the decoder, on a buffer that begins
  -- with its wire form, returns the message and leaves what follows.
  pub message_decode_lem :
      (m : Message) (r : R) (rest : List ℕ)
      → MessageFits m
      → b.contents r ≡ message_wire m ++ rest
      → Receives b message_decode m rest r
  message_decode_lem m r rest h e = (message_decode-Reads m h).at r rest e

  -- A control message that fits the format and has no absolute filter: on a proper front of its
  -- wire form the decoder asks for more, and for no more bytes than are missing.
  pub message_cut_short :
      (m : Message) (r : R) (x : ℕ) (back : List ℕ)
      → MessageFits m
      → IsStreamable m
      → message_wire m ≡ b.contents r ++ (x ∷ back)
      → AsksForMore b message_decode (length (x ∷ back)) r
  message_cut_short m r x back h s e =
      let p = message_decode-Parses m h s in
      let (n, q, k) = p.hungry.at r x back e in (n, q, omega (arith, k))

  -- On any buffer the decoder of control messages does not panic: it answers an error, or returns a
  -- message whose fields fit the format, save that a range may lack its end, and leaves a tail of
  -- the buffer.
  pub message_decode-Tame : (r : R) → Tame b MessageReceived r (message_decode r)
  message_decode-Tame r = message_decode-Ensures.at r
