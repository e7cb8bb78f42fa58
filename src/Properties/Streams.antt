-- ===== src/Properties/Streams.antt =====
-- What moq-transport/src/session/reader.rs and writer.rs promise of control messages.
use linode_moq.Prelude.{ℕ, suc, ◌≤◌, ◌<◌, ◌^◌, ◌≡◌, refl, ◌∙◌, true, List, ◌∷◌, ◌++◌, All, length}
use linode_moq.Prelude.BigEndian.{IsByte}
use linode_moq.Coding.Outcome.{DecodeError, ok, err}
use linode_moq.Coding.Buffer.{CursorBuf, VecBuf}
use linode_moq.Message.Union.{Message, message_encode, message_decode}
use linode_moq.Message.Union.Encoding.{message_encode-Writes}
use linode_moq.Session.Writer.{SendStream, finished, writer_encode}
use linode_moq.Session.Writer.Delivery.{capacity, writer_encode_delivers}
use linode_moq.Message.Union.Format.{MessageFits, IsStreamable, message_wire}
use linode_moq.Message.Union.Decoding.{message_decode-Parses}
use linode_moq.Session.Reader.{Reader, reader_decode, attempt}
use linode_moq.Session.Error.{decode}
use linode_moq.Message.Union.Fragment.{fragment_wire, message_decode-Stops}
use linode_moq.Message.Subscribe.{Subscribe, SubscribeParts}
use linode_moq.Message.SubscribeRange.{is_absolute}
use linode_moq.Coding.Varint.Format.{IsVarint}
use linode_moq.Session.Reader.Streaming.{
  pending, closing_error, reader_decode-streams, reader_decode-short,
}

module _ {C E : Type 0} (k : CursorBuf C) where
  -- A control message that fits the format and has no absolute filter, at the front of all bytes
  -- that a reader holds and its stream will deliver, however they are cut into pieces: the reader
  -- returns the message, and what it holds and will receive then is what follows the message.
  pub message_streams :
      (m : Message) (self : Reader E) (rest : List ℕ)
      → MessageFits m
      → IsStreamable m
      → All IsByte (pending self)
      → pending self ≡ message_wire m ++ rest
      → (self' : Reader E) × (reader_decode k (message_decode ⦃b = k.buf⦄) self ≡ ok (m, self'))
        × (pending self' ≡ rest)
  message_streams m self rest h s bytes e =
      reader_decode-streams k (message_decode ⦃b = k.buf⦄) (message_decode-Parses ⦃b = k.buf⦄ m h s)
        self rest bytes e

  -- A control message that fits the format and has no absolute filter, of which a reader holds and
  -- will receive a proper front only: the reader answers the error of the transport where the stream
  -- breaks, and where it ends `More`, with at least one byte and no more than are missing.
  pub message_stream_ends :
      (m : Message) (self : Reader E) (x : ℕ) (back : List ℕ)
      → MessageFits m
      → IsStreamable m
      → All IsByte (pending self)
      → message_wire m ≡ pending self ++ (x ∷ back)
      → (n : ℕ) × (n ≤ length back)
        × (reader_decode k (message_decode ⦃b = k.buf⦄) self
            ≡ err (closing_error (suc n) self.stream))
  message_stream_ends m self x back h s bytes e =
      reader_decode-short k (message_decode ⦃b = k.buf⦄) (message_decode-Parses ⦃b = k.buf⦄ m h s)
        self x back bytes e

  -- A SUBSCRIBE with an absolute filter, of which a reader holds the bytes up to the range and no
  -- more: the reader answers `MissingField`, whatever its stream is still to deliver.
  pub subscribe_fragment :
      (m : Subscribe) (size : ℕ) (self : Reader E)
      → SubscribeParts m
      → IsVarint size
      → is_absolute m.filter_type ≡ true
      → All IsByte self.buffer
      → self.buffer ≡ fragment_wire m size
      → reader_decode k (message_decode ⦃b = k.buf⦄) self ≡ err (decode DecodeError.missing_field)
  unfolding reader_decode attempt
  subscribe_fragment m size self h fits absolute bytes e =
      let stops = message_decode-Stops ⦃b = k.buf⦄ m size h fits absolute in
      rw
        (
          reader_decode,
          attempt,
          stops.at (k.new self.buffer) (k.contents_new self.buffer bytes ∙ e),
        )
        refl

module _ {C V E : Type 0} (k : CursorBuf C) (v : VecBuf V) where
  -- A control message that fits the format and has no absolute filter, written to a stream that
  -- takes its bytes, and a reader that holds and will receive those bytes and more, the two cut into
  -- pieces in any way: the writer returns when the stream has taken the wire form, and the reader
  -- returns the message and is left with what follows.
  pub message_crosses :
      (m : Message) (out : SendStream E) (self : Reader E) (rest : List ℕ)
      → MessageFits m
      → IsStreamable m
      → length (message_wire m) < 2 ^ 63
      → length (message_wire m) ≤ capacity out
      → All IsByte (pending self)
      → pending self ≡ message_wire m ++ rest
      → (out' : SendStream E) × (self' : Reader E) × (writer_encode v out
            (message_encode ⦃c = v.buf_mut⦄ v m)
          ≡ finished (message_wire m) out')
        × (reader_decode k (message_decode ⦃b = k.buf⦄) self ≡ ok (m, self'))
        × (pending self' ≡ rest)
  message_crosses m out self rest h s small room bytes e =
      let (out', p) =
        writer_encode_delivers v out (message_encode-Writes ⦃c = v.buf_mut⦄ v m h) small room in
      let (self', q, r) = message_streams k m self rest h s bytes e in (out', self', p, q, r)
