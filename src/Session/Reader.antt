-- ===== src/Session/Reader.antt =====
-- moq-transport/src/session/reader.rs: values are read off a stream that delivers its bytes in pieces.
pub mod Streaming
pub mod Chunks
use linode_moq.Prelude.{
  ℕ, ◌+◌, ◌-◌, List, [], ◌∷◌, ◌++◌, Option, none, some, Bool, true, false, if◌then◌else◌, leb,
  length, take, drop,
}
use linode_moq.Coding.Outcome.{DecodeError, Outcome, ok, err, panic}
use linode_moq.Coding.Buffer.{Buf, CursorBuf}
use linode_moq.Coding.Decoder.{Decoder}
use linode_moq.Session.Error.{SessionError, transport, decode}

-- The results of the calls of `RecvStream::read_buf` that are still to come: the bytes it appends,
-- then `false` at the end of the stream, or an error of the transport.
pub data RecvStream (E : Type 0) : Type 0 where
  chunk : List ℕ → RecvStream E → RecvStream E
  ended : RecvStream E
  broken : E → RecvStream E

pub record Reader (E : Type 0) : Type 0 where
  pub stream : RecvStream E
  pub buffer : List ℕ

-- One turn of the outer loop: a value and the buffer advanced, `required`, another error, a panic.
pub data Attempt (A : Type 0) : Type 0 where
  found : A → List ℕ → Attempt A
  needs : ℕ → Attempt A
  failed : DecodeError → Attempt A
  panicked : Attempt A

module _ {C A : Type 0} (k : CursorBuf C) (d : Decoder C A) where
  -- `self.buffer.advance(cursor.position())`, and the match on the error.
  abbrev pub attempted : (buffer : List ℕ) → Outcome DecodeError (A × C) → Attempt A
  attempted buffer (ok (msg, cursor)) =
      found msg (drop (length buffer - k.buf.remaining cursor) buffer)
  attempted buffer (err (DecodeError.more n)) = needs (length buffer + n)
  attempted buffer (err e) = failed e
  attempted buffer panic = panicked

  unfoldable pub attempt : List ℕ → Attempt A
  attempt buffer = attempted buffer (d (k.new buffer))

module _ {C A E : Type 0} (k : CursorBuf C) (d : Decoder C A) where
  -- The inner loop, and the outer one behind its `break`.
  unfoldable pub read_more : ℕ → List ℕ → RecvStream E → Outcome (SessionError E) (A × Reader E)
  read_more required buffer ended = err (decode (DecodeError.more (required - length buffer)))
  read_more required buffer (broken e) = err (transport e)
  read_more required buffer (chunk bytes stream) =
      let grown = buffer ++ bytes in
      let waiting = read_more required grown stream in
      if leb required (length grown)
      then elim (attempt k d grown) [
        | found msg rest ↦ ok (msg, record { stream = stream; buffer = rest })
        | needs n ↦ read_more n grown stream
        | failed e ↦ err (decode e)
        | panicked ↦ panic
      ]
      else waiting

  -- `Reader::decode`
  unfoldable pub reader_decode : Reader E → Outcome (SessionError E) (A × Reader E)
  reader_decode self = elim (attempt k d self.buffer) [
    | found msg rest ↦ ok (msg, record { stream = self.stream; buffer = rest })
    | needs n ↦ read_more n self.buffer self.stream
    | failed e ↦ err (decode e)
    | panicked ↦ panic
  ]

-- What `read_chunk` and `done` do, whatever is read.
module _ {E : Type 0} where
  -- `RecvStream::read_chunk` on a stream given by its reads: at most `max` bytes of the next one, of
  -- which the others stay for later.
  unfoldable pub stream_read_chunk :
      ℕ → RecvStream E → Outcome (SessionError E) (Option (List ℕ)) × RecvStream E
  stream_read_chunk max (chunk bytes stream) = (
    ok (some (take max bytes)),
    if leb (length bytes) max then stream else chunk (drop max bytes) stream,
  )
  stream_read_chunk max ended = (ok none, ended)
  stream_read_chunk max (broken e) = (err (transport e), broken e)

  -- `Reader::read_chunk`: what was read before comes first.
  unfoldable pub reader_read_chunk :
      ℕ → Reader E → Outcome (SessionError E) (Option (List ℕ)) × Reader E
  unfolding stream_read_chunk
  reader_read_chunk max self = elim self.buffer [
    | [] ↦
        let (read, stream) = stream_read_chunk max self.stream in
        (read, record self { stream = stream })
    | x ∷ xs ↦ (ok (some (take max (x ∷ xs))), record self { buffer = drop max (x ∷ xs) })
  ]

  -- `Reader::done`: whether the stream ends where nothing is left of what was read.
  unfoldable pub reader_done : Reader E → Outcome (SessionError E) Bool × Reader E
  reader_done self = elim self.buffer [
    | [] ↦ elim self.stream [
      | chunk bytes stream ↦ (ok false, record { stream = stream; buffer = bytes })
      | ended ↦ (ok true, self)
      | broken e ↦ (err (transport e), self)
    ]
    | _ ∷ _ ↦ (ok false, self)
  ]
