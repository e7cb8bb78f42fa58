-- ===== src/Session/Writer.antt =====
-- moq-transport/src/session/writer.rs: values are written to a stream that takes them in pieces.
pub mod Delivery
pub mod Patience
use linode_moq.Prelude.{ℕ, List, [], ◌∷◌, ◌++◌, ◌==◌, if◌then◌else◌, length, take, drop}
use linode_moq.Coding.Outcome.{EncodeError, Outcome, ok, err, panic}
use linode_moq.Coding.Buffer.{VecBuf}
use linode_moq.Coding.Encoder.{Encoder}
use linode_moq.Session.Error.{SessionError, transport, encode}

-- The results of the calls of `SendStream::write` that are still to come: how many bytes it takes
-- at most, then an error of the transport, or a wait without an end.
pub data SendStream (E : Type 0) : Type 0 where
  takes : ℕ → SendStream E → SendStream E
  broken : E → SendStream E
  waits : SendStream E

-- What a call of the writer comes to, each with the bytes that the stream has taken.
pub data Written (E : Type 0) : Type 0 where
  finished : List ℕ → SendStream E → Written E
  failed : List ℕ → SessionError E → Written E
  unfinished : List ℕ → Written E
  panicked : Written E

module _ {E : Type 0} where
  -- `while !self.buffer.is_empty() { write_buf }`, with the bytes taken so far.
  unfoldable pub flush : SendStream E → List ℕ → List ℕ → Written E
  flush stream sent [] = finished sent stream
  flush (takes n stream) sent (x ∷ xs) = flush stream (sent ++ take n (x ∷ xs)) (drop n (x ∷ xs))
  flush (broken e) sent (x ∷ xs) = failed sent (transport e)
  flush waits sent (x ∷ xs) = unfinished sent

  -- `Writer::write`, with the bytes taken so far: a write of no bytes is an error here.
  unfoldable pub writer_write : SendStream E → List ℕ → List ℕ → Written E
  writer_write stream sent [] = finished sent stream
  writer_write (takes n stream) sent (x ∷ xs) =
      let rest = writer_write stream (sent ++ take n (x ∷ xs)) (drop n (x ∷ xs)) in
      if n == 0 then failed sent (encode (EncodeError.more (length (x ∷ xs)))) else rest
  writer_write (broken e) sent (x ∷ xs) = failed sent (transport e)
  writer_write waits sent (x ∷ xs) = unfinished sent

  module _ {V : Type 0} (v : VecBuf V) where
    -- The message is encoded to the buffer, which was cleared.
    buffered : SendStream E → Outcome EncodeError V → Written E
    buffered stream (ok buffer) = flush stream [] (v.buf_mut.written buffer)
    buffered stream (err e) = failed [] (encode e)
    buffered stream panic = panicked

    -- `Writer::encode`
    unfoldable pub writer_encode : SendStream E → Encoder V → Written E
    unfolding buffered
    writer_encode stream msg = buffered stream (msg v.new)
