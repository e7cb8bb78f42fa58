-- ===== src/Session/Writer/Delivery.antt =====
-- What the stream of a `Writer` has taken.
use linode_moq.Prelude.{
  ℕ, ◌+◌, ◌^◌, ◌<◌, ◌≤◌, ◌≡◌, refl, ap, ◌∙◌, List, [], ◌∷◌, ◌++◌, append_assoc, append-nil, length,
  take, drop, take-append-drop, length-drop, take_sum, arith,
}
use linode_moq.Coding.Buffer.{VecBuf}
use linode_moq.Coding.Encoder.{Encoder}
use linode_moq.Coding.Rules.Writes.{Writes}
use linode_moq.Session.Error.{transport}
use linode_moq.Session.Writer.{
  SendStream, takes, broken, waits, Written, finished, failed, unfinished, flush, buffered,
  writer_encode,
}

module _ {E : Type 0} where
  -- How many bytes a stream takes before it breaks or waits for ever.
  unfoldable pub capacity : SendStream E → ℕ
  capacity (takes n stream) = n + capacity stream
  capacity (broken e) = 0
  capacity waits = 0

  flush_delivers :
      (stream : SendStream E) (sent bs : List ℕ)
      → length bs ≤ capacity stream
      → (stream' : SendStream E) × (flush stream sent bs ≡ finished (sent ++ bs) stream')
  unfolding flush capacity
  flush_delivers stream sent [] h = (stream, rw append-nil refl)
  flush_delivers (takes n stream) sent (x ∷ xs) h =
      let (stream', p) =
        flush_delivers stream (sent ++ take n (x ∷ xs)) (drop n (x ∷ xs))
          (omega (arith, h, length-drop n (x ∷ xs))) in
      (
        stream',
        p
            ∙ ap (λ t. finished t stream')
                (append_assoc sent (take n (x ∷ xs)) (drop n (x ∷ xs))
                  ∙ ap (λ t. sent ++ t) (take-append-drop n (x ∷ xs))),
      )
  flush_delivers (broken e) sent (x ∷ xs) h = absurd (omega arith)
  flush_delivers waits sent (x ∷ xs) h = absurd (omega arith)

  -- What a call comes to at the end of a stream that has taken `sent`.
  unfoldable pub ending : SendStream E → List ℕ → Written E
  ending (takes n stream) sent = ending stream sent
  ending (broken e) sent = failed sent (transport e)
  ending waits sent = unfinished sent

  flush_stops :
      (stream : SendStream E) (sent bs : List ℕ)
      → capacity stream < length bs
      → flush stream sent bs ≡ ending stream (sent ++ take (capacity stream) bs)
  unfolding flush capacity ending
  flush_stops stream sent [] h = absurd (omega arith)
  flush_stops (takes n stream) sent (x ∷ xs) h =
      flush_stops stream (sent ++ take n (x ∷ xs)) (drop n (x ∷ xs))
        (omega (arith, h, length-drop n (x ∷ xs)))
      ∙ ap (λ t. ending stream t)
          (append_assoc sent (take n (x ∷ xs)) (take (capacity stream) (drop n (x ∷ xs)))
            ∙ ap (λ t. sent ++ t)
                (take_sum n (capacity stream) (n + capacity stream) (x ∷ xs) refl))
  flush_stops (broken e) sent (x ∷ xs) h = rw append-nil refl
  flush_stops waits sent (x ∷ xs) h = rw append-nil refl

  module _ {V : Type 0} (v : VecBuf V) where
    pub flushed :
        (stream : SendStream E) {msg : Encoder V} {bs : List ℕ}
        → Writes v.buf_mut msg bs
        → length bs < 2 ^ 63
        → writer_encode v stream msg ≡ flush stream [] bs
    unfolding writer_encode buffered
    flushed stream writes small =
        let (buffer, p, q, _) = writes.at v.new (omega (arith, v.room_new)) in
        rw (p, q, v.written_new) refl

    -- A value whose encoder writes fewer than 2^63 bytes, on a stream that takes as many, however
    -- many at a time: `Writer::encode` returns, and the stream has taken those bytes.
    pub writer_encode_delivers :
        (stream : SendStream E) {msg : Encoder V} {bs : List ℕ}
        → Writes v.buf_mut msg bs
        → length bs < 2 ^ 63
        → length bs ≤ capacity stream
        → (stream' : SendStream E) × (writer_encode v stream msg ≡ finished bs stream')
    writer_encode_delivers stream {bs = bs} writes small room =
        let (stream', p) = flush_delivers stream [] bs room in
        (stream', flushed stream writes small ∙ p)

    -- A value whose encoder writes fewer than 2^63 bytes, on a stream that takes fewer of them before
    -- it breaks or waits: `Writer::encode` answers the error of the transport or waits, and the stream
    -- has taken as many bytes of the front as it takes.
    pub writer_encode_stops :
        (stream : SendStream E) {msg : Encoder V} {bs : List ℕ}
        → Writes v.buf_mut msg bs
        → length bs < 2 ^ 63
        → capacity stream < length bs
        → writer_encode v stream msg ≡ ending stream (take (capacity stream) bs)
    writer_encode_stops stream {bs = bs} writes small short =
        flushed stream writes small ∙ flush_stops stream [] bs short
