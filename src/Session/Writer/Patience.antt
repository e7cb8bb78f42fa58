-- ===== src/Session/Writer/Patience.antt =====
-- What the stream of a `Writer` has taken after several calls, each of which takes some of its writes.
use linode_moq.Prelude.{
  ℕ, suc, zero, ◌+◌, ◌^◌, ◌<◌, ◌≤◌, ◌≡◌, refl, ap, ◌∙◌, List, [], ◌∷◌, ◌++◌, arith, length,
  length-drop, append_assoc, append-nil, take, drop, take-append-drop,
}
use linode_moq.Coding.Buffer.{VecBuf}
use linode_moq.Coding.Encoder.{Encoder}
use linode_moq.Coding.Rules.Writes.{Writes}
use linode_moq.Session.Writer.{
  SendStream, takes, broken, waits, Written, finished, flush, writer_encode, writer_write,
}
use linode_moq.Session.Writer.Delivery.{flushed}

module _ {E : Type 0} where
  -- How many times a stream takes a byte or more before it fails to.
  unfoldable pub patience : SendStream E → ℕ
  patience (takes zero stream) = 0
  patience (takes (suc n) stream) = suc (patience stream)
  patience (broken e) = 0
  patience waits = 0

  -- A call on a stream sends some bytes and returns, and takes one write for each byte at most.
  abbrev pub Delivers : SendStream E → List ℕ → Written E → Type 0
  Delivers stream bs out =
      (stream' : SendStream E) × (out ≡ finished bs stream')
      × (patience stream ≤ length bs + patience stream')

  pub flush-Delivers :
      (stream : SendStream E) (sent bs : List ℕ)
      → length bs ≤ patience stream
      → (stream' : SendStream E) × (flush stream sent bs ≡ finished (sent ++ bs) stream')
        × (patience stream ≤ length bs + patience stream')
  unfolding flush patience
  flush-Delivers stream sent [] h = (stream, rw append-nil refl, omega arith)
  flush-Delivers (takes zero stream) sent (x ∷ xs) h = absurd (omega arith)
  flush-Delivers (takes (suc n) stream) sent (x ∷ xs) h =
      let (stream', p, q) =
        flush-Delivers stream (sent ++ (x ∷ take n xs)) (drop n xs)
          (omega (arith, h, length-drop n xs)) in
      (
        stream',
        p
            ∙ ap (λ t. finished t stream')
                (append_assoc sent (x ∷ take n xs) (drop n xs)
                  ∙ ap (λ t. sent ++ (x ∷ t)) (take-append-drop n xs)),
        omega (arith, q, length-drop n xs),
      )
  flush-Delivers (broken e) sent (x ∷ xs) h = absurd (omega arith)
  flush-Delivers waits sent (x ∷ xs) h = absurd (omega arith)

  writer_write-takes :
      (n : ℕ) (stream : SendStream E) (sent xs : List ℕ) (x : ℕ)
      → writer_write (takes (suc n) stream) sent (x ∷ xs)
        ≡ writer_write stream (sent ++ (x ∷ take n xs)) (drop n xs)
  unfolding writer_write
  writer_write-takes n stream sent xs x = ground arith

  pub write-Delivers :
      (stream : SendStream E) (sent bs : List ℕ)
      → length bs ≤ patience stream
      → (stream' : SendStream E) × (writer_write stream sent bs ≡ finished (sent ++ bs) stream')
        × (patience stream ≤ length bs + patience stream')
  unfolding writer_write patience
  write-Delivers stream sent [] h = (stream, rw append-nil refl, omega arith)
  write-Delivers (takes zero stream) sent (x ∷ xs) h = absurd (omega arith)
  write-Delivers (takes (suc n) stream) sent (x ∷ xs) h =
      let (stream', p, q) =
        write-Delivers stream (sent ++ (x ∷ take n xs)) (drop n xs)
          (omega (arith, h, length-drop n xs)) in
      (
        stream',
        writer_write-takes n stream sent xs x
            ∙ p
            ∙ ap (λ t. finished t stream')
                (append_assoc sent (x ∷ take n xs) (drop n xs)
                  ∙ ap (λ t. sent ++ (x ∷ t)) (take-append-drop n xs)),
        omega (arith, q, length-drop n xs),
      )
  write-Delivers (broken e) sent (x ∷ xs) h = absurd (omega arith)
  write-Delivers waits sent (x ∷ xs) h = absurd (omega arith)

  module _ {V : Type 0} (v : VecBuf V) where
    pub encode-Delivers :
        (stream : SendStream E) {msg : Encoder V} {bs : List ℕ}
        → Writes v.buf_mut msg bs
        → length bs < 2 ^ 63
        → length bs ≤ patience stream
        → Delivers stream bs (writer_encode v stream msg)
    encode-Delivers stream {bs = bs} writes small room =
        let (stream', p, q) = flush-Delivers stream [] bs room in
        (stream', flushed v stream writes small ∙ p, q)
