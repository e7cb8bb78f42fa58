-- ===== src/Session/Reader/Chunks.antt =====
-- moq-transport/src/session/reader.rs: a payload is read in chunks.
use linode_moq.Prelude.{
  ℕ, zero, suc, ◌≤◌, ◌≡◌, refl, sym, ap, ◌∙◌, List, [], ◌∷◌, ◌++◌, Option, none, some, true, inl,
  inr, arith, leb, length, take, drop, append_assoc, take-append-drop, Bool-cases,
}
use linode_moq.Coding.Outcome.{Outcome, ok, err, panic}
use linode_moq.Session.Error.{SessionError}
use linode_moq.Session.Reader.{
  Reader, RecvStream, chunk, ended, broken, reader_read_chunk, stream_read_chunk, reader_done,
}
use linode_moq.Session.Reader.Streaming.{pending, received}

length-take_le : (n : ℕ) (xs : List ℕ) → length (take n xs) ≤ n
length-take_le zero xs = omega arith
length-take_le (suc n) [] = omega arith
length-take_le (suc n) (x ∷ xs) = omega (arith, length-take_le n xs)

take_whole : (n : ℕ) (xs : List ℕ) → leb (length xs) n ≡ true → take n xs ≡ xs
take_whole zero [] h = refl
take_whole zero (x ∷ xs) h = absurd (ground arith)
take_whole (suc n) [] h = refl
take_whole (suc n) (x ∷ xs) h = ap (λ l. x ∷ l) (take_whole n xs (ground arith))

module _ {E : Type 0} where
  -- A chunk is the front of what a reader is still to hand out, and has `max` bytes at most.
  abbrev pub Splits : ℕ → List ℕ → Outcome (SessionError E) (Option (List ℕ)) × Reader E → Type 0
  Splits max before (ok (some c), self) = (before ≡ c ++ pending self) × (length c ≤ max)
  Splits max before (ok none, self) = before ≡ []
  Splits max before (err e, self) = before ≡ pending self
  Splits max before (panic, self) = ⊥

  splits :
      (max : ℕ) (stream : RecvStream E) (buffer : List ℕ)
      → Splits max
          (buffer ++ received stream)
          (reader_read_chunk max (record { stream = stream; buffer = buffer }))
  unfolding reader_read_chunk stream_read_chunk received
  splits max stream (x ∷ xs) = (
    sym (ap (λ l. l ++ received stream) (take-append-drop max (x ∷ xs)))
        ∙ append_assoc (take max (x ∷ xs)) (drop max (x ∷ xs)) (received stream),
    length-take_le max (x ∷ xs),
  )
  splits max (chunk bytes stream) [] = elim (Bool-cases (leb (length bytes) max)) [
    | inl whole ↦ rw whole (
      ap (λ l. l ++ received stream) (sym (take_whole max bytes whole)),
      length-take_le max bytes,
    )
    | inr part ↦ rw part (
      sym (ap (λ l. l ++ received stream) (take-append-drop max bytes))
          ∙ append_assoc (take max bytes) (drop max bytes) (received stream),
      length-take_le max bytes,
    )
  ]
  splits max ended [] = refl
  splits max (broken e) [] = refl

  -- Whatever was read before, a chunk is the front of the bytes that the reader is still to hand out,
  -- and has `max` bytes at most; at the end of the stream there are none, and an error takes none.
  pub reader_read_chunk-Splits :
      (max : ℕ) (self : Reader E) → Splits max (pending self) (reader_read_chunk max self)
  reader_read_chunk-Splits max self = splits max self.stream self.buffer

  done_pending :
      (stream : RecvStream E) (buffer : List ℕ)
      → let (end, self) = reader_done (record { stream = stream; buffer = buffer }) in
        (pending self ≡ buffer ++ received stream)
        × (end ≡ ok true → buffer ++ received stream ≡ [])
  unfolding reader_done received
  done_pending stream (x ∷ xs) = (refl, ground arith)
  done_pending (chunk bytes stream) [] = (refl, ground arith)
  done_pending ended [] = (refl, λ _. refl)
  done_pending (broken e) [] = (refl, ground arith)

  -- `done` hands out nothing, and where it answers that a stream is done nothing is left.
  pub reader_done-pending :
      (self : Reader E)
      → let (end, self') = reader_done self in
        (pending self' ≡ pending self) × (end ≡ ok true → pending self ≡ [])
  reader_done-pending self = done_pending self.stream self.buffer
