-- ===== src/Session/Reader/Streaming.antt =====
-- `Reader::decode` on a stream: the pieces in which the bytes come do not matter.
use linode_moq.Prelude.{
  ℕ, suc, ◌+◌, ◌-◌, ◌≤◌, ◌<◌, ◌≡◌, refl, sym, ap, subst, inl, inr, List, [], ◌∷◌, ◌++◌, ◌∙◌,
  append_assoc, append-nil, true, leb, leb→lt, le→leb, Bool-cases, length, length-append,
  drop-length-append, front_cases, arith, All, All-append_left,
}
use linode_moq.Prelude.BigEndian.{IsByte}
use linode_moq.Coding.Outcome.{DecodeError, ok, err}
use linode_moq.Coding.Buffer.{CursorBuf}
use linode_moq.Coding.Decoder.{Decoder}
use linode_moq.Coding.Rules.Parses.{Parses}
use linode_moq.Session.Error.{SessionError, transport, decode}
use linode_moq.Session.Reader.{
  RecvStream, chunk, ended, broken, Reader, found, needs, attempt, read_more, reader_decode,
}

module _ {E : Type 0} where
  -- All bytes a stream is still to deliver.
  unfoldable pub received : RecvStream E → List ℕ
  received (chunk bytes stream) = bytes ++ received stream
  received ended = []
  received (broken e) = []

  -- All bytes a reader is still to hand out.
  abbrev pub pending : Reader E → List ℕ
  pending self = self.buffer ++ received self.stream

  -- The error at the end of a stream where `n` more bytes are asked for.
  unfoldable pub closing_error : ℕ → RecvStream E → SessionError E
  closing_error n (chunk bytes stream) = closing_error n stream
  closing_error n ended = decode (DecodeError.more n)
  closing_error n (broken e) = transport e

-- A front of the whole is cut off before some byte.
cut_at :
    (xs ys : List ℕ) (x : ℕ) (back : List ℕ) {wire : List ℕ}
    → wire ≡ (xs ++ ys) ++ (x ∷ back)
    → (y : ℕ) × (more : List ℕ) × (wire ≡ xs ++ (y ∷ more))
cut_at xs [] x back e = (x, back, rw append-nil at e)
cut_at xs (y ∷ ys) x back e = (y, ys ++ (x ∷ back), e ∙ append_assoc xs (y ∷ ys) (x ∷ back))

module _ {C A : Type 0} (k : CursorBuf C) (d : Decoder C A) {wire : List ℕ} {msg : A}
    (p : Parses k.buf d wire msg) where
  attempt_whole :
      (rest : List ℕ) → All IsByte (wire ++ rest) → attempt k d (wire ++ rest) ≡ found msg rest
  unfolding attempt
  attempt_whole rest h =
      let (cursor, q, r) = p.reads.at (k.new (wire ++ rest)) rest (k.contents_new _ h) in
      let size : length (wire ++ rest) - k.buf.remaining cursor ≡ length wire =
        omega (arith, k.buf.remaining_lem cursor, ap length r, length-append wire rest) in
      rw q (ap (found msg) (rw size (drop-length-append wire rest)))

  attempt_part :
      (buffer : List ℕ) (x : ℕ) (back : List ℕ)
      → All IsByte buffer
      → wire ≡ buffer ++ (x ∷ back)
      → (n : ℕ) × (attempt k d buffer ≡ needs (length buffer + suc n)) × (n ≤ length back)
  unfolding attempt
  attempt_part buffer x back h e =
      let (n, q, r) = p.hungry.at (k.new buffer) x back (rw (k.contents_new buffer h) e) in
      (n, rw q refl, r)

  -- The error counts what is missing at the end.
  last_error :
      (buffer : List ℕ) (required x : ℕ) (back : List ℕ)
      → length buffer < required
      → required ≤ length wire
      → wire ≡ (buffer ++ []) ++ (x ∷ back)
      → (P : ℕ → Type 0) → P (required - length buffer)
      → (n : ℕ) × (n ≤ length back) × P (suc n)
  last_error buffer required x back above few short P h =
      let same : required - length buffer ≡ suc (required - length buffer - 1) = omega arith in
      (
        required - length buffer - 1,
        omega (
          arith,
          ap length short,
          length-append (buffer ++ []) (x ∷ back),
          length-append buffer [],
        ),
        subst P same h,
      )

  module _ {E : Type 0} where
    read_more-streams :
        (stream : RecvStream E) (required : ℕ) (buffer : List ℕ) (x : ℕ) (back rest : List ℕ)
        → All IsByte (buffer ++ received stream)
        → wire ≡ buffer ++ (x ∷ back)
        → required ≤ length wire
        → buffer ++ received stream ≡ wire ++ rest
        → (self : Reader E) × (read_more k d required buffer stream ≡ ok (msg, self))
          × (pending self ≡ rest)
    unfolding read_more received
    read_more-streams (chunk bytes stream) required buffer x back rest h short few e =
        let h' : All IsByte ((buffer ++ bytes) ++ received stream) =
          subst (All IsByte) (sym (append_assoc buffer bytes _)) h in
        let e' : (buffer ++ bytes) ++ received stream ≡ wire ++ rest =
          append_assoc buffer bytes _ ∙ e in
        let here : All IsByte (buffer ++ bytes) =
          All-append_left IsByte (buffer ++ bytes) (received stream) h' in
        elim (front_cases (buffer ++ bytes) (received stream) wire rest e') [
          | inl (y, more, q) ↦ elim (Bool-cases (leb required (length (buffer ++ bytes)))) [
            | inl enough ↦
                let (n, r, s) = attempt_part (buffer ++ bytes) y more here q in
                let few' : length (buffer ++ bytes) + suc n ≤ length wire =
                  omega (arith, s, ap length q, length-append (buffer ++ bytes) (y ∷ more)) in
                rw (enough, r)
                  (read_more-streams stream _ (buffer ++ bytes) y more rest h' q few' e')
            | inr waiting ↦
                rw waiting
                  (read_more-streams stream required (buffer ++ bytes) y more rest h' q few e')
          ]
          | inr (kept, q, r) ↦
              let enough : leb required (length (buffer ++ bytes)) ≡ true =
                le→leb required (length (buffer ++ bytes))
                  (omega (arith, few, ap length q, length-append wire kept)) in
              let whole : attempt k d (buffer ++ bytes) ≡ found msg kept =
                rw q (attempt_whole kept (subst (All IsByte) q here)) in
              (record { stream = stream; buffer = kept }, rw (enough, whole) refl, r)
        ]
    read_more-streams ended required buffer x back rest h short few e = absurd (
        omega (
          arith,
          ap length e,
          ap length short,
          length-append buffer (x ∷ back),
          length-append wire rest,
          length-append buffer [],
        ))
    read_more-streams (broken u) required buffer x back rest h short few e = absurd (
        omega (
          arith,
          ap length e,
          ap length short,
          length-append buffer (x ∷ back),
          length-append wire rest,
          length-append buffer [],
        ))

    -- A stream that delivers a whole wire form, cut into pieces in any way.
    pub reader_decode-streams :
        (self : Reader E) (rest : List ℕ)
        → All IsByte (pending self)
        → pending self ≡ wire ++ rest
        → (self' : Reader E) × (reader_decode k d self ≡ ok (msg, self')) × (pending self' ≡ rest)
    unfolding reader_decode
    reader_decode-streams self rest h e =
        let here : All IsByte self.buffer =
          All-append_left IsByte self.buffer (received self.stream) h in
        elim (front_cases self.buffer (received self.stream) wire rest e) [
          | inl (y, more, q) ↦
              let (n, r, s) = attempt_part self.buffer y more here q in
              let few : length self.buffer + suc n ≤ length wire =
                omega (arith, s, ap length q, length-append self.buffer (y ∷ more)) in
              rw (reader_decode, r)
                (read_more-streams self.stream _ self.buffer y more rest h q few e)
          | inr (kept, q, r) ↦
              let whole : attempt k d self.buffer ≡ found msg kept =
                rw q (attempt_whole kept (subst (All IsByte) q here)) in
              (record { stream = self.stream; buffer = kept }, rw (reader_decode, whole) refl, r)
        ]

    read_more-short :
        (stream : RecvStream E) (required : ℕ) (buffer : List ℕ) (x : ℕ) (back : List ℕ)
        → All IsByte (buffer ++ received stream)
        → wire ≡ (buffer ++ received stream) ++ (x ∷ back)
        → length buffer < required
        → required ≤ length wire
        → (n : ℕ) × (n ≤ length back)
          × (read_more k d required buffer stream ≡ err (closing_error (suc n) stream))
    unfolding read_more received closing_error
    read_more-short (chunk bytes stream) required buffer x back h short above few =
        let h' : All IsByte ((buffer ++ bytes) ++ received stream) =
          subst (All IsByte) (sym (append_assoc buffer bytes _)) h in
        let here : All IsByte (buffer ++ bytes) =
          All-append_left IsByte (buffer ++ bytes) (received stream) h' in
        let short' : wire ≡ ((buffer ++ bytes) ++ received stream) ++ (x ∷ back) =
          short ∙ ap (λ t. t ++ (x ∷ back)) (sym (append_assoc buffer bytes (received stream))) in
        elim (Bool-cases (leb required (length (buffer ++ bytes)))) [
          | inl enough ↦
              let (y, more, q) = cut_at (buffer ++ bytes) (received stream) x back short' in
              let (n, r, s) = attempt_part (buffer ++ bytes) y more here q in
              let few' : length (buffer ++ bytes) + suc n ≤ length wire =
                omega (arith, s, ap length q, length-append (buffer ++ bytes) (y ∷ more)) in
              rw (enough, r)
                (read_more-short stream _ (buffer ++ bytes) x back h' short' (omega arith) few')
          | inr waiting ↦
              let above' : length (buffer ++ bytes) < required =
                leb→lt required (length (buffer ++ bytes)) waiting in
              rw waiting
                (read_more-short stream required (buffer ++ bytes) x back h' short' above' few)
        ]
    read_more-short ended required buffer x back h short above few =
        last_error buffer required x back above few short
          (λ n. read_more {E = E} k d required buffer ended ≡ err (decode (DecodeError.more n)))
          refl
    read_more-short (broken u) required buffer x back h short above few =
        last_error buffer required x back above few short
          (λ n. read_more k d required buffer (broken u) ≡ err (transport u)) refl

    -- A stream that ends, or breaks, within a wire form.
    pub reader_decode-short :
        (self : Reader E) (x : ℕ) (back : List ℕ)
        → All IsByte (pending self)
        → wire ≡ pending self ++ (x ∷ back)
        → (n : ℕ) × (n ≤ length back)
          × (reader_decode k d self ≡ err (closing_error (suc n) self.stream))
    unfolding reader_decode
    reader_decode-short self x back h short =
        let here : All IsByte self.buffer =
          All-append_left IsByte self.buffer (received self.stream) h in
        let (y, more, q) = cut_at self.buffer (received self.stream) x back short in
        let (n, r, s) = attempt_part self.buffer y more here q in
        let few : length self.buffer + suc n ≤ length wire =
          omega (arith, s, ap length q, length-append self.buffer (y ∷ more)) in
        rw (reader_decode, r)
          (read_more-short self.stream _ self.buffer x back h short (omega arith) few)
