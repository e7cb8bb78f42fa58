-- ===== src/Coding/Rules/Ensures.antt =====
-- Decoders that never panic, on any input, leave a tail of what they were given, and return only
-- values of which a predicate holds.
use linode_moq.Prelude.{
  ℕ, ◌-◌, ◌≤◌, ◌≡◌, ◌≢◌, refl, sym, ap, subst, inl, inr, List, [], ◌∷◌, ◌++◌, length, append_assoc,
  Bool, true, false, if◌then◌else◌, ltb, ltb→le, Bool-cases, arith, All, All-append_left, split_at,
}
use linode_moq.Prelude.BigEndian.{IsByte}
use linode_moq.Coding.Outcome.{DecodeError, Outcome, ok, err, panic}
use linode_moq.Coding.Buffer.{Buf}
use linode_moq.Coding.Decoder.{
  Decoder, continue, pure, fail, ◌>>=◌, remaining, get_u8, copy_to_slice, decode_remaining,
}

module _ {R : Type 0} (b : Buf R) where
  -- An outcome of a decode at `r`: a value with `P` and a tail of the buffer, or an error; no panic.
  pub data Tame {A : Type 0} (P : A → Type 0) (r : R) : Outcome DecodeError (A × R) → Type 0 where
    took :
        {a : A} {r' : R} (used : List ℕ)
        → b.contents r ≡ used ++ b.contents r'
        → P a
        → Tame P r (ok (a, r'))
    failed : {e : DecodeError} → Tame P r (err e)

  pub record Ensures {A : Type 0} (P : A → Type 0) (d : Decoder R A) : Type 0 where
    pub at : (r : R) → Tame P r (d r)

module _ {R : Type 0} ⦃b : Buf R⦄ where
  Tame-later :
      {A : Type 0} {P : A → Type 0} {r r' : R} {o : Outcome DecodeError (A × R)} (used : List ℕ)
      → b.contents r ≡ used ++ b.contents r'
      → Tame b P r' o
      → Tame b P r o
  Tame-later used p (took more q h) =
      took (used ++ more) (rw (p, q) (sym (append_assoc used more _))) h
  Tame-later used p failed = failed

  Tame-ok :
      {A : Type 0} {P : A → Type 0} {r : R} {o : Outcome DecodeError (A × R)} {a : A} {r' : R}
      → Tame b P r o
      → o ≡ ok (a, r')
      → P a × ((used : List ℕ) × (b.contents r ≡ used ++ b.contents r'))
  Tame-ok {P = P} (took used p h) e =
      (subst P (cc) h, (used, rw p (ap (λ t. used ++ b.contents t) (cc))))
  Tame-ok failed e = cc

  Tame-ne-panic :
      {A : Type 0} {P : A → Type 0} {r : R} {o : Outcome DecodeError (A × R)}
      → Tame b P r o
      → o ≢ panic
  Tame-ne-panic (took used p h) e = cc
  Tame-ne-panic failed e = cc

  module _ {A : Type 0} {P : A → Type 0} where
    pub Ensures-ok :
        {d : Decoder R A} {r : R} {a : A} {r' : R}
        → Ensures b P d
        → d r ≡ ok (a, r')
        → P a × ((used : List ℕ) × (b.contents r ≡ used ++ b.contents r'))
    Ensures-ok {r = r} t e = Tame-ok (t.at r) e

    pub Ensures-ne-panic : {d : Decoder R A} (r : R) → Ensures b P d → d r ≢ panic
    Ensures-ne-panic r t = Tame-ne-panic (t.at r)

    pub Ensures-pure : (a : A) → P a → Ensures b P (pure a)
    unfolding pure
    Ensures-pure a h = record { at = λ r. took [] refl h }

    pub Ensures-fail : (e : DecodeError) → Ensures b P (fail e)
    unfolding fail
    Ensures-fail e = record { at = λ r. failed }

    pub Ensures-if :
        (t : Bool) {c d : Decoder R A}
        → (t ≡ true → Ensures b P c)
        → (t ≡ false → Ensures b P d)
        → Ensures b P (if t then c else d)
    Ensures-if true tc td = tc refl
    Ensures-if false tc td = td refl

  module _ {A B : Type 0} {P : A → Type 0} {Q : B → Type 0} where
    Tame-continue :
        {r : R} {o : Outcome DecodeError (A × R)} (f : A → Decoder R B)
        → Tame b P r o
        → ((a : A) → P a → Ensures b Q (f a))
        → Tame b Q r (continue o f)
    Tame-continue f (took {a = a} {r' = r'} used p h) tf = Tame-later used p ((tf a h).at r')
    Tame-continue f failed tf = failed

    pub Ensures-bind :
        {d : Decoder R A} (f : A → Decoder R B)
        → Ensures b P d
        → ((a : A) → P a → Ensures b Q (f a))
        → Ensures b Q (d >>= f)
    unfolding ◌>>=◌
    Ensures-bind f td tf = record { at = λ r. Tame-continue f (td.at r) tf }

  pub Ensures-remaining : Ensures b (λ n. Unit {0}) remaining
  unfolding remaining
  Ensures-remaining = record { at = λ r. took [] refl tt }

  -- A read of the bytes that were just tested for.
  pub Ensures-take :
      (n : ℕ)
      → Ensures b
          (λ bs. All IsByte bs × (length bs ≡ n))
          (decode_remaining n >>= λ _. copy_to_slice n)
  unfolding ◌>>=◌ decode_remaining copy_to_slice
  Ensures-take n = record {
    at = λ r. elim (Bool-cases (ltb 0 (n - b.remaining r))) [
      | inl short ↦ rw short failed
      | inr room ↦
          let (front, back, p, q) =
            split_at n (b.contents r) (omega (arith, ltb→le 0 _ room, b.remaining_lem r)) in
          let (r', s, t) = b.copy_to_slice_lem r front back p in
          rw (room, rw q at s)
            (took front (rw t p)
              (All-append_left IsByte front back (subst (All IsByte) p (b.contents-IsByte r)), q))
    ];
  }

  IsByte-at :
      (r : R)
      → 1 ≤ length (b.contents r)
      → (x : ℕ) × (xs : List ℕ) × (b.contents r ≡ x ∷ xs) × IsByte x
  IsByte-at r h = go (b.contents r) refl
    where
      go :
          (ys : List ℕ)
          → b.contents r ≡ ys
          → (x : ℕ) × (xs : List ℕ) × (b.contents r ≡ x ∷ xs) × IsByte x
      go [] e = absurd (omega (arith, ap length e))
      go (x ∷ xs) e = (x, xs, e, (subst (All IsByte) e (b.contents-IsByte r)).0)

  pub Ensures-IsByte : Ensures b IsByte (decode_remaining 1 >>= λ _. get_u8)
  unfolding ◌>>=◌ decode_remaining get_u8
  Ensures-IsByte = record {
    at = λ r. elim (Bool-cases (ltb 0 (1 - b.remaining r))) [
      | inl short ↦ rw short failed
      | inr room ↦
          let (x, xs, p, h) = IsByte-at r (omega (arith, ltb→le 0 _ room, b.remaining_lem r)) in
          let (r', s, t) = b.get_u8_lem r p in rw (room, s) (took (x ∷ []) (rw t p) h)
    ];
  }

  Tame-weaken :
      {A : Type 0} {P Q : A → Type 0} {r : R} {o : Outcome DecodeError (A × R)}
      → ((a : A) → P a → Q a)
      → Tame b P r o
      → Tame b Q r o
  Tame-weaken k (took {a} used p h) = took used p (k a h)
  Tame-weaken k failed = failed

  pub Ensures-weaken :
      {A : Type 0} {P Q : A → Type 0} {d : Decoder R A}
      → ((a : A) → P a → Q a)
      → Ensures b P d
      → Ensures b Q d
  Ensures-weaken k t = record { at = λ r. Tame-weaken k (t.at r) }
