-- ===== src/Coding/Params/Access.antt =====
-- `Params::set` and `Params::get`: values that are stored encoded and taken out decoded.
use linode_moq.Prelude.{
  ℕ, ◌^◌, ◌<◌, ◌≡◌, [], refl, sym, ◌∙◌, length, List, All, append-nil, Option, none, some, arith,
}
use linode_moq.Prelude.BigEndian.{IsByte}
use linode_moq.Coding.Outcome.{DecodeError, Outcome, ok, err}
use linode_moq.Coding.Buffer.{VecBuf, CursorBuf}
use linode_moq.Coding.Decoder.{Decoder}
use linode_moq.Coding.Encoder.{Encoder}
use linode_moq.Coding.Rules.Writes.{Writes}
use linode_moq.Coding.Rules.Reads.{Reads}
use linode_moq.Coding.Rules.Ensures.{Ensures, Tame, took, failed}
use linode_moq.Coding.Params.{Params, set, stored, get, taken, found}
use linode_moq.Coding.Params.Map.{insert, lookup, remove, lookup-insert_self}

module _ {V : Type 0} (v : VecBuf V) where
  pub set_lem :
      (kind : ℕ) {e : Encoder V} {bs : List ℕ} (p : Params)
      → Writes v.buf_mut e bs
      → length bs < 2 ^ 63
      → set v kind e p ≡ ok (record { entries = insert kind bs p.entries })
  unfolding set stored
  set_lem kind {e} {bs} p writes small =
      let (value, q, r, _) = writes.at v.new (omega (arith, v.room_new)) in
      let bytes : v.buf_mut.written value ≡ bs = rw v.written_new at r in rw (q, bytes) refl

module _ {C A : Type 0} (k : CursorBuf C) where
  pub get_lem :
      (kind : ℕ) {d : Decoder C A} {bs : List ℕ} {a : A} (p : Params)
      → Reads k.buf d bs a
      → All IsByte bs
      → lookup kind p.entries ≡ some bs
      → get k kind d p ≡ ok (some a, record { entries = remove kind p.entries })
  unfolding get taken found
  get_lem kind {bs = bs} p reads bytes here =
      let (cursor, q, _) = reads.at (k.new bs) [] (k.contents_new bs bytes ∙ sym (append-nil bs)) in
      rw (here, q) refl

  -- What `get` returns.
  pub data Taken (Fits : A → Type 0) (kind : ℕ) (p : Params)
      : Outcome DecodeError (Option A × Params) → Type 0 where
    present :
        {a : A} {bs : List ℕ}
        → Fits a
        → lookup kind p.entries ≡ some bs
        → Taken Fits kind p (ok (some a, record { entries = remove kind p.entries }))
    absent : lookup kind p.entries ≡ none → Taken Fits kind p (ok (none, p))
    unreadable : {e : DecodeError} → Taken Fits kind p (err e)

  found-Taken :
      {Fits : A → Type 0} {kind : ℕ} {p : Params} {bs : List ℕ} {r : C}
      {o : Outcome DecodeError (A × C)}
      → lookup kind p.entries ≡ some bs
      → Tame k.buf Fits r o
      → Taken Fits kind p (found (record { entries = remove kind p.entries }) o)
  unfolding found
  found-Taken here (took used q h) = present h here
  found-Taken here failed = unreadable

  taken-Taken :
      {Fits : A → Type 0} {d : Decoder C A} (kind : ℕ) (p : Params)
      → Ensures k.buf Fits d
      → (value : Option (List ℕ)) → lookup kind p.entries ≡ value
      → Taken Fits kind p (taken k kind d p value)
  unfolding taken
  taken-Taken kind p ensures none here = absent here
  taken-Taken kind p ensures (some bs) here = found-Taken here (ensures.at (k.new bs))

  pub get-Taken :
      {Fits : A → Type 0} {d : Decoder C A} (kind : ℕ) (p : Params)
      → Ensures k.buf Fits d
      → Taken Fits kind p (get k kind d p)
  unfolding get
  get-Taken kind p ensures = taken-Taken kind p ensures (lookup kind p.entries) refl

module _ {C V A : Type 0} (k : CursorBuf C) (v : VecBuf V) where
  -- A value whose encoder writes bytes that its decoder reads back, fewer than 2^63: setting it under
  -- a kind does not fail, and getting that kind from the result returns it, and removes the kind.
  pub get-set :
      (kind : ℕ) {e : Encoder V} {d : Decoder C A} {bs : List ℕ} {a : A} (p : Params)
      → Writes v.buf_mut e bs
      → Reads k.buf d bs a
      → All IsByte bs
      → length bs < 2 ^ 63
      → (p' : Params) × (set v kind e p ≡ ok p')
        × (get k kind d p' ≡ ok (some a, record { entries = remove kind p'.entries }))
  get-set kind {bs = bs} p writes reads bytes small =
      let p' : Params = record { entries = insert kind bs p.entries } in
      (
        p',
        set_lem v kind p writes small,
        get_lem k kind p' reads bytes (lookup-insert_self kind bs p.entries),
      )
