-- ===== src/Coding/Params.antt =====
-- moq-transport/src/coding/params.rs: a map of encoded values by their kind.
pub mod Map
pub mod Format
pub mod Laws
pub mod Access
use linode_moq.Prelude.{
  ℕ, zero, suc, List, [], ◌∷◌, ◌++◌, length, Bool, if◌then◌else◌, Option, none, some,
}
use linode_moq.Coding.Outcome.{DecodeError, EncodeError, Outcome, ok, err, panic}
use linode_moq.Coding.Buffer.{Buf, BufMut, VecBuf, CursorBuf}
use linode_moq.Coding.Decoder.{Decoder, pure, fail, ◌>>=◌}
use linode_moq.Coding.Encoder.{Encoder, done, ◌>>◌}
use linode_moq.Coding.Varint.{u64_encode, u64_decode}
use linode_moq.Coding.Varint.Format.{varint_wire}
use linode_moq.Coding.Prefixed.{prefixed_wire, prefixed_encode, prefixed_decode}
use Map.{Entries, contains_key, insert, lookup, remove}

pub record Params : Type 0 where
  pub entries : Entries

module _ {R : Type 0} ⦃b : Buf R⦄ where
  -- The loop over `0..count`, with the map filled so far.
  unfoldable pub decode_entries : ℕ → Entries → Decoder R Entries
  decode_entries zero params = pure params
  decode_entries (suc n) params = do
    kind ← u64_decode
    if contains_key kind params
        then fail DecodeError.duplicate_parameter
        else do buf ← prefixed_decode; decode_entries n (insert kind buf params)

  unfoldable pub params_decode : Decoder R Params
  params_decode = do
    count ← u64_decode
    params ← decode_entries count []
    pure (record { entries = params })

module _ {W : Type 0} ⦃c : BufMut W⦄ where
  unfoldable pub encode_entries : Entries → Encoder W
  encode_entries [] = done
  encode_entries ((kind, value) ∷ rest) = do
    u64_encode kind
    prefixed_encode value
    encode_entries rest

  unfoldable pub params_encode : Params → Encoder W
  params_encode p = do u64_encode (length p.entries); encode_entries p.entries; done

unfoldable pub has : Params → ℕ → Bool
has p kind = contains_key kind p.entries

-- `set` of a value by its encoder, which writes to a new vector.
stored : {V : Type 0} → VecBuf V → ℕ → Params → Outcome EncodeError V → Outcome EncodeError Params
stored v kind p (ok value) =
    ok (record { entries = insert kind (v.buf_mut.written value) p.entries })
stored v kind p (err e) = err e
stored v kind p panic = panic

unfoldable pub set : {V : Type 0} → VecBuf V → ℕ → Encoder V → Params → Outcome EncodeError Params
unfolding stored
set v kind encode p = stored v kind p (encode v.new)

-- `get` takes the value out of the map and decodes it.
found :
    {C A : Type 0} → Params → Outcome DecodeError (A × C) → Outcome DecodeError (Option A × Params)
found p (ok (a, r)) = ok (some a, p)
found p (err e) = err e
found p panic = panic

taken :
    {C A : Type 0}
    → CursorBuf C
    → ℕ
    → Decoder C A
    → Params
    → Option (List ℕ)
    → Outcome DecodeError (Option A × Params)
taken c kind decode p none = ok (none, p)
taken c kind decode p (some value) =
    found (record { entries = remove kind p.entries }) (decode (c.new value))

unfoldable pub get :
    {C A : Type 0}
    → CursorBuf C
    → ℕ
    → Decoder C A
    → Params
    → Outcome DecodeError (Option A × Params)
unfolding found taken
get c kind decode p = taken c kind decode p (lookup kind p.entries)
