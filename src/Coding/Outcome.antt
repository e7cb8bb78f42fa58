-- ===== src/Coding/Outcome.antt =====
-- What a fallible routine of moq-transport returns: the errors of coding/decode.rs and
-- coding/encode.rs, and a panic, which no caller handles.
use linode_moq.Prelude.{ℕ, Option, none, some}

-- `BoundsExceeded` and the payloads of foreign error types carry nothing that the code reads.
pub data DecodeError : Type 0 where
  more : ℕ → DecodeError
  invalid_length : ℕ → ℕ → DecodeError
  invalid_string : DecodeError
  invalid_message : ℕ → DecodeError
  invalid_role : ℕ → DecodeError
  invalid_subscribe_location : DecodeError
  invalid_filter_type : DecodeError
  invalid_group_order : DecodeError
  invalid_object_status : DecodeError
  invalid_track_status_code : DecodeError
  missing_field : DecodeError
  invalid_value : DecodeError
  bounds_exceeded : DecodeError
  duplicate_parameter : DecodeError
  missing_parameter : DecodeError
  invalid_parameter : DecodeError
  io : DecodeError

pub data EncodeError : Type 0 where
  more : ℕ → EncodeError
  bounds_exceeded : EncodeError
  invalid_value : EncodeError
  missing_field : EncodeError
  io : EncodeError

pub data Outcome {ℓ} (E : Type 0) (A : Type ℓ) : Type ℓ where
  ok : A → Outcome E A
  err : E → Outcome E A
  panic : Outcome E A

-- An operation that panics where its precondition fails.
abbrev pub or_panic {ℓ} : {E : Type 0} {A : Type ℓ} → Option A → Outcome E A
or_panic (some a) = ok a
or_panic none = panic
