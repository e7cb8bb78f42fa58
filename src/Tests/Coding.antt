-- ===== src/Tests/Coding.antt =====
-- The codecs of moq-transport/src/coding on concrete buffers.
use linode_moq.Prelude.{ℕ, List, [], ◌∷◌, ◌≡◌, arith, ◌^◌, ◌<◌, ◌≤◌, ◌⊎◌, ◌++◌}
use linode_moq.Tests.Buffers.{list_buf, Vec, vec_mut, empty}
use linode_moq.Coding.Varint.{u64_encode, try_from}
use linode_moq.Coding.Varint.Format.{varint_wire}
use linode_moq.Coding.Tuple.{Tuple}
use linode_moq.Coding.Params.{Params}
use linode_moq.Coding.Outcome.{EncodeError, ok, err}
use linode_moq.Coding.Varint.Encoding.{u64_encode_bounds}

abbrev number : ℕ
number = 300

abbrev text : List ℕ
text = 0xc3 ∷ 0xa9 ∷ []

abbrev namespace : Tuple
namespace = record { fields = record { value = 0x61 ∷ [] } ∷ [] }

abbrev two_params : Params
two_params = record { entries = (0, 3 ∷ []) ∷ (7, []) ∷ [] }

u64_encode_bounds_example :
    ((2 ^ 62 < 2 ^ 62)
      × (try_from (2 ^ 62) ≡ ok (2 ^ 62))
      × ((w' : Vec) × (u64_encode (2 ^ 62) empty ≡ ok w')
          × (vec_mut.written w' ≡ vec_mut.written empty ++ varint_wire (2 ^ 62))))
    ⊎ ((2 ^ 62 ≤ 2 ^ 62)
        × (try_from (2 ^ 62) ≡ err EncodeError.bounds_exceeded)
        × (u64_encode (2 ^ 62) empty ≡ err EncodeError.bounds_exceeded))
u64_encode_bounds_example = u64_encode_bounds (2 ^ 62) empty (omega arith)
