-- ===== src/Tests/Sending.antt =====
-- A concrete subgroup that is sent.
use linode_moq.Prelude.{ℕ, zero, suc, ◌≡◌, refl, List, [], ◌∷◌, none, some, arith}
use linode_moq.Prelude.BigEndian.{to_be_bytes}
use linode_moq.Coding.Varint.Format.{varint_wire, u8_wire}
use linode_moq.Data.ObjectStatus.{ObjectStatus}
use linode_moq.Data.SizedStatus.{status_wire}
use linode_moq.Data.SubgroupHeader.{SubgroupHeader, subgroup_header_wire}
use linode_moq.Data.SubgroupObject.{subgroup_object_wire}
use linode_moq.Data.Header.{header_wire}
use linode_moq.Watch.State.{StateInner, lock_mut, modified}
use linode_moq.Serve.Subgroup.Object.{SubgroupObjectReader, SubgroupObjectState}
use linode_moq.Serve.Subgroup.Group.{SubgroupReader, SubgroupState}
use linode_moq.Session.Subscribed.{SubscribedState}
use linode_moq.Session.Subscribed.Sending.{object_header, serve_subgroup}
use linode_moq.Session.Subscribed.Sent.{final_looks, readers, objects_wire, serve_subgroup_lem}
use linode_moq.Session.Writer.{SendStream, takes, waits, finished}
use linode_moq.Session.Writer.Patience.{patience}
use linode_moq.Tests.Buffers.{vec_buf}
use linode_moq.Tests.Serve.{group_info}

abbrev patient : ℕ → SendStream ℕ
patient zero = waits
patient (suc n) = takes 1 (patient n)

abbrev a_header : SubgroupHeader
a_header = record {
  subscribe_id = 1;
  track_alias = 2;
  group_id = 4;
  subgroup_id = 0;
  publisher_priority = 7;
}

abbrev a_reader : SubgroupObjectReader
a_reader = record {
  state = 1;
  info = record { group = group_info; object_id = 0; size = 3; status = ObjectStatus.object };
  index = 0;
}

-- A state whose one side has gone.
abbrev gone : {T : Type 0} → T → StateInner T
gone v = record { value = v; wakers = []; epoch = 0; dropped = none; woken = [] }

abbrev two_chunks : StateInner SubgroupObjectState
two_chunks = gone (record { items = (8 ∷ []) ∷ (9 ∷ 10 ∷ []) ∷ []; closed = none })

abbrev one_object : List (SubgroupObjectReader × StateInner SubgroupObjectState)
one_object = (a_reader, two_chunks) ∷ []

abbrev a_group : StateInner SubgroupState
a_group = gone (record { items = a_reader ∷ []; closed = none })

abbrev a_group_reader : SubgroupReader
a_group_reader = record { state = 0; info = group_info; index = 0 }

abbrev a_subscription : StateInner SubscribedState
a_subscription = record {
  value = record { max_group_id = none; closed = none };
  wakers = [];
  epoch = 0;
  dropped = some tt;
  woken = [];
}

serve_subgroup_lem_example :
    (stream' : SendStream ℕ) × (serve_subgroup vec_buf a_header
        (final_looks a_subscription a_group one_object)
        a_group_reader
        (patient 12)
      ≡ finished (4 ∷ 1 ∷ 2 ∷ 4 ∷ 0 ∷ 7 ∷ 0 ∷ 3 ∷ 8 ∷ 9 ∷ 10 ∷ []) stream')
unfolding header_wire subgroup_header_wire subgroup_object_wire objects_wire object_header
    varint_wire u8_wire status_wire to_be_bytes patience readers modified lock_mut
serve_subgroup_lem_example =
    serve_subgroup_lem vec_buf a_header one_object a_subscription a_group a_group_reader
      (patient 12)
      (record {
        subscribe_id = omega arith;
        track_alias = omega arith;
        group_id = omega arith;
        subgroup_id = omega arith;
        publisher_priority = omega arith;
      })
      refl refl refl refl refl
      (
        record {
          fits = record { object_id = omega arith; size = omega arith; status = λ _. refl };
          fresh = refl;
          unclosed = refl;
          gone = refl;
        },
        tt,
      )
      (omega arith) (omega arith)
