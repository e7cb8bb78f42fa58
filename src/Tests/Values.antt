-- ===== src/Tests/Values.antt =====
-- Messages that the tests send.
use linode_moq.Prelude.{[], ◌∷◌, refl, none, some, arith}
use linode_moq.Tests.Buffers.{list_buf, vec_mut}
use linode_moq.Prelude.BigEndian.{to_be_bytes}
use linode_moq.Coding.Varint.Format.{varint_wire}
use linode_moq.Message.GroupOrder.{publisher}
use linode_moq.Coding.Text.{from_utf8}
use linode_moq.Message.Union.{Message, unsubscribe}
use linode_moq.Message.Union.Format.{MessageFits, body_wire}
use linode_moq.Message.Unsubscribe.{unsubscribe_wire}
use linode_moq.Message.Subscribe.{Subscribe, SubscribeParts}
use linode_moq.Message.FilterType.{absolute_start}
use linode_moq.Message.SubscribePair.{absolute}

abbrev pub ended : Message
ended = unsubscribe (record { id = 300 })

abbrev pub ended-Fits : MessageFits ended
unfolding body_wire unsubscribe_wire varint_wire to_be_bytes
ended-Fits = record { body = record { id = omega arith }; size = omega arith }

abbrev pub open_ended : Subscribe
open_ended = record {
  id = 1;
  track_alias = 2;
  track_namespace = record { fields = record { value = 0x61 ∷ [] } ∷ [] };
  track_name = 0x61 ∷ [];
  subscriber_priority = 127;
  group_order = publisher;
  filter_type = absolute_start;
  start = some (record { group = absolute 4; object = absolute 0 });
  end = none;
  params = record { entries = [] };
}

abbrev pub open_ended-Parts : SubscribeParts open_ended
unfolding from_utf8
open_ended-Parts = record {
  id = omega arith;
  track_alias = omega arith;
  track_namespace = record {
    fields = (record { value = record { bytes = (omega arith, tt); size = omega arith } }, tt);
    count = omega arith;
  };
  track_name = record {
    sized = record { bytes = (omega arith, tt); size = omega arith };
    utf8 = refl;
  };
  subscriber_priority = omega arith;
  group_order = tt;
  filter_type = tt;
  params = record { entries = tt; distinct = tt; count = omega arith };
}
