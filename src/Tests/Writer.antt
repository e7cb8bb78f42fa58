-- ===== src/Tests/Writer.antt =====
-- Writes to concrete streams.
use linode_moq.Prelude.{ℕ, ◌≡◌, [], ◌∷◌, arith}
use linode_moq.Prelude.BigEndian.{to_be_bytes}
use linode_moq.Coding.Varint.{u64_encode}
use linode_moq.Coding.Varint.Format.{varint_wire}
use linode_moq.Coding.Varint.Encoding.{u64_encode-Writes}
use linode_moq.Session.Writer.{SendStream, takes, broken, waits, finished, writer_encode}
use linode_moq.Session.Writer.Delivery.{capacity, writer_encode_delivers}
use linode_moq.Tests.Buffers.{vec_mut, vec_buf}

abbrev slow_stream : SendStream ℕ
slow_stream = takes 1 (takes 0 (takes 2 (takes 9 waits)))

writer_encode_delivers_example :
    (stream' : SendStream ℕ) × (writer_encode vec_buf slow_stream (u64_encode 70000)
      ≡ finished (0x80 ∷ 0x01 ∷ 0x11 ∷ 0x70 ∷ []) stream')
unfolding varint_wire to_be_bytes capacity
writer_encode_delivers_example =
    writer_encode_delivers vec_buf slow_stream (u64_encode-Writes 70000 (omega arith)) (omega arith)
      (omega arith)

abbrev breaking_stream : SendStream ℕ
breaking_stream = takes 1 (takes 2 (broken 7))
