-- ===== src/Coding/Framed.antt =====
-- A body that was encoded to a vector, behind its length: the end of `encode` in message/mod.rs,
-- setup/client.rs and setup/server.rs.
use linode_moq.Prelude.{ℕ, List, [], ◌++◌, length}
use linode_moq.Coding.Outcome.{EncodeError, Outcome, ok, err, panic}
use linode_moq.Coding.Buffer.{BufMut}
use linode_moq.Coding.Encoder.{Encoder, done, ◌>>◌, put_slice}
use linode_moq.Coding.Rules.Writes.{Writes, Writes-then, Writes-done, Writes-put_slice}
use linode_moq.Coding.Varint.{u64_encode}
use linode_moq.Coding.Varint.Format.{IsVarint, varint_wire}
use linode_moq.Coding.Varint.Encoding.{u64_encode-Writes}

-- `unwrap()`
unfoldable pub unwrapped : {A : Type 0} → Outcome EncodeError A → Outcome EncodeError A
unwrapped (ok a) = ok a
unwrapped (err e) = panic
unwrapped panic = panic

-- `?` between two results
unfoldable pub and_then :
    {A B : Type 0} → Outcome EncodeError A → (A → Outcome EncodeError B) → Outcome EncodeError B
and_then (ok a) f = f a
and_then (err e) f = err e
and_then panic f = panic

unfoldable pub framed_wire : List ℕ → List ℕ
framed_wire bs = varint_wire (length bs) ++ (bs ++ [])

module _ {W : Type 0} ⦃c : BufMut W⦄ where
  unfoldable pub framed_bytes : List ℕ → Encoder W
  framed_bytes buf = do u64_encode (length buf); put_slice buf; done

  pub framed_bytes-Writes :
      (bs : List ℕ) → IsVarint (length bs) → Writes c (framed_bytes bs) (framed_wire bs)
  unfolding framed_bytes framed_wire
  framed_bytes-Writes bs h =
      Writes-then (u64_encode-Writes (length bs) h) (Writes-then (Writes-put_slice bs) Writes-done)
