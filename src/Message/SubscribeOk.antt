-- ===== src/Message/SubscribeOk.antt =====
-- moq-transport/src/message/subscribe_ok.rs: a publisher accepts a subscription.
use linode_moq.Prelude.{ℕ, ◌<◌, ◌≡◌, List, [], ◌++◌, ◌==◌, if◌then◌else◌, Option, none, some, arith}
use linode_moq.Coding.Buffer.{Buf, BufMut}
use linode_moq.Coding.Decoder.{Decoder, pure, ◌>>=◌}
use linode_moq.Coding.Encoder.{Encoder, done, ◌>>◌, put_uint}
use linode_moq.Coding.Codec.{IsCodec}
use linode_moq.Coding.Rules.Writes.{Writes, Writes-then, Writes-done, Writes-put_uint}
use linode_moq.Coding.Rules.Parses.{Parses, Parses-bind, Parses-pure}
use linode_moq.Coding.Rules.Ensures.{Ensures, Ensures-bind, Ensures-pure}
use linode_moq.Coding.Varint.{u8_decode, u64_encode, u64_decode}
use linode_moq.Coding.Varint.Format.{IsVarint, varint_wire, u8_wire}
use linode_moq.Coding.Varint.Encoding.{u64_encode-Writes}
use linode_moq.Coding.Varint.Decoding.{u8_decode-Parses, u8_decode-Ensures}
use linode_moq.Coding.Varint.Integers.{u64_decode-Parses, u64_decode-Ensures}
use linode_moq.Message.GroupOrder.{
  GroupOrder, group_order_wire, group_order_encode, group_order_decode, group_order_encode-Writes,
  group_order_decode-Parses, group_order_decode-Ensures,
}
use linode_moq.Message.Last.{
  LastFits, last_wire, last_encode, last_decode, last_encode-Writes, last_decode-Parses,
  last_decode-Ensures,
}

pub record SubscribeOk : Type 0 where
  pub id : ℕ
  pub expires : Option ℕ
  pub group_order : GroupOrder
  pub latest : Option (ℕ × ℕ)

-- An expiry of 0 milliseconds has no wire form of its own.
abbrev pub ExpiresFits : Option ℕ → Type 0
ExpiresFits none = Unit
ExpiresFits (some t) = (0 < t) × IsVarint t

pub record SubscribeOkFits (m : SubscribeOk) : Type 0 where
  pub id : IsVarint m.id
  pub expires : ExpiresFits m.expires
  pub latest : LastFits m.latest

-- `unwrap_or(0)`
abbrev pub expires_number : Option ℕ → ℕ
expires_number none = 0
expires_number (some t) = t

-- `match u64::decode(r)? { 0 => None, expires => Some(expires) }`
unfoldable pub expires_of : ℕ → Option ℕ
expires_of t = if t == 0 then none else some t

unfoldable pub subscribe_ok_wire : SubscribeOk → List ℕ
subscribe_ok_wire m =
    varint_wire m.id
    ++ (varint_wire (expires_number m.expires)
        ++ (group_order_wire m.group_order ++ (last_wire m.latest ++ (u8_wire 0 ++ []))))

module _ {W : Type 0} ⦃c : BufMut W⦄ where
  unfoldable pub subscribe_ok_encode : SubscribeOk → Encoder W
  subscribe_ok_encode m = do
    u64_encode m.id
    u64_encode (expires_number m.expires)
    group_order_encode m.group_order
    last_encode m.latest
    put_uint 1 0
    done

module _ {R : Type 0} ⦃b : Buf R⦄ where
  -- The last byte is the number of parameters, which is not looked at.
  unfoldable pub subscribe_ok_decode : Decoder R SubscribeOk
  subscribe_ok_decode = do
    id ← u64_decode
    expires ← u64_decode
    group_order ← group_order_decode
    latest ← last_decode
    _ ← u8_decode
    pure (record {
      id = id;
      expires = expires_of expires;
      group_order = group_order;
      latest = latest;
    })

expires_number-IsVarint : (e : Option ℕ) → ExpiresFits e → IsVarint (expires_number e)
expires_number-IsVarint none h = omega arith
expires_number-IsVarint (some t) h = h.1

expires_of-number : (e : Option ℕ) → ExpiresFits e → expires_of (expires_number e) ≡ e
unfolding expires_of
expires_of-number none h = ground arith
expires_of-number (some t) h = ground arith

ExpiresFits-of : (t : ℕ) → IsVarint t → ExpiresFits (expires_of t)
unfolding expires_of
ExpiresFits-of t h = ground arith

module _ {W : Type 0} ⦃c : BufMut W⦄ where
  pub subscribe_ok_encode-Writes :
      (m : SubscribeOk) → SubscribeOkFits m → Writes c (subscribe_ok_encode m) (subscribe_ok_wire m)
  unfolding subscribe_ok_wire subscribe_ok_encode u8_wire
  subscribe_ok_encode-Writes m h = Writes-then (u64_encode-Writes m.id h.id) (
      Writes-then
        (u64_encode-Writes (expires_number m.expires) (expires_number-IsVarint m.expires h.expires))
        (Writes-then (group_order_encode-Writes m.group_order tt) (
          Writes-then (last_encode-Writes m.latest h.latest)
            (Writes-then (Writes-put_uint 1 0) Writes-done))))

module _ {R : Type 0} ⦃b : Buf R⦄ where
  pub subscribe_ok_decode-Parses :
      (m : SubscribeOk) → SubscribeOkFits m → Parses b subscribe_ok_decode (subscribe_ok_wire m) m
  unfolding subscribe_ok_wire subscribe_ok_decode
  subscribe_ok_decode-Parses m h = Parses-bind _ (u64_decode-Parses m.id h.id) (
      Parses-bind _
        (u64_decode-Parses (expires_number m.expires) (expires_number-IsVarint m.expires h.expires))
        (Parses-bind _ (group_order_decode-Parses m.group_order tt) (
          Parses-bind _ (last_decode-Parses m.latest h.latest) (
            Parses-bind _ (u8_decode-Parses 0 (omega arith))
              (rw (expires_of-number m.expires h.expires) (Parses-pure m))))))

  pub subscribe_ok_decode-Ensures : Ensures b SubscribeOkFits subscribe_ok_decode
  unfolding subscribe_ok_decode
  subscribe_ok_decode-Ensures = Ensures-bind _ u64_decode-Ensures λ id hi.
      Ensures-bind _ u64_decode-Ensures λ expires he.
        Ensures-bind _ group_order_decode-Ensures λ group_order _.
          Ensures-bind _ last_decode-Ensures λ latest hl. Ensures-bind _ u8_decode-Ensures λ _ _.
            Ensures-pure _ (record { id = hi; expires = ExpiresFits-of expires he; latest = hl })

module _ {R W : Type 0} ⦃b : Buf R⦄ ⦃c : BufMut W⦄ where
  pub subscribe_ok-IsCodec :
      IsCodec b c SubscribeOkFits subscribe_ok_wire subscribe_ok_encode subscribe_ok_decode
  subscribe_ok-IsCodec = record {
    writes = subscribe_ok_encode-Writes;
    parses = subscribe_ok_decode-Parses;
    ensures = subscribe_ok_decode-Ensures;
  }
