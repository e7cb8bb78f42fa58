-- ===== src/Message/SubscribePair.antt =====
-- `SubscribeLocation` and `SubscribePair` of moq-transport/src/message/subscribe.rs.
use linode_moq.Prelude.{ℕ, ◌≤◌, length, length-append, List, [], ◌++◌, ◌==◌, if◌then◌else◌, arith}
use linode_moq.Coding.Outcome.{DecodeError}
use linode_moq.Coding.Buffer.{Buf, BufMut}
use linode_moq.Coding.Decoder.{Decoder, pure, fail, ◌>>=◌}
use linode_moq.Coding.Encoder.{Encoder, done, ◌>>◌}
use linode_moq.Coding.Rules.Writes.{Writes, Writes-then, Writes-done}
use linode_moq.Coding.Rules.Parses.{Parses, Parses-bind, Parses-last, Parses-pure}
use linode_moq.Coding.Rules.Ensures.{Ensures, Ensures-bind, Ensures-pure, Ensures-fail, Ensures-if}
use linode_moq.Coding.Varint.{u64_encode, u64_decode}
use linode_moq.Coding.Varint.Format.{IsVarint, varint_wire, length-varint_wire}
use linode_moq.Coding.Varint.Encoding.{u64_encode-Writes}
use linode_moq.Coding.Varint.Integers.{u64_decode-Parses, u64_decode-Ensures}

pub data SubscribeLocation : Type 0 where
  nowhere : SubscribeLocation
  absolute latest future : ℕ → SubscribeLocation

pub record SubscribePair : Type 0 where
  pub group : SubscribeLocation
  pub object : SubscribeLocation

abbrev pub LocationFits : SubscribeLocation → Type 0
LocationFits nowhere = Unit
LocationFits (absolute v) = IsVarint v
LocationFits (latest v) = IsVarint v
LocationFits (future v) = IsVarint v

pub record SubscribePairFits (p : SubscribePair) : Type 0 where
  pub group : LocationFits p.group
  pub object : LocationFits p.object

unfoldable pub location_id : SubscribeLocation → ℕ
location_id nowhere = 0
location_id (absolute v) = 1
location_id (latest v) = 2
location_id (future v) = 3

unfoldable pub value_wire : SubscribeLocation → List ℕ
value_wire nowhere = []
value_wire (absolute v) = varint_wire v
value_wire (latest v) = varint_wire v
value_wire (future v) = varint_wire v

unfoldable pub location_wire : SubscribeLocation → List ℕ
location_wire l = varint_wire (location_id l) ++ value_wire l

unfoldable pub subscribe_pair_wire : SubscribePair → List ℕ
subscribe_pair_wire p = location_wire p.group ++ (location_wire p.object ++ [])

module _ {W : Type 0} ⦃c : BufMut W⦄ where
  value_encode : SubscribeLocation → Encoder W
  value_encode nowhere = done
  value_encode (absolute v) = u64_encode v
  value_encode (latest v) = u64_encode v
  value_encode (future v) = u64_encode v

  unfoldable pub location_encode : SubscribeLocation → Encoder W
  unfolding value_encode location_id
  location_encode l = do u64_encode (location_id l); value_encode l

  unfoldable pub subscribe_pair_encode : SubscribePair → Encoder W
  subscribe_pair_encode p = do location_encode p.group; location_encode p.object; done

module _ {R : Type 0} ⦃b : Buf R⦄ where
  location_of : ℕ → Decoder R SubscribeLocation
  location_of kind =
      if kind == 0
      then pure nowhere
      else if kind == 1
      then (do v ← u64_decode; pure (absolute v))
      else if kind == 2
      then (do v ← u64_decode; pure (latest v))
      else if kind == 3
      then (do v ← u64_decode; pure (future v))
      else fail DecodeError.invalid_subscribe_location

  unfoldable pub location_decode : Decoder R SubscribeLocation
  unfolding location_of
  location_decode = do kind ← u64_decode; location_of kind

  unfoldable pub subscribe_pair_decode : Decoder R SubscribePair
  subscribe_pair_decode = do
    group ← location_decode
    object ← location_decode
    pure (record { group = group; object = object })

  location_of-Parses :
      (l : SubscribeLocation)
      → LocationFits l
      → Parses b (location_of (location_id l)) (value_wire l) l
  unfolding location_of location_id value_wire
  location_of-Parses nowhere h = Parses-pure nowhere
  location_of-Parses (absolute v) h =
      Parses-last _ (u64_decode-Parses v h) (Parses-pure (absolute v))
  location_of-Parses (latest v) h = Parses-last _ (u64_decode-Parses v h) (Parses-pure (latest v))
  location_of-Parses (future v) h = Parses-last _ (u64_decode-Parses v h) (Parses-pure (future v))

  location_of-Ensures : (kind : ℕ) → Ensures b LocationFits (location_of kind)
  unfolding location_of
  location_of-Ensures kind =
      Ensures-if (kind == 0) (λ _. Ensures-pure nowhere tt)
        λ _.
          Ensures-if (kind == 1)
            (λ _. Ensures-bind _ u64_decode-Ensures λ v hv. Ensures-pure (absolute v) hv)
            λ _.
              Ensures-if (kind == 2)
                (λ _. Ensures-bind _ u64_decode-Ensures λ v hv. Ensures-pure (latest v) hv)
                λ _.
                  Ensures-if (kind == 3)
                    (λ _. Ensures-bind _ u64_decode-Ensures λ v hv. Ensures-pure (future v) hv)
                    (λ _. Ensures-fail _)

module _ {W : Type 0} ⦃c : BufMut W⦄ where
  value_encode-Writes :
      (l : SubscribeLocation) → LocationFits l → Writes c (value_encode l) (value_wire l)
  unfolding value_encode value_wire
  value_encode-Writes nowhere h = Writes-done
  value_encode-Writes (absolute v) h = u64_encode-Writes v h
  value_encode-Writes (latest v) h = u64_encode-Writes v h
  value_encode-Writes (future v) h = u64_encode-Writes v h

location_id-IsVarint : (l : SubscribeLocation) → IsVarint (location_id l)
unfolding location_id
location_id-IsVarint nowhere = omega arith
location_id-IsVarint _ = omega arith

module _ {W : Type 0} ⦃c : BufMut W⦄ where
  location_encode-Writes :
      (l : SubscribeLocation) → LocationFits l → Writes c (location_encode l) (location_wire l)
  unfolding location_wire location_encode
  location_encode-Writes l h =
      Writes-then (u64_encode-Writes _ (location_id-IsVarint l)) (value_encode-Writes l h)

  pub subscribe_pair_encode-Writes :
      (p : SubscribePair)
      → SubscribePairFits p
      → Writes c (subscribe_pair_encode p) (subscribe_pair_wire p)
  unfolding subscribe_pair_wire subscribe_pair_encode
  subscribe_pair_encode-Writes p h =
      Writes-then (location_encode-Writes p.group h.group)
        (Writes-then (location_encode-Writes p.object h.object) Writes-done)

module _ {R : Type 0} ⦃b : Buf R⦄ where
  location_decode-Parses :
      (l : SubscribeLocation) → LocationFits l → Parses b location_decode (location_wire l) l
  unfolding location_wire location_decode
  location_decode-Parses l h =
      Parses-bind location_of (u64_decode-Parses _ (location_id-IsVarint l))
        (location_of-Parses l h)

  location_decode-Ensures : Ensures b LocationFits location_decode
  unfolding location_decode
  location_decode-Ensures =
      Ensures-bind location_of u64_decode-Ensures λ kind _. location_of-Ensures kind

  pub subscribe_pair_decode-Parses :
      (p : SubscribePair)
      → SubscribePairFits p
      → Parses b subscribe_pair_decode (subscribe_pair_wire p) p
  unfolding subscribe_pair_wire subscribe_pair_decode
  subscribe_pair_decode-Parses p h =
      Parses-bind _ (location_decode-Parses p.group h.group)
        (Parses-bind _ (location_decode-Parses p.object h.object) (Parses-pure p))

  pub subscribe_pair_decode-Ensures : Ensures b SubscribePairFits subscribe_pair_decode
  unfolding subscribe_pair_decode
  subscribe_pair_decode-Ensures = Ensures-bind _ location_decode-Ensures λ group hg.
      Ensures-bind _ location_decode-Ensures
        λ object ho. Ensures-pure _ (record { group = hg; object = ho })

-- Each location takes a byte at least.
pub length-subscribe_pair_wire : (p : SubscribePair) → 2 ≤ length (subscribe_pair_wire p)
unfolding subscribe_pair_wire location_wire
length-subscribe_pair_wire p = omega (
  arith,
  length-varint_wire (location_id p.group),
  length-varint_wire (location_id p.object),
  length-append (varint_wire (location_id p.group)) (value_wire p.group),
  length-append (varint_wire (location_id p.object)) (value_wire p.object),
  length-append (location_wire p.group) (location_wire p.object ++ []),
  length-append (location_wire p.object) [],
)
