-- ===== src/Setup/Version.antt =====
-- moq-transport/src/setup/version.rs: the versions of the protocol that an endpoint offers.
use linode_moq.Prelude.{ℕ, List, [], ◌++◌, length, All}
use linode_moq.Coding.Buffer.{Buf, BufMut}
use linode_moq.Coding.Decoder.{Decoder, pure, ◌>>=◌}
use linode_moq.Coding.Encoder.{Encoder, done, ◌>>◌}
use linode_moq.Coding.Codec.{IsCodec}
use linode_moq.Coding.Rules.Writes.{Writes, Writes-then, Writes-done}
use linode_moq.Coding.Rules.Parses.{Parses, Parses-bind, Parses-pure}
use linode_moq.Coding.Rules.Ensures.{Ensures, Ensures-bind, Ensures-pure}
use linode_moq.Coding.Varint.{u64_encode, u64_decode}
use linode_moq.Coding.Varint.Format.{IsVarint, varint_wire}
use linode_moq.Coding.Varint.Encoding.{u64_encode-Writes}
use linode_moq.Coding.Varint.Integers.{u64_decode-Parses, u64_decode-Ensures}
use linode_moq.Coding.Sequence.{
  each_wire, encode_each, decode_each, encode_each-Writes, decode_each-Parses, decode_each-Ensures,
}

pub record Version : Type 0 where
  pub number : ℕ

-- `Version::DRAFT_07`
abbrev pub draft_07 : Version
draft_07 = record { number = 0xff000007 }

abbrev pub Versions : Type 0
Versions = List Version

abbrev pub VersionFits : Version → Type 0
VersionFits v = IsVarint v.number

unfoldable pub version_wire : Version → List ℕ
version_wire v = varint_wire v.number ++ []

pub record VersionsFits (vs : Versions) : Type 0 where
  pub each : All VersionFits vs
  pub count : IsVarint (length vs)

unfoldable pub versions_wire : Versions → List ℕ
versions_wire vs = varint_wire (length vs) ++ (each_wire version_wire vs ++ [])

module _ {W : Type 0} ⦃c : BufMut W⦄ where
  unfoldable pub version_encode : Version → Encoder W
  version_encode v = do u64_encode v.number; done

  pub version_encode-Writes :
      (v : Version) → VersionFits v → Writes c (version_encode v) (version_wire v)
  unfolding version_encode version_wire
  version_encode-Writes v h = Writes-then (u64_encode-Writes v.number h) Writes-done

  unfoldable pub versions_encode : Versions → Encoder W
  versions_encode vs = do u64_encode (length vs); encode_each version_encode vs; done

  pub versions_encode-Writes :
      (vs : Versions) → VersionsFits vs → Writes c (versions_encode vs) (versions_wire vs)
  unfolding versions_encode versions_wire
  versions_encode-Writes vs h =
      Writes-then (u64_encode-Writes (length vs) h.count)
        (Writes-then (encode_each-Writes version_encode-Writes vs h.each) Writes-done)

module _ {R : Type 0} ⦃b : Buf R⦄ where
  unfoldable pub version_decode : Decoder R Version
  version_decode = do v ← u64_decode; pure (record { number = v })

  pub version_decode-Parses :
      (v : Version) → VersionFits v → Parses b version_decode (version_wire v) v
  unfolding version_decode version_wire
  version_decode-Parses v h = Parses-bind _ (u64_decode-Parses v.number h) (Parses-pure v)

  pub version_decode-Ensures : Ensures b VersionFits version_decode
  unfolding version_decode
  version_decode-Ensures = Ensures-bind _ u64_decode-Ensures λ v h. Ensures-pure _ h

  unfoldable pub versions_decode : Decoder R Versions
  versions_decode = do count ← u64_decode; vs ← decode_each count version_decode; pure vs

  pub versions_decode-Parses :
      (vs : Versions) → VersionsFits vs → Parses b versions_decode (versions_wire vs) vs
  unfolding versions_decode versions_wire
  versions_decode-Parses vs h =
      Parses-bind _ (u64_decode-Parses (length vs) h.count)
        (Parses-bind _ (decode_each-Parses version_decode-Parses vs h.each) (Parses-pure vs))

  pub versions_decode-Ensures : Ensures b VersionsFits versions_decode
  unfolding versions_decode
  versions_decode-Ensures = Ensures-bind _ u64_decode-Ensures λ count hc.
      Ensures-bind _ (decode_each-Ensures version_decode-Ensures count)
        λ vs (each, size). Ensures-pure vs (record { each = each; count = rw size hc })

module _ {R W : Type 0} ⦃b : Buf R⦄ ⦃c : BufMut W⦄ where
  pub versions-IsCodec : IsCodec b c VersionsFits versions_wire versions_encode versions_decode
  versions-IsCodec = record {
    writes = versions_encode-Writes;
    parses = versions_decode-Parses;
    ensures = versions_decode-Ensures;
  }
