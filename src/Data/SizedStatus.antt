-- ===== src/Data/SizedStatus.antt =====
-- The status of an object in data/subgroup.rs and data/track.rs: it is sent for an empty object
-- only, and any other object has the status `Object`.
use linode_moq.Prelude.{ℕ, List, [], ◌≡◌, ◌==◌, refl, false, inl, inr, Bool-cases, if◌then◌else◌}
use linode_moq.Coding.Buffer.{Buf, BufMut}
use linode_moq.Coding.Decoder.{Decoder, pure}
use linode_moq.Coding.Encoder.{Encoder, done}
use linode_moq.Coding.Rules.Writes.{Writes, Writes-done}
use linode_moq.Coding.Rules.Parses.{Parses, Parses-pure}
use linode_moq.Coding.Rules.Ensures.{Ensures, Ensures-if, Ensures-pure, Ensures-weaken}
use linode_moq.Data.ObjectStatus.{
  ObjectStatus, object, object_status_wire, object_status_encode, object_status_decode,
  object_status_encode-Writes, object_status_decode-Parses, object_status_decode-Ensures,
}

abbrev pub StatusFits : ℕ → ObjectStatus → Type 0
StatusFits size status = (size == 0) ≡ false → status ≡ object

unfoldable pub status_wire : ℕ → ObjectStatus → List ℕ
status_wire size status = if size == 0 then object_status_wire status else []

module _ {W : Type 0} ⦃c : BufMut W⦄ where
  unfoldable pub status_encode : ℕ → ObjectStatus → Encoder W
  status_encode size status = if size == 0 then object_status_encode status else done

  pub status_encode-Writes :
      (size : ℕ) (status : ObjectStatus)
      → Writes c (status_encode size status) (status_wire size status)
  unfolding status_encode status_wire
  status_encode-Writes size status = elim (Bool-cases (size == 0)) [
    | inl empty ↦ rw empty (object_status_encode-Writes status tt)
    | inr full ↦ rw full Writes-done
  ]

module _ {R : Type 0} ⦃b : Buf R⦄ where
  unfoldable pub status_decode : ℕ → Decoder R ObjectStatus
  status_decode size = if size == 0 then object_status_decode else pure object

  pub status_decode-Parses :
      (size : ℕ) (status : ObjectStatus)
      → StatusFits size status
      → Parses b (status_decode size) (status_wire size status) status
  unfolding status_decode status_wire
  status_decode-Parses size status h = elim (Bool-cases (size == 0)) [
    | inl empty ↦ rw empty (object_status_decode-Parses status tt)
    | inr full ↦ rw (full, h full) (Parses-pure object)
  ]

  pub status_decode-Ensures : (size : ℕ) → Ensures b (StatusFits size) (status_decode size)
  unfolding status_decode
  status_decode-Ensures size =
      Ensures-if (size == 0) (λ empty. Ensures-weaken (λ s _ full. cc) object_status_decode-Ensures)
        (λ full. Ensures-pure object (λ _. refl))
