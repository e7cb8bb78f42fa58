-- ===== src/Serve/Stream/Delivery.antt =====
-- moq-transport/src/serve/stream.rs: what a reader of an object gets of what its writer wrote. The
-- writer leaves the states that the writer of an object of a subgroup leaves.
use linode_moq.Prelude.{
  ℕ, zero, suc, ◌-◌, ◌≤◌, ◌<◌, ◌≡◌, refl, ap, ◌∙◌, List, [], ◌∷◌, ◌++◌, some, none, arith, length,
  length-append, concat, replicate, take, ltb, true, false, Bool-cases, inl, inr, ◌==◌,
  if◌then◌else◌,
}
use mathlib.Core.List.{map}
use linode_moq.Coding.Outcome.{ok, err}
use linode_moq.Watch.State.{StateInner, inner_new}
use linode_moq.Serve.Error.{size}
use linode_moq.Serve.Log.{log_new}
use linode_moq.Serve.Log.Reading.{log_push-closed}
use linode_moq.Serve.Info.{StreamObject, SubgroupObject}
use linode_moq.Serve.Stream.Object.{
  StreamObjectState, StreamObjectWriter, stream_object_produce, stream_object_write,
  stream_object_drop, stream_object_read_all,
}
use linode_moq.Serve.Subgroup.Object.{
  SubgroupObjectWriter, subgroup_object_produce, subgroup_object_write, subgroup_object_drop,
  subgroup_object_read_all,
}
use linode_moq.Serve.Subgroup.Object.Delivery.{writes, subgroup_object_read_all-writes}

-- The chunks written one after the other.
unfoldable pub stream_writes :
    List (List ℕ)
    → StreamObjectWriter
    → StateInner StreamObjectState
    → StreamObjectWriter × StateInner StreamObjectState
stream_writes [] w s = (w, s)
stream_writes (chunk ∷ chunks) w s =
    let (result, w', s') = stream_object_write chunk w s in stream_writes chunks w' s'

write-same :
    (chunk : List ℕ) (w : StreamObjectWriter) (v : SubgroupObjectWriter)
    (s : StateInner StreamObjectState)
    → w.remain ≡ v.remain
    → s.value.closed ≡ none
    → let (result, w', s') = stream_object_write chunk w s in
      let (result', v', s'') = subgroup_object_write chunk v s in
      (s' ≡ s'') × (w'.remain ≡ v'.remain) × (s'.value.closed ≡ none)
unfolding stream_object_write subgroup_object_write
write-same chunk w v s e unclosed = let kept = log_push-closed chunk s in ground arith

drop-same :
    (w : StreamObjectWriter) (v : SubgroupObjectWriter) (s : StateInner StreamObjectState)
    → w.remain ≡ v.remain
    → s.value.closed ≡ none
    → stream_object_drop w s ≡ subgroup_object_drop v s
unfolding stream_object_drop subgroup_object_drop
drop-same w v s e unclosed = ground arith

writes-same :
    (chunks : List (List ℕ)) (w : StreamObjectWriter) (v : SubgroupObjectWriter)
    (s : StateInner StreamObjectState)
    → w.remain ≡ v.remain
    → s.value.closed ≡ none
    → let (w', s') = stream_writes chunks w s in
      let (v', s'') = writes chunks v s in
      (s' ≡ s'') × (w'.remain ≡ v'.remain) × (s'.value.closed ≡ none)
unfolding stream_writes writes
writes-same [] w v s e unclosed = (refl, e, unclosed)
writes-same (chunk ∷ chunks) w v s e unclosed =
    let (same, remains, unclosed') = write-same chunk w v s e unclosed in
    let (_, w', s') = stream_object_write chunk w s in
    let (_, v', s'') = subgroup_object_write chunk v s in
    let (same', remains', unclosed'') = writes-same chunks w' v' s' remains unclosed' in
    (
      same' ∙ ap (λ t. (writes chunks v' t).1) same,
      remains' ∙ ap (λ t. (writes chunks v' t).0.remain) same,
      unclosed'',
    )

-- An object of a subgroup with the size of one of a stream.
abbrev alike : StreamObject → SubgroupObject
alike o = record {
  group = record {
    track = o.group.stream.track;
    group_id = o.group.group_id;
    subgroup_id = 0;
    priority = o.group.stream.priority;
  };
  object_id = o.object_id;
  size = o.size;
  status = o.status;
}

-- The chunks that are taken one after the other where `r` bytes remain, those left out that are longer
-- than what remains.
unfoldable pub accepted : ℕ → List (List ℕ) → List (List ℕ)
accepted r [] = []
accepted r (chunk ∷ chunks) =
    let refused = accepted r chunks in
    let taken = accepted (r - length chunk) chunks in
    if ltb r (length chunk) then refused else chunk ∷ taken

accepted_fits : (r : ℕ) (chunks : List (List ℕ)) → length (concat (accepted r chunks)) ≤ r
unfolding accepted
accepted_fits r [] = omega arith
accepted_fits r (chunk ∷ chunks) = elim (Bool-cases (ltb r (length chunk))) [
  | inl long ↦ rw long (accepted_fits r chunks)
  | inr short ↦
      let rest = accepted (r - length chunk) chunks in
      let le : length chunk ≤ r = ground arith in
      rw short (
        omega
          (arith, length-append chunk (concat rest), accepted_fits (r - length chunk) chunks, le))
]

accepted_fewer : (r : ℕ) (chunks : List (List ℕ)) → length (accepted r chunks) ≤ length chunks
unfolding accepted
accepted_fewer r [] = omega arith
accepted_fewer r (chunk ∷ chunks) = elim (Bool-cases (ltb r (length chunk))) [
  | inl long ↦ rw long (omega (arith, accepted_fewer r chunks))
  | inr short ↦ rw short (omega (arith, accepted_fewer (r - length chunk) chunks))
]

-- What is taken of the first chunks comes first in what is taken of all.
accepted-take :
    (r k : ℕ) (chunks : List (List ℕ))
    → accepted r (take k chunks) ≡ take (length (accepted r (take k chunks))) (accepted r chunks)
unfolding accepted
accepted-take r zero chunks = refl
accepted-take r (suc k) [] = refl
accepted-take r (suc k) (chunk ∷ chunks) = elim (Bool-cases (ltb r (length chunk))) [
  | inl long ↦ rw long (accepted-take r k chunks)
  | inr short ↦ rw short (ap (λ l. chunk ∷ l) (accepted-take (r - length chunk) k chunks))
]

write-refused :
    (chunk : List ℕ) (w : StreamObjectWriter) (s : StateInner StreamObjectState)
    → ltb w.remain (length chunk) ≡ true
    → stream_object_write chunk w s ≡ (err size, w, s)
unfolding stream_object_write
write-refused chunk w s long = rw (stream_object_write, long) refl

write-taken :
    (chunk : List ℕ) (w : StreamObjectWriter) (s : StateInner StreamObjectState)
    → ltb w.remain (length chunk) ≡ false
    → (stream_object_write chunk w s).1.remain ≡ w.remain - length chunk
unfolding stream_object_write
write-taken chunk w s short = rw (stream_object_write, short) refl

writes-accepted :
    (chunks : List (List ℕ)) (w : StreamObjectWriter) (s : StateInner StreamObjectState)
    → stream_writes chunks w s ≡ stream_writes (accepted w.remain chunks) w s
unfolding stream_writes accepted
writes-accepted [] w s = refl
writes-accepted (chunk ∷ chunks) w s = elim (Bool-cases (ltb w.remain (length chunk))) [
  | inl long ↦ rw (long, write-refused chunk w s long) (writes-accepted chunks w s)
  | inr short ↦
      let (_, w', s') = stream_object_write chunk w s in
      rw short (
        writes-accepted chunks w' s'
        ∙ ap (λ r. stream_writes (accepted r chunks) w' s') (write-taken chunk w s short))
]

-- A moment after some of the writes is one after some of those that are taken.
abbrev moment : ℕ → List (List ℕ) → ℕ → ℕ
moment r chunks k = length (accepted r (take k chunks))

moments-same :
    (chunks : List (List ℕ)) (w : StreamObjectWriter) (v : SubgroupObjectWriter)
    (s : StateInner StreamObjectState) (moments : List ℕ)
    → w.remain ≡ v.remain
    → s.value.closed ≡ none
    → map (λ k. (stream_writes (take k chunks) w s).1) moments
      ≡ map
          (λ j. (writes (take j (accepted w.remain chunks)) v s).1)
          (map (moment w.remain chunks) moments)
moments-same chunks w v s [] e unclosed = refl
moments-same chunks w v s (k ∷ ks) e unclosed =
    let taken = accepted w.remain chunks in
    let j = moment w.remain chunks k in
    let (same, _, _) = writes-same (take j taken) w v s e unclosed in
    let one : (stream_writes (take k chunks) w s).1 ≡ (writes (take j taken) v s).1 =
      ap (λ p. p.1) (writes-accepted (take k chunks) w s)
      ∙ ap (λ l. (stream_writes l w s).1) (accepted-take w.remain k chunks)
      ∙ same in
    ap (λ t. t ∷ map (λ k. (stream_writes (take k chunks) w s).1) ks) one
    ∙ ap (λ l. (writes (take j taken) v s).1 ∷ l) (moments-same chunks w v s ks e unclosed)

-- Chunks are written to an object of a stream one after the other, and the writer is dropped. A reader
-- that looks at the object at any moments meanwhile, each after some of the writes, and often enough
-- afterwards, returns. The chunks that are longer than what remained of the size at their turn are left
-- out; the others are returned, joined in order, where they add up to the size that the object was
-- given, and otherwise the error `Size`.
pub stream_object_read_all-writes :
    (address : ℕ) (info : StreamObject) (chunks : List (List ℕ)) (moments : List ℕ) (n : ℕ)
    → length chunks < n
    → let (w, r, s) = stream_object_produce address info in
      let (w', s') = stream_writes chunks w s in
      let taken = accepted info.size chunks in
      stream_object_read_all r (
        map (λ k. (stream_writes (take k chunks) w s).1) moments
        ++ replicate n (stream_object_drop w' s'))
      ≡ some (if length (concat taken) == info.size then ok (concat taken) else err size)
unfolding stream_object_produce stream_object_read_all subgroup_object_produce
    subgroup_object_read_all log_new inner_new
stream_object_read_all-writes address info chunks moments n enough =
    let (w, r, s) = stream_object_produce address info in
    let (v, q, _) = subgroup_object_produce address (alike info) in
    let taken = accepted info.size chunks in
    let all : stream_writes chunks w s ≡ stream_writes taken w s = writes-accepted chunks w s in
    let (same, remains, unclosed) = writes-same taken w v s refl refl in
    let (w', s') = stream_writes taken w s in
    let (v', s'') = writes taken v s in
    let dropped : stream_object_drop (stream_writes chunks w s).0 (stream_writes chunks w s).1
        ≡ subgroup_object_drop v' s'' =
      ap (λ p. stream_object_drop p.0 p.1) all
      ∙ drop-same w' v' s' remains unclosed
      ∙ ap (subgroup_object_drop v') same in
    rw (moments-same chunks w v s moments refl refl, dropped)
      (subgroup_object_read_all-writes address (alike info) taken
        (map (moment info.size chunks) moments) n (accepted_fits info.size chunks)
        (omega (arith, enough, accepted_fewer info.size chunks)))
