-- ===== src/Session/Subscribed/Sent.antt =====
-- moq-transport/src/session/subscribed.rs: what the stream of a subgroup has taken when its task ends.
use linode_moq.Prelude.{
  ℕ, suc, zero, ◌^◌, ◌<◌, ◌≤◌, ◌≡◌, refl, ap, ◌∙◌, sym, List, [], ◌∷◌, ◌++◌, some, none, arith,
  length, length-append, append_assoc, append-nil, concat, replicate, All,
}
use linode_moq.Coding.Outcome.{ok}
use linode_moq.Coding.Buffer.{VecBuf}
use linode_moq.Session.Writer.{SendStream, Written, finished}
use linode_moq.Data.SubgroupHeader.{SubgroupHeader, SubgroupHeaderFits}
use linode_moq.Data.Header.{Header, header_wire, header_encode-Writes}
use linode_moq.Data.SubgroupObject.{
  SubgroupObjectFits, subgroup_object_wire, subgroup_object_encode-Writes,
}
use linode_moq.Watch.State.{StateInner, lock_mut, modified}
use linode_moq.Serve.Subgroup.Object.{
  SubgroupObjectReader, SubgroupObjectState, subgroup_object_read,
}
use linode_moq.Serve.Subgroup.Group.{SubgroupReader, SubgroupState, subgroup_wait, subgroup_next}
use linode_moq.Session.Subscribed.{SubscribedState, note_object}
use linode_moq.Session.Subscribed.Sending.{
  Look, then_send, object_header, send_chunks, send_objects, serve_subgroup,
}
use linode_moq.Session.Writer.Patience.{patience, Delivers, write-Delivers, encode-Delivers}
use linode_moq.Serve.Log.Reading.{log_next-item, log_next-end, log_end-gone}

module _ {E : Type 0} where
  -- Two calls in a row.
  Delivers-then :
      (stream : SendStream E) (bs cs : List ℕ) {out : Written E} (k : SendStream E → Written E)
      → Delivers stream bs out
      → length (bs ++ cs) ≤ patience stream
      → ((s : SendStream E) → length cs ≤ patience s → Delivers s cs (k s))
      → Delivers stream (bs ++ cs) (then_send out k)
  Delivers-then stream bs cs k (s, e, q) room next =
      let (s', e', q') = next s (omega (arith, room, q, length-append bs cs)) in
      (s', rw (e, e') refl, omega (arith, q, q', length-append bs cs))

-- A reader of an object at its first chunk, and the state of an object whose writer has gone without an
-- error, with an object header that fits the format.
pub record IsWhole (whole : SubgroupObjectReader × StateInner SubgroupObjectState) : Type 0 where
  pub fits : SubgroupObjectFits (object_header whole.0)
  pub fresh : whole.0.index ≡ 0
  pub unclosed : whole.1.value.closed ≡ none
  pub gone : modified whole.1 ≡ none

-- The chunks of an object behind the first few.
send_chunks-Delivers :
    {E : Type 0} (front back : List (List ℕ)) (n : ℕ) (s : StateInner SubgroupObjectState)
    (o : SubgroupObjectReader) (stream : SendStream E)
    → s.value.items ≡ front ++ back
    → o.index ≡ length front
    → length back < n
    → s.value.closed ≡ none
    → modified s ≡ none
    → length (concat back) ≤ patience stream
    → Delivers stream (concat back) (send_chunks (replicate n s) o stream)
unfolding send_chunks subgroup_object_read
send_chunks-Delivers front back zero s o stream e i enough unclosed gone room = absurd (omega arith)
send_chunks-Delivers front [] (suc n) s o stream e i enough unclosed gone room =
    let end = log_next-end o.index s (omega (arith, i, ap length (e ∙ append-nil front))) in
    (stream, rw (end, log_end-gone s unclosed gone) refl, omega arith)
send_chunks-Delivers front (c ∷ back) (suc n) s o stream e i enough unclosed gone room =
    let item = log_next-item o.index front back c s e i in
    rw item (
      Delivers-then stream c (concat back) (send_chunks (replicate n s) _)
        (write-Delivers stream [] c (omega (arith, room, length-append c (concat back)))) room
        (λ stream' room'.
          send_chunks-Delivers (front ++ (c ∷ [])) back n s _ stream'
            (e ∙ sym (append_assoc front (c ∷ []) back))
            (omega (arith, i, length-append front (c ∷ []))) (omega arith) unclosed gone room'))

-- A session that finds a subgroup and its objects in their final states.
unfoldable pub final_looks :
    StateInner SubscribedState
    → StateInner SubgroupState
    → List (SubgroupObjectReader × StateInner SubgroupObjectState)
    → List Look
final_looks sub s [] = record { group = s ∷ []; subscription = sub; object = [] } ∷ []
final_looks sub s ((o, object) ∷ rest) =
    record {
      group = s ∷ [];
      subscription = sub;
      object = replicate (suc (length object.value.items)) object;
    }
    ∷ final_looks sub s rest

unfoldable pub readers :
    List (SubgroupObjectReader × StateInner SubgroupObjectState) → List SubgroupObjectReader
readers [] = []
readers ((o, _) ∷ rest) = o ∷ readers rest

-- The wire form of objects, each its header and its chunks.
unfoldable pub objects_wire : List (SubgroupObjectReader × StateInner SubgroupObjectState) → List ℕ
objects_wire [] = []
objects_wire ((o, object) ∷ rest) =
    subgroup_object_wire
      (record { object_id = o.info.object_id; size = o.info.size; status = o.info.status })
    ++ (concat object.value.items ++ objects_wire rest)

note_object-live :
    (g i : ℕ) (s : StateInner SubscribedState)
    → lock_mut s ≡ some s.value
    → (note_object g i s).0 ≡ ok tt
unfolding note_object
note_object-live g i s live = ground arith

module _ {V E : Type 0} (v : VecBuf V) where
  -- The objects of a subgroup behind the first few.
  send_objects-Delivers :
      (front : List SubgroupObjectReader)
      (objects : List (SubgroupObjectReader × StateInner SubgroupObjectState))
      (sub : StateInner SubscribedState) (s : StateInner SubgroupState) (r : SubgroupReader)
      (stream : SendStream E)
      → s.value.items ≡ front ++ readers objects
      → r.index ≡ length front
      → s.value.closed ≡ none
      → modified s ≡ none
      → lock_mut sub ≡ some sub.value
      → All IsWhole objects
      → length (objects_wire objects) < 2 ^ 63
      → length (objects_wire objects) ≤ patience stream
      → Delivers stream (objects_wire objects) (send_objects v (final_looks sub s objects) r stream)
  unfolding object_header send_objects final_looks readers objects_wire subgroup_wait subgroup_next
  send_objects-Delivers front [] sub s r stream e i unclosed gone live whole small room =
      let end = log_next-end r.index s (omega (arith, i, ap length (e ∙ append-nil front))) in
      (stream, rw (end, log_end-gone s unclosed gone) refl, omega arith)
  send_objects-Delivers front ((o, object) ∷ rest) sub s r stream e i unclosed gone live
        (whole, wholes) small room =
      let header = subgroup_object_wire (object_header o) in
      let chunks : List ℕ = concat object.value.items in
      let item = log_next-item r.index front (readers rest) o s e i in
      let split = length-append header (chunks ++ objects_wire rest) in
      let split' = length-append chunks (objects_wire rest) in
      let noted = note_object-live r.info.group_id o.info.object_id sub live in
      rw item (
        Delivers-then stream header (chunks ++ objects_wire rest) _
          (encode-Delivers v stream
            (subgroup_object_encode-Writes ⦃c = v.buf_mut⦄ (object_header o) whole.fits)
            (omega (arith, small, split)) (omega (arith, room, split)))
          room
          (λ stream' room'. rw noted (
            Delivers-then stream' chunks (objects_wire rest) _
              (send_chunks-Delivers [] object.value.items (suc (length object.value.items)) object o
                stream' refl whole.fresh (omega arith) whole.unclosed whole.gone
                (omega (arith, room', split')))
              room'
              (λ stream'' room''.
                send_objects-Delivers (front ++ (o ∷ [])) rest sub s _ stream''
                  (e ∙ sym (append_assoc front (o ∷ []) (readers rest)))
                  (omega (arith, i, length-append front (o ∷ []))) unclosed gone live wholes
                  (omega (arith, small, split, split')) room''))))

  -- A subgroup whose writer has gone without an error, and so have those of its objects, is sent from
  -- its start to a subscription that stays live, on a stream with a write that takes a byte or more
  -- for each byte to send: the task returns, and the stream has taken the header of the subgroup and,
  -- for each object in order, its header and then its chunks.
  pub serve_subgroup_lem :
      (header : SubgroupHeader)
      (objects : List (SubgroupObjectReader × StateInner SubgroupObjectState))
      (sub : StateInner SubscribedState) (s : StateInner SubgroupState) (r : SubgroupReader)
      (stream : SendStream E)
      → SubgroupHeaderFits header
      → s.value.items ≡ readers objects
      → r.index ≡ 0
      → s.value.closed ≡ none
      → modified s ≡ none
      → lock_mut sub ≡ some sub.value
      → All IsWhole objects
      → length (header_wire (Header.subgroup header) ++ objects_wire objects) < 2 ^ 63
      → length (header_wire (Header.subgroup header) ++ objects_wire objects) ≤ patience stream
      → (stream' : SendStream E) × (serve_subgroup v header (final_looks sub s objects) r stream
          ≡ finished (header_wire (Header.subgroup header) ++ objects_wire objects) stream')
  unfolding serve_subgroup
  serve_subgroup_lem header objects sub s r stream fits e i unclosed gone live wholes small room =
      let front = header_wire (Header.subgroup header) in
      let split = length-append front (objects_wire objects) in
      let (stream', sent, _) =
        Delivers-then stream front (objects_wire objects)
          (send_objects v (final_looks sub s objects) r)
          (encode-Delivers v stream
            (header_encode-Writes ⦃c = v.buf_mut⦄ (Header.subgroup header) fits)
            (omega (arith, small, split)) (omega (arith, room, split)))
          room
          (λ stream' room'.
            send_objects-Delivers [] objects sub s r stream' e i unclosed gone live wholes
              (omega (arith, small, split)) room') in
      (stream', sent)
