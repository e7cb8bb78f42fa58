-- ===== src/Serve/Subgroup/Group/Ids.antt =====
-- moq-transport/src/serve/subgroup.rs: the objects that a subgroup's writer makes, by their ids and by
-- what a reader gets of them.
use linode_moq.Prelude.{
  ℕ, ◌+◌, ◌<◌, ◌≡◌, refl, sym, ap, ◌∙◌, List, [], ◌∷◌, ◌++◌, some, none, arith, length, replicate,
  append_assoc, append-nil, concat, ◌==◌, if◌then◌else◌,
}
use linode_moq.Coding.Outcome.{Outcome, ok, err}
use linode_moq.Data.ObjectStatus.{ObjectStatus}
use linode_moq.Watch.State.{StateInner, inner_new, lock_mut, commit, notify}
use linode_moq.Serve.Error.{ServeError, size}
use linode_moq.Serve.Log.{log_new, log_push}
use linode_moq.Serve.Log.Reading.{finished, log_read_all-finished, log_push-live, log_next-log_push}
use linode_moq.Serve.Info.{SubgroupInfo}
use linode_moq.Serve.Subgroup.Object.{
  SubgroupObjectState, SubgroupObjectWriter, SubgroupObjectReader, subgroup_object_produce,
  subgroup_object_write, subgroup_object_drop, subgroup_object_read_all,
}
use linode_moq.Serve.Subgroup.Group.{
  SubgroupState, SubgroupWriter, subgroup_produce, subgroup_create, subgroup_write, write_whole,
  next_object, SubgroupReader, subgroup_read_next, subgroup_wait, subgroup_next,
}
use linode_moq.Serve.Subgroup.Object.Delivery.{write-ok, write-IsOpen, drop-finished, fresh-IsOpen}

-- Objects of given sizes, each with the address of its state, created one after the other.
unfoldable pub create_objects :
    List (ℕ × ℕ)
    → SubgroupWriter
    → StateInner SubgroupState
    → SubgroupWriter × StateInner SubgroupState
create_objects [] w s = (w, s)
create_objects ((len, address) ∷ rest) w s =
    let (created, w', s') = subgroup_create address len w s in create_objects rest w' s'

-- The objects of given sizes and addresses with consecutive ids, as a reader that starts finds them.
unfoldable pub numbered : SubgroupInfo → ℕ → List (ℕ × ℕ) → List SubgroupObjectReader
numbered info n [] = []
numbered info n ((len, address) ∷ rest) =
    record {
      state = address;
      info = record { group = info; object_id = n; size = len; status = ObjectStatus.object };
      index = 0;
    }
    ∷ numbered info (n + 1) rest

create-live :
    (address len : ℕ) (w : SubgroupWriter) (s : StateInner SubgroupState)
    → lock_mut s ≡ some s.value
    → w.next + 1 < 18446744073709551616
    → let (created, w', s') = subgroup_create address len w s in
      (lock_mut s' ≡ some s'.value)
      × (s'.value.items
          ≡ s.value.items ++ (record { state = address; info = next_object len w; index = 0 } ∷ []))
      × (w'.next ≡ w.next + 1)
      × (w'.info ≡ w.info)
unfolding subgroup_create subgroup_object_produce log_push lock_mut commit notify next_object
create-live address len w s live small = ground arith

pub create_objects-live :
    (sizes : List (ℕ × ℕ)) (w : SubgroupWriter) (s : StateInner SubgroupState)
    → lock_mut s ≡ some s.value
    → w.next + length sizes < 18446744073709551616
    → (create_objects sizes w s).1.value.items ≡ s.value.items ++ numbered w.info w.next sizes
unfolding create_objects numbered next_object
create_objects-live [] w s live small = sym (append-nil s.value.items)
create_objects-live ((len, address) ∷ rest) w s live small =
    let (live', e, n, i) = create-live address len w s live (omega arith) in
    let (created, w', s') = subgroup_create address len w s in
    create_objects-live rest w' s' live' (omega (arith, n))
    ∙ ap (λ l. l ++ numbered w'.info w'.next rest) e
    ∙ append_assoc s.value.items
        (record { state = address; info = next_object len w; index = 0 } ∷ [])
        (numbered w'.info w'.next rest)
    ∙ ap
        (λ l.
          s.value.items ++ (record { state = address; info = next_object len w; index = 0 } ∷ l))
        (ap (λ j. numbered j w'.next rest) i ∙ ap (λ k. numbered w.info k rest) n)

-- The objects of a new subgroup, created with fewer than 2^64 sizes, are those sizes in order, numbered
-- from 0 without a gap.
pub create_objects-numbered :
    (address : ℕ) (info : SubgroupInfo) (sizes : List (ℕ × ℕ))
    → length sizes < 18446744073709551616
    → let (w, r, s) = subgroup_produce address info in
      (create_objects sizes w s).1.value.items ≡ numbered info 0 sizes
unfolding subgroup_produce log_new inner_new lock_mut
create_objects-numbered address info sizes small =
    create_objects-live sizes (subgroup_produce address info).0 (subgroup_produce address info).2
      refl (omega arith)

-- The writer of an object whose size is that of a payload.
abbrev sized : ℕ → List ℕ → SubgroupWriter → SubgroupObjectWriter
sized address payload w = record {
  state = address;
  info = next_object (length payload) w;
  remain = length payload;
}

-- The state of an object behind the write of its whole payload and the drop of its writer.
abbrev written : ℕ → List ℕ → SubgroupWriter → StateInner SubgroupObjectState
written address payload w =
    let (result, writer, object) =
      subgroup_object_write payload (sized address payload w) log_new in
    subgroup_object_drop writer object

write-whole :
    (address : ℕ) (payload : List ℕ) (w : SubgroupWriter) (s : StateInner SubgroupState)
    → lock_mut s ≡ some s.value
    → (subgroup_write address payload w s).0 ≡ ok (written address payload w)
unfolding subgroup_write write_whole subgroup_create subgroup_object_produce next_object
write-whole address payload w s live =
    let o = write-ok payload (sized address payload w) log_new fresh-IsOpen (omega arith) in
    rw (log_push-live _ s live, o) refl

whole_size :
    (remain : ℕ) (payload : List ℕ) (items : List (List ℕ))
    → items ≡ payload ∷ []
    → remain + length payload ≡ length payload
    → Path
        (Outcome ServeError (List ℕ))
        (if remain == 0 then ok (concat items) else err size)
        (ok payload)
whole_size remain payload items e r = let nil = append-nil payload in ground arith

written-finished :
    (address : ℕ) (payload : List ℕ) (w : SubgroupWriter)
    → let object = written address payload w in
      (lock_mut object ≡ none)
      × (object.value.items ≡ payload ∷ [])
      × (finished object ≡ ok payload)
unfolding next_object log_new inner_new
written-finished address payload w =
    let (o, e, r) =
      write-IsOpen payload (sized address payload w) log_new fresh-IsOpen (omega arith) in
    let (gone, kept, out) = drop-finished _ _ o in
    (gone, kept ∙ e, out ∙ whole_size _ payload _ e r)

-- A payload that is written to a live subgroup is what `read_next` returns to a reader that has got all
-- objects before, where it looks often enough at the new object after the write; and the reader has got
-- that object then.
pub subgroup_write-read_next :
    (address n : ℕ) (payload : List ℕ) (w : SubgroupWriter) (s : StateInner SubgroupState)
    (r : SubgroupReader)
    → lock_mut s ≡ some s.value
    → r.index ≡ length s.value.items
    → 1 < n
    → let (result, w', s') = subgroup_write address payload w s in
      (object : StateInner SubgroupObjectState) × (result ≡ ok object)
      × (subgroup_read_next (s' ∷ []) (λ o. replicate n object) r
          ≡ (some (ok (some payload)), record r { index = r.index + 1 }))
unfolding subgroup_write subgroup_create subgroup_read_next subgroup_wait subgroup_next
    subgroup_object_read_all subgroup_object_produce
subgroup_write-read_next address n payload w s r live behind enough =
    let (gone, e, out) = written-finished address payload w in
    let reader : SubgroupObjectReader =
      (subgroup_object_produce address (next_object (length payload) w)).1 in
    let next = log_next-log_push reader r.index s live behind in
    let whole =
      log_read_all-finished [] n (written address payload w) tt gone (omega (arith, ap length e))
      ∙ ap some out in
    (written address payload w, write-whole address payload w s live, rw (next, whole) refl)
