-- ===== src/Serve/Subgroup/Object/Delivery.antt =====
-- moq-transport/src/serve/subgroup.rs: what a reader of an object gets of what its writer wrote.
use linode_moq.Prelude.{
  ℕ, suc, ◌+◌, ◌≤◌, ◌<◌, ◌≡◌, refl, sym, ap, ◌∙◌, List, [], ◌∷◌, ◌++◌, some, none, arith, length,
  length-append, concat, replicate, take, drop, take-append-drop, All, append_assoc, append-nil,
  ◌==◌, if◌then◌else◌, subst,
}
use mathlib.Core.List.{map}
use linode_moq.Coding.Outcome.{Outcome, ok, err}
use linode_moq.Watch.State.{StateInner, inner_new, lock_mut, commit, notify, state_drop}
use linode_moq.Serve.Error.{ServeError, size}
use linode_moq.Serve.Log.{log_new, log_push}
use linode_moq.Serve.Log.Reading.{IsPart, finished, log_read_all-finished}
use linode_moq.Serve.Info.{SubgroupObject}
use linode_moq.Serve.Subgroup.Object.{
  SubgroupObjectState, SubgroupObjectWriter, subgroup_object_produce, subgroup_object_write,
  subgroup_object_drop, subgroup_object_read_all,
}

-- The chunks written one after the other.
unfoldable pub writes :
    List (List ℕ)
    → SubgroupObjectWriter
    → StateInner SubgroupObjectState
    → SubgroupObjectWriter × StateInner SubgroupObjectState
writes [] w s = (w, s)
writes (chunk ∷ chunks) w s =
    let (result, w', s') = subgroup_object_write chunk w s in writes chunks w' s'

-- A state whose writer is there and has not closed it.
pub record IsOpen (s : StateInner SubgroupObjectState) : Type 0 where
  pub live : lock_mut s ≡ some s.value
  pub unclosed : s.value.closed ≡ none

pub write-ok :
    (chunk : List ℕ) (w : SubgroupObjectWriter) (s : StateInner SubgroupObjectState)
    → IsOpen s
    → length chunk ≤ w.remain
    → (subgroup_object_write chunk w s).0 ≡ ok tt
unfolding subgroup_object_write log_push
write-ok chunk w s h fits = ground arith

pub write-IsOpen :
    (chunk : List ℕ) (w : SubgroupObjectWriter) (s : StateInner SubgroupObjectState)
    → IsOpen s
    → length chunk ≤ w.remain
    → let (result, w', s') = subgroup_object_write chunk w s in
      IsOpen s'
      × (s'.value.items ≡ s.value.items ++ (chunk ∷ []))
      × (w'.remain + length chunk ≡ w.remain)
unfolding subgroup_object_write log_push lock_mut commit notify
write-IsOpen chunk w s h fits = ground arith

writes-IsOpen :
    (chunks : List (List ℕ)) (w : SubgroupObjectWriter) (s : StateInner SubgroupObjectState)
    → IsOpen s
    → length (concat chunks) ≤ w.remain
    → let (w', s') = writes chunks w s in
      IsOpen s'
      × (s'.value.items ≡ s.value.items ++ chunks)
      × (w'.remain + length (concat chunks) ≡ w.remain)
unfolding writes
writes-IsOpen [] w s h fits = (h, sym (append-nil s.value.items), omega arith)
writes-IsOpen (chunk ∷ chunks) w s h fits =
    let n = length-append chunk (concat chunks) in
    let (o, e, r) = write-IsOpen chunk w s h (omega (arith, n)) in
    let (result, w', s') = subgroup_object_write chunk w s in
    let (o', e', r') = writes-IsOpen chunks w' s' o (omega (arith, n, r)) in
    (
      o',
      e' ∙ ap (λ l. l ++ chunks) e ∙ append_assoc s.value.items (chunk ∷ []) chunks,
      omega (arith, n, r, r'),
    )

pub drop-finished :
    (w : SubgroupObjectWriter) (s : StateInner SubgroupObjectState)
    → IsOpen s
    → let s' = subgroup_object_drop w s in
      (lock_mut s' ≡ none)
      × (s'.value.items ≡ s.value.items)
      × (finished s' ≡ (if w.remain == 0 then ok (concat s.value.items) else err size))
unfolding subgroup_object_drop state_drop lock_mut commit notify finished
drop-finished w s h = ground arith

length-concat-take :
    (k : ℕ) (chunks : List (List ℕ)) → length (concat (take k chunks)) ≤ length (concat chunks)
length-concat-take ℕ.zero chunks = omega arith
length-concat-take (suc k) [] = omega arith
length-concat-take (suc k) (c ∷ chunks) = omega (
  arith,
  length-concat-take k chunks,
  length-append c (concat (take k chunks)),
  length-append c (concat chunks),
)

pub fresh-IsOpen : IsOpen log_new
unfolding log_new inner_new lock_mut
fresh-IsOpen = record { live = refl; unclosed = refl }

size_reached :
    (total remain : ℕ) (chunks items : List (List ℕ))
    → items ≡ chunks
    → remain + length (concat chunks) ≡ total
    → Path
        (Outcome ServeError (List ℕ))
        (if remain == 0 then ok (concat items) else err size)
        (if length (concat chunks) == total then ok (concat chunks) else err size)
size_reached total remain chunks items e r = ground arith

-- The chunks that came are a front part of all chunks, at any moment.
moment-IsPart :
    (chunks : List (List ℕ)) (w : SubgroupObjectWriter) (s : StateInner SubgroupObjectState) (k : ℕ)
    → IsOpen s
    → s.value.items ≡ []
    → length (concat chunks) ≤ w.remain
    → IsPart chunks (writes (take k chunks) w s).1
moment-IsPart chunks w s k h fresh fits =
    let (o, e, r) =
      writes-IsOpen (take k chunks) w s h (omega (arith, length-concat-take k chunks)) in
    (
      o.unclosed,
      o.live,
      (
        drop k chunks,
        sym (take-append-drop k chunks)
            ∙ ap (λ l. l ++ drop k chunks) (sym (e ∙ ap (λ l. l ++ take k chunks) fresh)),
      ),
    )

moments-IsPart :
    (chunks : List (List ℕ)) (w : SubgroupObjectWriter) (s : StateInner SubgroupObjectState)
    (moments : List ℕ)
    → IsOpen s
    → s.value.items ≡ []
    → length (concat chunks) ≤ w.remain
    → All (IsPart chunks) (map (λ k. (writes (take k chunks) w s).1) moments)
moments-IsPart chunks w s [] h fresh fits = tt
moments-IsPart chunks w s (k ∷ ks) h fresh fits =
    (moment-IsPart chunks w s k h fresh fits, moments-IsPart chunks w s ks h fresh fits)

-- Chunks that fit into the size of an object are written one after the other, and the writer is
-- dropped. A reader that looks at the object at any moments meanwhile, each after some of the writes,
-- and often enough afterwards, returns: the chunks joined in order where they add up to the size that
-- the object was given, and otherwise the error `Size`.
pub subgroup_object_read_all-writes :
    (address : ℕ) (info : SubgroupObject) (chunks : List (List ℕ)) (moments : List ℕ) (n : ℕ)
    → length (concat chunks) ≤ info.size
    → length chunks < n
    → let (w, r, s) = subgroup_object_produce address info in
      let (w', s') = writes chunks w s in
      subgroup_object_read_all r (
        map (λ k. (writes (take k chunks) w s).1) moments
        ++ replicate n (subgroup_object_drop w' s'))
      ≡ some (if length (concat chunks) == info.size then ok (concat chunks) else err size)
unfolding subgroup_object_produce subgroup_object_read_all log_new
subgroup_object_read_all-writes address info chunks moments n fits enough =
    let w : SubgroupObjectWriter = record { state = address; info = info; remain = info.size } in
    let s : StateInner SubgroupObjectState = log_new in
    let (o, e, r) = writes-IsOpen chunks w s fresh-IsOpen fits in
    let w' = (writes chunks w s).0 in
    let s' = (writes chunks w s).1 in
    let (gone, kept, out) = drop-finished w' s' o in
    let e' : (subgroup_object_drop w' s').value.items ≡ chunks = kept ∙ e in
    let early : List (StateInner SubgroupObjectState) =
      map (λ k. (writes (take k chunks) w s).1) moments in
    log_read_all-finished early n (subgroup_object_drop w' s')
      (subst (λ l. All (IsPart l) early) (sym e')
        (moments-IsPart chunks w s moments fresh-IsOpen refl fits))
      gone (omega (arith, ap length e'))
    ∙ ap some (out ∙ size_reached info.size w'.remain chunks s'.value.items e r)
