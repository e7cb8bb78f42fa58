-- ===== src/Serve/Stream/Walk.antt =====
-- moq-transport/src/serve/stream.rs: what a reader of a group finds, against the reader of a subgroup,
-- which is written in the same way but for the order of two lines.
use linode_moq.Prelude.{
  ℕ, suc, ◌+◌, ◌≡◌, refl, sym, ap, ◌∙◌, List, [], ◌∷◌, ◌++◌, Option, subst, inl, inr, some, arith,
  All, All-append, length, length-append, get_elem?, lt→ltb,
}
use linode_moq.Coding.Outcome.{Outcome, ok, panic}
use linode_moq.Watch.State.{StateInner, returned}
use linode_moq.Serve.Error.{ServeError}
use linode_moq.Serve.Log.{indexed}
use linode_moq.Serve.Log.Reading.{log_push-items}
use linode_moq.Serve.Stream.Object.{StreamObjectReader, stream_object_produce}
use linode_moq.Serve.Stream.Group.{
  StreamGroupState, StreamGroupWriter, StreamGroupReader, stream_group_create, stream_group_next,
  stream_object_of,
}

-- What stands at the head of a list, and a panic where it is empty.
abbrev pub head_or_panic : List StreamObjectReader → Outcome ServeError (Option StreamObjectReader)
head_or_panic [] = panic
head_or_panic (o ∷ back) = ok (some o)

get_elem?-behind :
    (front back : List StreamObjectReader) (o : StreamObjectReader)
    → indexed (get_elem? (front ++ (o ∷ back)) (suc (length front))) ≡ head_or_panic back
unfolding indexed
get_elem?-behind [] [] o = refl
get_elem?-behind [] (p ∷ back) o = refl
get_elem?-behind (x ∷ front) back o = get_elem?-behind front back o

-- A reader of a group at an object that has a next one returns the next one in its place; at the last
-- object of the group it panics. So no reader of a group ever gets its first object, and one that has
-- got all others panics, which in a group of one object is the first thing that it does.
pub stream_group_next-skips :
    (r : StreamGroupReader) (s : StateInner StreamGroupState) (front back : List StreamObjectReader)
    (o : StreamObjectReader)
    → s.value.items ≡ front ++ (o ∷ back)
    → r.index ≡ length front
    → stream_group_next r s ≡ (returned (head_or_panic back), record r { index = r.index + 1 })
unfolding stream_group_next
stream_group_next-skips r s front back o e i =
    let n : r.index + 1 ≡ suc (length front) = omega (arith, i) in
    let found : indexed (get_elem? s.value.items (r.index + 1)) ≡ head_or_panic back =
      ap (λ k. indexed (get_elem? s.value.items k)) n
      ∙ ap (λ l. indexed (get_elem? l (suc (length front)))) e
      ∙ get_elem?-behind front back o in
    rw
      (
        lt→ltb r.index (length s.value.items)
            (omega (arith, i, ap length e, length-append front (o ∷ back))),
        found,
      )
      refl

-- Objects of given sizes, each with the address of its state, created one after the other.
unfoldable pub create_objects :
    List (ℕ × ℕ)
    → StreamGroupWriter
    → StateInner StreamGroupState
    → StreamGroupWriter × StateInner StreamGroupState
create_objects [] w s = (w, s)
create_objects ((len, address) ∷ rest) w s =
    let (created, w', s') = stream_group_create address len w s in create_objects rest w' s'

create-ids :
    (address len id : ℕ) (w : StreamGroupWriter) (s : StateInner StreamGroupState)
    → w.next ≡ id
    → All (λ o. o.info.object_id ≡ id) s.value.items
    → All (λ o. o.info.object_id ≡ id) (stream_group_create address len w s).2.value.items
unfolding stream_group_create stream_object_produce stream_object_of
create-ids address len id w s e all =
    elim (log_push-items (stream_object_produce address (stream_object_of len w)).1 s) [
      | inl kept ↦ subst (All {A = StreamObjectReader} (λ o. o.info.object_id ≡ id)) (sym kept) all
      | inr added ↦
          subst (All {A = StreamObjectReader} (λ o. o.info.object_id ≡ id)) (sym added)
            (All-append (λ o. o.info.object_id ≡ id) s.value.items (_ ∷ []) all (e, tt))
    ]

pub create_objects-ids :
    (sizes : List (ℕ × ℕ)) (id : ℕ) (w : StreamGroupWriter) (s : StateInner StreamGroupState)
    → w.next ≡ id
    → All (λ o. o.info.object_id ≡ id) s.value.items
    → All (λ o. o.info.object_id ≡ id) (create_objects sizes w s).1.value.items
unfolding create_objects stream_group_create
create_objects-ids [] id w s e all = all
create_objects-ids ((len, address) ∷ rest) id w s e all =
    create_objects-ids rest id (stream_group_create address len w s).1
      (stream_group_create address len w s).2 e (create-ids address len id w s e all)
